-- ===== src/RunActions/Operation.antt =====
-- `OperationSpec`: what a script starts, and the arguments of the child process.
use apm_projectrunner.Base.{
  String, List, [], ◌∷◌, ◌++◌, Option, none, some, concat, map, ◌≡◌, refl, arith,
}
use apm_projectrunner.RunActions.{
  RunScript, StructuredCommand, as_str, validate, validate_name, or_then, kind_error,
}

pub data OperationSpec : Type 0 where
  structured :
      StructuredCommand → String → List String → Option String → List String → OperationSpec
  membership : String → String → String → OperationSpec
  shell : String → OperationSpec

abbrev pub direct : StructuredCommand → String → OperationSpec
direct command bundle = structured command bundle [] none []

abbrev flagged : String → String → List String
flagged flag value = flag ∷ value ∷ []

abbrev variation_flag : Option String → List String
variation_flag none = []
variation_flag (some v) = flagged "--variation" v

unfoldable pub arguments : OperationSpec → Option (List String)
arguments (structured command bundle overlays variation set) = some (
    (as_str command ∷ bundle ∷ [])
    ++ concat (map (flagged "--with") overlays)
    ++ variation_flag variation
    ++ concat (map (flagged "--set") set))
arguments (membership bundle instance_name group) =
    some ("move" ∷ bundle ∷ instance_name ∷ group ∷ [])
arguments (shell text) = none

-- What `from_script` comes to: a specification, a message, or the panic of `expect`.
pub data Built : Type 0 where
  built : OperationSpec → Built
  refused : String → Built
  panicked : Built

abbrev shell_spec : Option String → Built
shell_spec (some text) = built (shell text)
shell_spec none = panicked

abbrev spec_of : RunScript → String → Option StructuredCommand → Built
spec_of s bundle (some command) = built (structured command bundle s.overlays s.variation s.set)
spec_of s bundle none = shell_spec s.shell

abbrev validated : RunScript → String → Option String → Built
validated s bundle (some why) = refused why
validated s bundle none = spec_of s bundle s.command

-- `OperationSpec::from_script`.
unfoldable pub from_script : RunScript → String → Built
from_script s bundle = validated s bundle (validate s)

-- The variables of the environment and the path of the running program, of the standard library.
pub record Environment : Type 0 where
  pub var_os : String → Option String
  pub current_exe : Option String

pub record Command : Type 0 where
  pub program : String
  pub args : List String

abbrev first_of : Option String → Option String → String → String
first_of (some a) second default = a
first_of none (some b) default = b
first_of none none default = default

abbrev executable : Environment → Option String → String
executable env (some path) = path
executable env none = first_of (env.var_os "APMPR_BIN") env.current_exe "apmpr"

-- The command of a specification with arguments, and of the text of a shell.
abbrev started : Environment → Option String → OperationSpec → Option (List String) → Option Command
started env program spec (some args) =
    some (record { program = executable env program; args = args })
started env program spec none = none

-- `process_command_with`; none where `expect` panics.
unfoldable pub process_command_with : Environment → Option String → OperationSpec → Option Command
process_command_with env program (shell text) =
    some
      (record { program = first_of (env.var_os "SHELL") none "/bin/sh"; args = "-c" ∷ text ∷ [] })
process_command_with env program (structured command bundle overlays variation set) =
    started env program (structured command bundle overlays variation set)
      (arguments (structured command bundle overlays variation set))
process_command_with env program (membership bundle instance_name group) =
    started env program (membership bundle instance_name group)
      (arguments (membership bundle instance_name group))

-- The flag before each of the values.
pub data Repeats (flag : String) : List String → List String → Type 0 where
  nothing : Repeats flag [] []
  again :
      {value : String} {values args : List String}
      → Repeats flag values args
      → Repeats flag (value ∷ values) (flag ∷ value ∷ args)

-- The program of a command: the one that was given, then that of a variable, then the running one.
pub data IsProgram (env : Environment) (program : Option String) : String → Type 0 where
  given : {path : String} → program ≡ some path → IsProgram env program path
  configured :
      {path : String}
      → program ≡ none
      → env.var_os "APMPR_BIN" ≡ some path
      → IsProgram env program path
  running :
      {path : String}
      → program ≡ none
      → env.var_os "APMPR_BIN" ≡ none
      → env.current_exe ≡ some path
      → IsProgram env program path
  by_name :
      program ≡ none
      → env.var_os "APMPR_BIN" ≡ none
      → env.current_exe ≡ none
      → IsProgram env program "apmpr"

pub data IsShell (env : Environment) : String → Type 0 where
  preferred : {path : String} → env.var_os "SHELL" ≡ some path → IsShell env path
  posix : env.var_os "SHELL" ≡ none → IsShell env "/bin/sh"

-- At most one value, behind its flag.
pub data Optionally (flag : String) : Option String → List String → Type 0 where
  without : Optionally flag none []
  with_value : {value : String} → Optionally flag (some value) (flag ∷ value ∷ [])

-- The process that runs a script: its command on the bundle, with the flags of its overlays, its
-- variation and its settings in this order, or its text in a shell.
pub data Runs (env : Environment) (program : Option String) (s : RunScript) (bundle : String)
    : Option Command → Type 0 where
  runs_command :
      {command : StructuredCommand} {at : String} {overlays variation set : List String}
      → s.command ≡ some command
      → IsProgram env program at
      → Repeats "--with" s.overlays overlays
      → Optionally "--variation" s.variation variation
      → Repeats "--set" s.set set
      → Runs env program s bundle (
          some (record {
            program = at;
            args = as_str command ∷ bundle ∷ (overlays ++ variation ++ set);
          }))
  runs_shell :
      {text : String} {at : String}
      → s.command ≡ none
      → s.shell ≡ some text
      → IsShell env at
      → Runs env program s bundle (some (record { program = at; args = "-c" ∷ text ∷ [] }))

flagged-Repeats :
    (flag : String) (values : List String)
    → Repeats flag values (concat (map (flagged flag) values))
flagged-Repeats flag [] = Repeats.nothing
flagged-Repeats flag (value ∷ values) = Repeats.again (flagged-Repeats flag values)

variation_flag-Optionally : (v : Option String) → Optionally "--variation" v (variation_flag v)
variation_flag-Optionally none = Optionally.without
variation_flag-Optionally (some v) = Optionally.with_value

module _ (env : Environment) where
  first_of-IsProgram :
      (variable current : Option String)
      → env.var_os "APMPR_BIN" ≡ variable
      → env.current_exe ≡ current
      → IsProgram env none (first_of variable current "apmpr")
  first_of-IsProgram (some path) current v c = IsProgram.configured refl v
  first_of-IsProgram none (some path) v c = IsProgram.running refl v c
  first_of-IsProgram none none v c = IsProgram.by_name refl v c

  executable-IsProgram : (program : Option String) → IsProgram env program (executable env program)
  executable-IsProgram (some path) = IsProgram.given refl
  executable-IsProgram none = first_of-IsProgram (env.var_os "APMPR_BIN") env.current_exe refl refl

  first_of-IsShell :
      (variable : Option String)
      → env.var_os "SHELL" ≡ variable
      → IsShell env (first_of variable none "/bin/sh")
  first_of-IsShell (some path) v = IsShell.preferred v
  first_of-IsShell none v = IsShell.posix v

or_then-none :
    (first rest : Option String) → or_then first rest ≡ none → (first ≡ none) × (rest ≡ none)
or_then-none none rest h = (refl, h)
or_then-none (some why) rest h = absurd (ground arith)

module _ (env : Environment) (program : Option String) (s : RunScript) (bundle : String) where
  spec_of-Runs :
      (command : Option StructuredCommand) (text : Option String)
      → s.command ≡ command
      → s.shell ≡ text
      → kind_error command text s ≡ none
      → (spec : OperationSpec) × (spec_of s bundle command ≡ built spec)
        × Runs env program s bundle (process_command_with env program spec)
  unfolding process_command_with arguments
  spec_of-Runs (some command) text c t h = (
    structured command bundle s.overlays s.variation s.set,
    refl,
    Runs.runs_command c (executable-IsProgram env program) (flagged-Repeats "--with" s.overlays)
        (variation_flag-Optionally s.variation) (flagged-Repeats "--set" s.set),
  )
  spec_of-Runs none (some text) c t h =
      (shell text, rw t refl, Runs.runs_shell c t (first_of-IsShell env (env.var_os "SHELL") refl))
  spec_of-Runs none none c t h = absurd (ground arith)

  -- A valid script has a specification, and neither of the two `expect` panics. Its process runs the
  -- script's command on the bundle, with `--with` before each overlay, `--variation` before the
  -- variation and `--set` before each setting, as the given program, else that of `APMPR_BIN`, else the
  -- running one, else `apmpr`; or it runs its shell text behind `-c` in the shell of `SHELL`, else in
  -- `/bin/sh`.
  pub from_script-Runs :
      validate s ≡ none
      → (spec : OperationSpec) × (from_script s bundle ≡ built spec)
        × Runs env program s bundle (process_command_with env program spec)
  unfolding from_script validate
  from_script-Runs h =
      let (_, rest) = or_then-none (validate_name s.name) _ h in
      let (kind, _) = or_then-none (kind_error s.command s.shell s) _ rest in
      let (spec, e, runs) = spec_of-Runs s.command s.shell refl refl kind in (spec, rw h e, runs)
