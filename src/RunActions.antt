-- ===== src/RunActions.antt =====
-- Run actions (crates/apmpr-run-actions/src/lib.rs): the scripts, what makes one valid, the errors, and the
-- specification of the process that a script stands for. A `Result<(), String>` is the message, if any.
pub mod Collection
pub mod Store
pub mod Operation
pub mod Examples
use apm_projectrunner.Base.{
  ℕ, String, Bool, true, false, not, ◌&&◌, ◌||◌, List, [], ◌∷◌, Option, none, some, format, codes,
  is_blank, is_whitespace, is_empty, any, split_once, is_some, leb, if◌then◌else◌,
}
use mathlib.Core.List.{reverse}

pub data StructuredCommand : Type 0 where
  up : StructuredCommand
  down : StructuredCommand
  plan : StructuredCommand
  status : StructuredCommand

abbrev pub as_str : StructuredCommand → String
as_str up = "up"
as_str down = "down"
as_str plan = "plan"
as_str status = "status"

-- `StructuredCommand::next`.
unfoldable pub next : StructuredCommand → StructuredCommand
next up = down
next down = plan
next plan = status
next status = up

pub record RunScript : Type 0 where
  pub name : String
  pub description : Option String
  pub command : Option StructuredCommand
  pub overlays : List String
  pub variation : Option String
  pub set : List String
  pub shell : Option String

-- `char::is_control`: the characters of the category Cc.
abbrev is_control : ℕ → Bool
is_control c = leb c 0x1f || (leb 0x7f c && leb c 0x9f)

abbrev trim_start : List ℕ → List ℕ
trim_start [] = []
trim_start (c ∷ cs) = if is_whitespace c then trim_start cs else c ∷ cs

-- `name.trim()`, as code points.
abbrev trim : String → List ℕ
trim s = reverse (trim_start (reverse (trim_start (codes s))))

unfoldable pub validate_name : String → Option String
validate_name name =
    if is_empty (trim name)
    then some "name is required"
    else if any is_control (trim name)
    then some "name may not contain control characters"
    else none

abbrev keyless : Option (String × String) → Bool
keyless none = true
keyless (some (key, value)) = is_blank key

-- The test of an entry of `set` that is not `KEY=VALUE`.
abbrev pub unkeyed : String → Bool
unkeyed entry = keyless (split_once b'=' entry)

unfoldable pub has_options : RunScript → Bool
has_options s = not (is_empty s.overlays) || is_some s.variation || not (is_empty s.set)

-- The `match` on the command and the shell text.
abbrev pub kind_error : Option StructuredCommand → Option String → RunScript → Option String
kind_error (some command) none s = none
kind_error none (some shell) s =
    if is_blank shell
    then some "choose a structured command or enter a shell command"
    else if has_options s
    then some "overlays, variation, and set require a structured command"
    else none
kind_error (some command) (some shell) s = some "choose a structured command or shell, not both"
kind_error none none s = some "choose a structured command or enter a shell command"

-- The operator `?` on a check.
abbrev pub or_then : Option String → Option String → Option String
or_then (some why) rest = some why
or_then none rest = rest

-- `RunScript::validate`.
unfoldable pub validate : RunScript → Option String
validate s = or_then (validate_name s.name) (
    or_then (kind_error s.command s.shell s)
      (if any unkeyed s.set then some "each set entry must be KEY=VALUE" else none))

unfoldable pub is_shell : RunScript → Bool
is_shell s = is_some s.shell

pub data RunActionError : Type 0 where
  io : String → String → RunActionError
  invalid_file : String → String → RunActionError
  invalid_action : String → String → RunActionError
  duplicate_name : String → RunActionError
  not_found : String → RunActionError

-- `RunActionError::code`.
unfoldable pub code : RunActionError → String
code (io path source) = "run_actions_io"
code (invalid_file path message) = "run_actions_invalid"
code (invalid_action name message) = "run_action_invalid"
code (duplicate_name name) = "run_action_exists"
code (not_found name) = "run_action_not_found"

-- The display of an error.
unfoldable pub display : RunActionError → String
display (io path source) = format ("could not access " ∷ path ∷ ": " ∷ source ∷ [])
display (invalid_file path message) = format ("invalid " ∷ path ∷ ": " ∷ message ∷ [])
display (invalid_action name message) =
    format ("invalid run action `" ∷ name ∷ "`: " ∷ message ∷ [])
display (duplicate_name name) = format ("run action name `" ∷ name ∷ "` already exists" ∷ [])
display (not_found name) = format ("run action `" ∷ name ∷ "` was not found" ∷ [])

pub data Acted {ℓ} (A : Type ℓ) : Type ℓ where
  ok : A → Acted A
  err : RunActionError → Acted A
