-- ===== src/RunActions/Examples.antt =====
-- Scripts, a file system that keeps one file, and runs on them.
use apm_projectrunner.Base.{
  String, Bool, true, false, List, [], ◌∷◌, Option, none, some, ◌≡◌, refl, ap, is_blank, split_once,
  inl, if◌then◌else◌, arith, Bool-cases, inr,
}
use apm_projectrunner.RunActions.{
  RunScript, StructuredCommand, up, down, status, ok, err, validate, validate_name, has_options,
  invalid_file, duplicate_name, not_found, next,
}
use apm_projectrunner.RunActions.Collection.{validate_collection}
use apm_projectrunner.RunActions.Operation.{
  Environment, OperationSpec, Runs, from_script-Runs, from_script, built, structured, arguments,
  process_command_with,
}
use apm_projectrunner.RunActions.Store
use apm_projectrunner.RunActions.Store.{Disk, Place, Contents, Parsed, IsLawful}
use apm_projectrunner.RunActions.Store.View.{adding, changing, dropping, Leaves}
use apm_projectrunner.RunActions.Store.Kept.{perform, perform-Leaves}
use apm_projectrunner.RunActions.Store.Answers.{Works, Answers, perform-Answers}

abbrev plain : String → RunScript
plain name = record {
  name = name;
  description = none;
  command = some up;
  overlays = [];
  variation = none;
  set = [];
  shell = none;
}

abbrev shelled : String → String → RunScript
shelled name text = record (plain name) { command = none; shell = some text }

abbrev place : Place
place = record { path = "p/.apmpr/run-scripts.yaml"; parent = "p/.apmpr" }

two_sound : validate_collection (plain "a" ∷ shelled "b" "ls" ∷ []) "f" ≡ none
unfolding validate_collection validate validate_name is_blank has_options
two_sound = refl

twice_refused :
    validate_collection (plain "a" ∷ plain "a" ∷ []) "f"
    ≡ some (invalid_file "f" "duplicate script name `a`")
unfolding validate_collection validate validate_name
twice_refused = refl

-- A line break at the end of a name is accepted, one inside is not.
line_break_end : validate_name "a\n" ≡ none
unfolding validate_name
line_break_end = refl

line_break_inside : validate_name "a\nb" ≡ some "name may not contain control characters"
unfolding validate_name
line_break_inside = refl

unkeyed_set :
    validate (record (plain "a") { set = "=x" ∷ [] }) ≡ some "each set entry must be KEY=VALUE"
unfolding validate validate_name split_once is_blank
unkeyed_set = refl

-- The world is the text of the file. The text of one plain script is its name, and no other list has one.
abbrev plain_fields :
    Option String
    → Option StructuredCommand
    → List String
    → Option String
    → List String
    → Option String
    → Bool
plain_fields none (some up) [] none [] none = true
plain_fields _ _ _ _ _ _ = false

abbrev is_plain : RunScript → Bool
is_plain s = plain_fields s.description s.command s.overlays s.variation s.set s.shell

abbrev text_of : List RunScript → Parsed String
text_of [] = Parsed.malformed "empty"
text_of (s ∷ []) = if is_plain s then Parsed.parsed s.name else Parsed.malformed "long"
text_of (s ∷ t ∷ rest) = Parsed.malformed "long"

abbrev kept : Option String → Contents
kept none = Contents.missing
kept (some text) = Contents.contents text

abbrev one_file : Disk (Option String)
one_file = record {
  read_to_string = λ path w. kept w;
  create_dir_all = λ path w. (w, none);
  write = λ path text w. (some text, none);
  from_str = λ text. Parsed.parsed (plain text ∷ []);
  to_string = text_of;
}

plain_lem :
    (name : String) (d : Option String) (c : Option StructuredCommand) (o : List String)
    (v : Option String) (st : List String) (sh : Option String)
    → plain_fields d c o v st sh ≡ true
    → plain name ≡ record {
      name = name;
      description = d;
      command = c;
      overlays = o;
      variation = v;
      set = st;
      shell = sh;
    }
plain_lem name none (some up) [] none [] none h = refl
plain_lem name (some d) c o v st sh h = absurd (ground arith)
plain_lem name none none o v st sh h = absurd (ground arith)
plain_lem name none (some down) o v st sh h = absurd (ground arith)
plain_lem name none (some StructuredCommand.plan) o v st sh h = absurd (ground arith)
plain_lem name none (some status) o v st sh h = absurd (ground arith)
plain_lem name none (some up) (o ∷ os) v st sh h = absurd (ground arith)
plain_lem name none (some up) [] (some v) st sh h = absurd (ground arith)
plain_lem name none (some up) [] none (s ∷ st) sh h = absurd (ground arith)
plain_lem name none (some up) [] none [] (some sh) h = absurd (ground arith)

text_of-parsed :
    (scripts : List RunScript) (text : String)
    → text_of scripts ≡ Parsed.parsed text
    → plain text ∷ [] ≡ scripts
text_of-parsed [] text h = absurd (ground arith)
text_of-parsed (s ∷ t ∷ rest) text h = absurd (ground arith)
text_of-parsed (s ∷ []) text h = elim (Bool-cases (is_plain s)) [
  | inl e ↦
      let same : s.name ≡ text = ground arith in
      let whole = plain_lem s.name s.description s.command s.overlays s.variation s.set s.shell e in
      rw (← same) (ap (λ x. x ∷ []) whole)
  | inr e ↦ absurd (ground arith)
]

one_file-IsLawful : IsLawful one_file
one_file-IsLawful = record {
  read-write = λ path text w w' h. ground arith;
  from_str-to_string = λ scripts text h. ap Parsed.parsed (text_of-parsed scripts text h);
}

created : perform one_file place (adding (plain "a")) none ≡ (some "a", ok (plain "a" ∷ []))
unfolding perform Store.create Store.added Store.saved Store.save_result Store.load_result
    validate_collection validate validate_name
created = refl

perform-Leaves_example :
    (before : List RunScript) × (Store.load_result one_file place none ≡ ok before)
    × (Store.load_result one_file place (some "a") ≡ ok (plain "a" ∷ []))
    × Leaves (adding (plain "a")) before (plain "a" ∷ [])
perform-Leaves_example =
    perform-Leaves one_file place one_file-IsLawful (adding (plain "a")) none (some "a")
      (plain "a" ∷ []) created

-- A file system that takes every text, whatever the scripts.
abbrev careless : Disk (Option String)
careless = record {
  read_to_string = λ path w. kept w;
  create_dir_all = λ path w. (w, none);
  write = λ path text w. (some text, none);
  from_str = λ text. Parsed.parsed (plain text ∷ []);
  to_string = λ scripts. Parsed.parsed "a";
}

careless-Works : Works careless
careless-Works = record {
  to_string-parsed = λ scripts. ("a", refl);
  create_dir_all-none = λ path w. (w, refl);
  write-none = λ path text w. (some text, refl);
}

loaded : Store.load_result careless place (some "a") ≡ ok (plain "a" ∷ [])
unfolding Store.load_result validate_collection validate validate_name
loaded = refl

perform-Answers_example :
    Answers
      (changing "a" (shelled "b" "ls"))
      (plain "a" ∷ [])
      (some "a")
      (perform careless place (changing "a" (shelled "b" "ls")) (some "a"))
perform-Answers_example =
    perform-Answers careless place careless-Works (changing "a" (shelled "b" "ls")) (plain "a" ∷ [])
      (some "a") loaded

twice_added :
    perform careless place (adding (plain "a")) (some "a") ≡ (some "a", err (duplicate_name "a"))
unfolding perform Store.create Store.added Store.load_result validate_collection validate
    validate_name
twice_added = refl

unknown_dropped : perform careless place (dropping "b") (some "a") ≡ (some "a", err (not_found "b"))
unfolding perform Store.delete Store.removed Store.position Store.load_result validate_collection
    validate validate_name
unknown_dropped = refl

abbrev empty_environment : Environment
empty_environment = record { var_os = λ name. none; current_exe = none }

b_valid : validate (shelled "b" "ls") ≡ none
unfolding validate validate_name is_blank has_options
b_valid = refl

from_script-Runs_example :
    (spec : OperationSpec) × (from_script (shelled "b" "ls") "p" ≡ built spec)
    × Runs empty_environment none
        (shelled "b" "ls")
        "p"
        (process_command_with empty_environment none spec)
from_script-Runs_example = from_script-Runs empty_environment none (shelled "b" "ls") "p" b_valid

all_options :
    arguments (structured up "p" ("o" ∷ []) (some "v") ("K=1" ∷ []))
    ≡ some ("up" ∷ "p" ∷ "--with" ∷ "o" ∷ "--variation" ∷ "v" ∷ "--set" ∷ "K=1" ∷ [])
unfolding arguments
all_options = refl

in_turn : next (next (next (next down))) ≡ down
unfolding next
in_turn = refl
