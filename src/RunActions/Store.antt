-- ===== src/RunActions/Store.antt =====
-- The file of run actions: `load_result`, `save_result`, `create`, `update` and `delete`. The file system
-- and the YAML library are not of this repository.
pub mod View
pub mod Kept
pub mod Sound
pub mod Answers
use apm_projectrunner.Base.{
  ℕ, zero, suc, String, Bool, true, false, ◌||◌, List, [], ◌∷◌, ◌++◌, Option, none, some, ◌≡◌, any,
  if◌then◌else◌,
}
use mathlib.Core.Option.{map as option_map}
use apm_projectrunner.RunActions.{
  RunScript, RunActionError, io, invalid_file, invalid_action, duplicate_name, not_found, Acted, ok,
  err, validate, display,
}
use apm_projectrunner.RunActions.Collection.{named, validate_collection}

-- What `fs::read_to_string` answers.
pub data Contents : Type 0 where
  contents : String → Contents
  missing : Contents
  unreadable : String → Contents

-- What `serde_yaml` answers.
pub data Parsed {ℓ} (A : Type ℓ) : Type ℓ where
  parsed : A → Parsed A
  malformed : String → Parsed A

-- `std::fs` and `serde_yaml`: an error of a change of the file system is its message.
pub record Disk (World : Type 0) : Type 0 where
  pub read_to_string : String → World → Contents
  pub create_dir_all : String → World → World × Option String
  pub write : String → String → World → World × Option String
  pub from_str : String → Parsed (List RunScript)
  pub to_string : List RunScript → Parsed String

-- What the standard library and the YAML library document.
pub record IsLawful {World : Type 0} (disk : Disk World) : Type 0 where
  pub read-write :
      (path text : String) (w w' : World)
      → disk.write path text w ≡ (w', none)
      → disk.read_to_string path w' ≡ contents text
  pub from_str-to_string :
      (scripts : List RunScript) (text : String)
      → disk.to_string scripts ≡ parsed text
      → disk.from_str text ≡ parsed scripts

-- `scripts.iter().position(..)` for the first script with the name.
unfoldable pub position : String → List RunScript → Option ℕ
position name [] = none
position name (s ∷ rest) = if named name s then some 0 else option_map suc (position name rest)

-- A script at another place has the name.
unfoldable pub taken : ℕ → String → List RunScript → Bool
taken index name [] = false
taken zero name (s ∷ rest) = any (named name) rest
taken (suc index) name (s ∷ rest) = named name s || taken index name rest

-- `scripts[index] = script`.
unfoldable pub set_at : ℕ → RunScript → List RunScript → List RunScript
set_at index script [] = []
set_at zero script (s ∷ rest) = script ∷ rest
set_at (suc index) script (s ∷ rest) = s ∷ set_at index script rest

-- `scripts.remove(index)`.
unfoldable pub remove_at : ℕ → List RunScript → List RunScript
remove_at index [] = []
remove_at zero (s ∷ rest) = rest
remove_at (suc index) (s ∷ rest) = s ∷ remove_at index rest

-- The path of the file and its parent.
pub record Place : Type 0 where
  pub path : String
  pub parent : String

module _ {World : Type 0} (disk : Disk World) (place : Place) where
  -- `validate_collection(..)?; Ok(scripts)`.
  abbrev pub vetted : List RunScript → Option RunActionError → Acted (List RunScript)
  vetted scripts none = ok scripts
  vetted scripts (some why) = err why

  abbrev pub collected : Parsed (List RunScript) → Acted (List RunScript)
  collected (malformed why) = err (invalid_file place.path why)
  collected (parsed scripts) = vetted scripts (validate_collection scripts place.path)

  abbrev pub read : Contents → Acted (List RunScript)
  read missing = ok []
  read (unreadable why) = err (io place.path why)
  read (contents text) = collected (disk.from_str text)

  unfoldable pub load_result : World → Acted (List RunScript)
  load_result w = read (disk.read_to_string place.path w)

  abbrev shown : Acted (List RunScript) → List RunScript × Option String
  shown (ok scripts) = (scripts, none)
  shown (err why) = ([], some (display why))

  -- `load`.
  unfoldable pub load : World → List RunScript × Option String
  load w = shown (load_result w)

  abbrev pub written : World × Option String → World × Option RunActionError
  written (w, none) = (w, none)
  written (w, some why) = (w, some (io place.path why))

  abbrev pub serialized : Parsed String → World → World × Option RunActionError
  serialized (malformed why) w = (w, some (invalid_file place.path why))
  serialized (parsed text) w = written (disk.write place.path text w)

  abbrev pub prepared : List RunScript → World × Option String → World × Option RunActionError
  prepared scripts (w, some why) = (w, some (io place.parent why))
  prepared scripts (w, none) = serialized (disk.to_string scripts) w

  abbrev pub accepted :
      List RunScript → Option RunActionError → World → World × Option RunActionError
  accepted scripts (some why) w = (w, some why)
  accepted scripts none w = prepared scripts (disk.create_dir_all place.parent w)

  unfoldable pub save_result : List RunScript → World → World × Option RunActionError
  save_result scripts w = accepted scripts (validate_collection scripts place.path) w

  abbrev told : World × Option RunActionError → World × Option String
  told (w, none) = (w, none)
  told (w, some why) = (w, some (display why))

  -- `save`.
  unfoldable pub save : List RunScript → World → World × Option String
  save scripts w = told (save_result scripts w)

  -- `save_result(..)?; Ok(scripts)`.
  abbrev pub answered :
      List RunScript → World × Option RunActionError → World × Acted (List RunScript)
  answered scripts (w, none) = (w, ok scripts)
  answered scripts (w, some why) = (w, err why)

  unfoldable pub saved : List RunScript → World → World × Acted (List RunScript)
  saved scripts w = answered scripts (save_result scripts w)

  unfoldable pub added : RunScript → Acted (List RunScript) → World → World × Acted (List RunScript)
  added s (err why) w = (w, err why)
  added s (ok scripts) w =
      if any (named s.name) scripts
      then (w, err (duplicate_name s.name))
      else saved (scripts ++ s ∷ []) w

  -- `script.validate()` in `create` and `update`.
  abbrev pub checked :
      RunScript
      → Option String
      → World
      → World × Acted (List RunScript)
      → World × Acted (List RunScript)
  checked s (some message) w rest = (w, err (invalid_action s.name message))
  checked s none w rest = rest

  unfoldable pub create : RunScript → World → World × Acted (List RunScript)
  create s w = checked s (validate s) w (added s (load_result w) w)

  abbrev pub replaced_at :
      String → RunScript → List RunScript → World → Option ℕ → World × Acted (List RunScript)
  replaced_at old s scripts w none = (w, err (not_found old))
  replaced_at old s scripts w (some index) =
      if taken index s.name scripts
      then (w, err (duplicate_name s.name))
      else saved (set_at index s scripts) w

  unfoldable pub replaced :
      String → RunScript → Acted (List RunScript) → World → World × Acted (List RunScript)
  replaced old s (err why) w = (w, err why)
  replaced old s (ok scripts) w = replaced_at old s scripts w (position old scripts)

  unfoldable pub update : String → RunScript → World → World × Acted (List RunScript)
  update old s w = checked s (validate s) w (replaced old s (load_result w) w)

  abbrev pub removed_at :
      String → List RunScript → World → Option ℕ → World × Acted (List RunScript)
  removed_at name scripts w none = (w, err (not_found name))
  removed_at name scripts w (some index) = saved (remove_at index scripts) w

  unfoldable pub removed : String → Acted (List RunScript) → World → World × Acted (List RunScript)
  removed name (err why) w = (w, err why)
  removed name (ok scripts) w = removed_at name scripts w (position name scripts)

  unfoldable pub delete : String → World → World × Acted (List RunScript)
  delete name w = removed name (load_result w) w
