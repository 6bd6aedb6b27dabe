-- ===== src/State/Error.antt =====
-- `StateError`, with the errors of other libraries as texts, results, and the identifier test. SQLite is
-- not of this repository: what it reports when a statement fails is an argument of each operation.
use native.Mathlib.Omega.{arith}
use mathlib.Core.Path.{◌≡◌, refl}
use mathlib.Core.Logic.{◌⊎◌, inl, inr}
use apm_projectrunner.Base.{
  String, suc, decimal, pos, negsuc, Bool, true, false, [], ◌∷◌, Option, none, some, format,
  is_blank, ℤ, if◌then◌else◌,
}

pub data StateError : Type 0 where
  io : String → StateError
  sqlite : String → StateError
  json : String → StateError
  newer_schema : ℤ → ℤ → StateError
  invalid_input : String → String → StateError
  lock_contended : String → String → ℤ → StateError
  lock_lost : String → StateError

pub data Result {ℓ} (A : Type ℓ) : Type ℓ where
  ok : A → Result A
  err : StateError → Result A

module _ {ℓ κ} {Got : Type ℓ} {Want : Type κ} where
  infixl 5 ◌>>=◌
  -- The operator `?`: an error ends the function.
  abbrev pub ◌>>=◌ : Result Got → (Got → Result Want) → Result Want
  ok got >>= continue = continue got
  err reason >>= continue = err reason

  -- The parts of a chain that succeeds.
  pub bind-eq-ok :
      (first : Result Got) (continue : Got → Result Want) {want : Want}
      → (first >>= continue) ≡ ok want
      → (got : Got) × (first ≡ ok got) × (continue got ≡ ok want)
  bind-eq-ok (ok got) continue e = (got, refl, e)
  bind-eq-ok (err reason) continue e = absurd (ground arith)

infixl 5 ◌>>◌
abbrev pub ◌>>◌ {κ} : {Want : Type κ} → Result (Unit {0}) → Result Want → Result Want
check >> rest = ◌>>=◌ check (λ _. rest)

abbrev pub ensure : Bool → StateError → Result (Unit {0})
ensure false why = err why
ensure true why = ok tt

-- `StateError::code`.
unfoldable pub code : StateError → String
code (io why) = "state_io"
code (sqlite why) = "state_sqlite"
code (json why) = "invalid_json"
code (newer_schema found supported) = "newer_schema"
code (invalid_input name context) = name
code (lock_contended deployment owner expires_at) = "operation_lock_contended"
code (lock_lost deployment) = "operation_lock_lost"

-- The decimal text of an `i64`.
abbrev signed : ℤ → String
signed (pos n) = decimal n
signed (negsuc n) = format ("-" ∷ decimal (suc n) ∷ [])

-- The display of an error.
abbrev pub display_state : StateError → String
display_state (io why) = format ("state filesystem error: " ∷ why ∷ [])
display_state (sqlite why) = format ("SQLite state error: " ∷ why ∷ [])
display_state (json why) = format ("invalid state JSON: " ∷ why ∷ [])
display_state (newer_schema found supported) =
    format (
      "database schema "
      ∷ signed found
      ∷ " is newer than supported schema "
      ∷ signed supported
      ∷ [])
display_state (invalid_input name context) = format (name ∷ ": " ∷ context ∷ [])
display_state (lock_contended deployment owner expires_at) =
    format (
      "deployment `"
      ∷ deployment
      ∷ "` is locked by `"
      ∷ owner
      ∷ "` until "
      ∷ signed expires_at
      ∷ [])
display_state (lock_lost deployment) =
    format ("operation lock for `" ∷ deployment ∷ "` is no longer owned" ∷ [])

-- `validate_id`.
unfoldable pub validate_id : String → String → Result (Unit {0})
validate_id name value =
    if is_blank value
    then err (invalid_input "invalid_identifier" (format (name ∷ " cannot be empty" ∷ [])))
    else ok tt

-- The failure of the database in one call, if any: when it reads, and when it writes or commits.
pub record Faults : Type 0 where
  pub reading : Option String
  pub writing : Option String

abbrev pub no_faults : Faults
no_faults = record { reading = none; writing = none }

abbrev pub pass : Option String → Result (Unit {0})
pass none = ok tt
pass (some why) = err (sqlite why)

pub Result-cases {ℓ} :
    {A : Type ℓ} (m : Result A) → ((a : A) × (m ≡ ok a)) ⊎ ((why : _) × (m ≡ err why))
Result-cases (ok a) = inl (a, refl)
Result-cases (err why) = inr (why, refl)
