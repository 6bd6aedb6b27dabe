-- ===== src/RunActions/Collection.antt =====
-- `validate_collection`, and the lists of scripts that it accepts.
use apm_projectrunner.Base.{
  ℕ, ◌+◌, String, Bool, false, ◌||◌, List, [], ◌∷◌, ◌++◌, Option, none, some, format, decimal, any,
  All, ◌≡◌, refl, ◌↔◌, ◌==◌, string_eq, if◌then◌else◌, arith,
}
use apm_projectrunner.RunActions.{RunScript, RunActionError, invalid_file, validate}

-- `script.name == name`.
abbrev pub named : String → RunScript → Bool
named name s = s.name == name

-- One round of the loop, with the scripts before this one and their number.
abbrev checked :
    String
    → ℕ
    → List RunScript
    → RunScript
    → Option String
    → Option RunActionError
    → Option RunActionError
checked path index earlier s (some message) rest =
    some
      (invalid_file path (format ("invalid script " ∷ decimal (index + 1) ∷ ": " ∷ message ∷ [])))
checked path index earlier s none rest =
    if any (named s.name) earlier
    then some (invalid_file path (format ("duplicate script name `" ∷ s.name ∷ "`" ∷ [])))
    else rest

validate_each : String → ℕ → List RunScript → List RunScript → Option RunActionError
validate_each path index earlier [] = none
validate_each path index earlier (s ∷ rest) =
    checked path index earlier s (validate s)
      (validate_each path (index + 1) (earlier ++ s ∷ []) rest)

unfoldable pub validate_collection : List RunScript → String → Option RunActionError
unfolding validate_each
validate_collection scripts path = validate_each path 0 [] scripts

-- No two scripts have one name.
abbrev pub Distinct : List RunScript → Type 0
Distinct [] = Unit
Distinct (s ∷ rest) = (any (named s.name) rest ≡ false) × Distinct rest

pub record IsSound (scripts : List RunScript) : Type 0 where
  pub valid : All (λ s. validate s ≡ none) scripts
  pub distinct : Distinct scripts

-- The names of the second list are not those of the first.
abbrev Apart : List RunScript → List RunScript → Type 0
Apart earlier rest = All (λ s. any (named s.name) earlier ≡ false) rest

-- Having one name is symmetric.
named_comm : (s t : RunScript) → named s.name t ≡ named t.name s
named_comm s t =
    ground (arith, string_eq.beq_correct s.name t.name, string_eq.beq_correct t.name s.name)

named_append :
    (name : String) (earlier : List RunScript) (s : RunScript)
    → any (named name) (earlier ++ s ∷ []) ≡ any (named name) earlier || named name s
named_append name [] s = ground arith
named_append name (t ∷ ts) s = ground (arith, named_append name ts s)

-- A script behind one of its name is refused, and only then.
Apart-append :
    (earlier rest : List RunScript) (s : RunScript)
    → Apart (earlier ++ s ∷ []) rest ↔ (Apart earlier rest × (any (named s.name) rest ≡ false))
Apart-append earlier [] s = ground arith
Apart-append earlier (t ∷ rest) s =
    let (to, from) = Apart-append earlier rest s in
    (
      λ (h, hs).
          let (a, b) = to hs in ground (arith, named_append t.name earlier s, named_comm s t),
      λ ((a, more), b). (
        ground (arith, named_append t.name earlier s, named_comm s t),
        from (more, ground arith),
      ),
    )

checked-none :
    (path : String) (index : ℕ) (earlier : List RunScript) (s : RunScript) (found : Option String)
    (rest : Option RunActionError)
    → (checked path index earlier s found rest ≡ none)
      ↔ ((found ≡ none) × (any (named s.name) earlier ≡ false) × (rest ≡ none))
checked-none path index earlier s (some message) rest = ground arith
checked-none path index earlier s none rest = ground arith

Apart-nil : (rest : List RunScript) → Apart [] rest
Apart-nil [] = tt
Apart-nil (s ∷ rest) = (refl, Apart-nil rest)

validate_each-none :
    (path : String) (index : ℕ) (earlier rest : List RunScript)
    → (validate_each path index earlier rest ≡ none)
      ↔ (All (λ s. validate s ≡ none) rest × Apart earlier rest × Distinct rest)
unfolding validate_each
validate_each-none path index earlier [] = ground arith
validate_each-none path index earlier (s ∷ rest) =
    let (to, from) = validate_each-none path (index + 1) (earlier ++ s ∷ []) rest in
    let (split, join) = Apart-append earlier rest s in
    let (first, pass) =
      checked-none path index earlier s (validate s)
        (validate_each path (index + 1) (earlier ++ s ∷ []) rest) in
    (
      λ e.
          let (v, a, more) = first e in
          let (vs, both, ds) = to more in let (ap, d) = split both in ((v, vs), (a, ap), (d, ds)),
      λ ((v, vs), (a, ap), (d, ds)). pass (v, a, from (vs, join (ap, d), ds)),
    )

-- A list of scripts is accepted exactly when each is valid and no two have one name.
pub validate_collection-IsSound :
    (scripts : List RunScript) (path : String)
    → (validate_collection scripts path ≡ none) ↔ IsSound scripts
unfolding validate_collection
validate_collection-IsSound scripts path =
    let (to, from) = validate_each-none path 0 [] scripts in
    (
      λ e. let (vs, ap, ds) = to e in record { valid = vs; distinct = ds },
      λ h. from (h.valid, Apart-nil scripts, h.distinct),
    )
