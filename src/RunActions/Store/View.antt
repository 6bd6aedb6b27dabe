-- ===== src/RunActions/Store/View.antt =====
-- The view of a list of scripts as a finite map, and what the edits by place do to it.
use apm_projectrunner.Base.{
  ℕ, zero, suc, String, false, List, [], ◌∷◌, ◌++◌, Option, none, some, Option-cases, Bool-cases,
  inl, inr, ◌≡◌, refl, subst, any, ◌==◌, string_eq, if◌then◌else◌, arith,
}
use apm_projectrunner.RunActions.{RunScript}
use apm_projectrunner.RunActions.Collection.{named, Distinct, IsSound}
use apm_projectrunner.RunActions.Store
use apm_projectrunner.RunActions.Store.{Disk, Place, Contents, Parsed, IsLawful}

-- The script with a name.
unfoldable pub find : String → List RunScript → Option RunScript
find name [] = none
find name (s ∷ rest) = if named name s then some s else find name rest

-- The requests of a client.
pub data Request : Type 0 where
  adding : RunScript → Request
  changing : String → RunScript → Request
  dropping : String → Request

-- The script that has a name afterwards: the view of the file that forgets the places.
unfoldable pub view : Request → List RunScript → String → Option RunScript
view (adding s) before name = if s.name == name then some s else find name before
view (changing old s) before name =
    if s.name == name then some s else if old == name then none else find name before
view (dropping old) before name = if old == name then none else find name before

pub find-any :
    (name : String) (scripts : List RunScript)
    → any (named name) scripts ≡ false
    → find name scripts ≡ none
unfolding find
find-any name [] h = refl
find-any name (s ∷ rest) h = ground (arith, find-any name rest)

pub find-append :
    (before : List RunScript) (s : RunScript) (name : String)
    → any (named s.name) before ≡ false
    → find name (before ++ s ∷ []) ≡ (if s.name == name then some s else find name before)
unfolding find
find-append [] s name h = refl
find-append (t ∷ rest) s name h = ground (
  arith,
  find-append rest s name,
  string_eq.beq_correct s.name name,
  string_eq.beq_correct t.name name,
  string_eq.beq_correct t.name s.name,
)

-- A place is that of the first script with the name.
pub data At (old : String) : List RunScript → ℕ → Type 0 where
  first : {s : RunScript} {rest : List RunScript} → s.name ≡ old → At old (s ∷ rest) zero
  later :
      {s : RunScript} {rest : List RunScript} {index : ℕ}
      → (s.name == old) ≡ false
      → At old rest index
      → At old (s ∷ rest) (suc index)

pub position-At :
    (old : String) (scripts : List RunScript) (index : ℕ)
    → Store.position old scripts ≡ some index
    → At old scripts index
unfolding Store.position
position-At old [] index h = absurd (ground arith)
position-At old (s ∷ rest) index h = elim (Bool-cases (named old s)) [
  | inl e ↦
      subst (λ i. At old (s ∷ rest) i) (ground arith)
        (At.first ((string_eq.beq_correct s.name old).0 e))
  | inr e ↦ elim (Option-cases (Store.position old rest)) [
    | inl o ↦ absurd (ground arith)
    | inr (j, o) ↦
        subst (λ i. At old (s ∷ rest) i) (ground arith) (At.later e (position-At old rest j o))
  ]
]

pub find-set_at :
    (old : String) (s : RunScript) (name : String) {before : List RunScript} {index : ℕ}
    → At old before index
    → Distinct before
    → Store.taken index s.name before ≡ false
    → find name (Store.set_at index s before) ≡ view (changing old s) before name
unfolding find Store.taken Store.set_at view
find-set_at old s name (first {s = t} {rest} e) (d, ds) free =
    ground
      (arith, string_eq.beq_correct old name, string_eq.beq_correct t.name name, find-any name rest)
find-set_at old s name (later {s = t} {rest} {index} e at) (d, ds) free = ground (
  arith,
  string_eq.beq_correct s.name name,
  string_eq.beq_correct t.name name,
  string_eq.beq_correct old name,
  string_eq.beq_correct t.name s.name,
  string_eq.beq_correct t.name old,
  find-set_at old s name at ds,
)

pub find-remove_at :
    (old name : String) {before : List RunScript} {index : ℕ}
    → At old before index
    → Distinct before
    → find name (Store.remove_at index before) ≡ view (dropping old) before name
unfolding find Store.remove_at view
find-remove_at old name (first {s = t} {rest} e) (d, ds) =
    ground
      (arith, string_eq.beq_correct old name, string_eq.beq_correct t.name name, find-any name rest)
find-remove_at old name (later {s = t} {rest} {index} e at) (d, ds) = ground (
  arith,
  string_eq.beq_correct t.name name,
  string_eq.beq_correct old name,
  string_eq.beq_correct t.name old,
  find-remove_at old name at ds,
)

-- What a request leaves: a sound list in which every name has the script that the request gives it.
pub record Leaves (request : Request) (before after : List RunScript) : Type 0 where
  pub sound : IsSound after
  pub found : (name : String) → find name after ≡ view request before name
