-- ===== src/RunActions/Store/Sound.antt =====
-- The edits by place keep a list of scripts sound, and the places where a name is taken.
use apm_projectrunner.Base.{
  ℕ, zero, suc, String, true, false, List, [], ◌∷◌, ◌++◌, none, Option-cases, ◌⊎◌, inl, inr, ◌≡◌,
  refl, subst, any, All, ◌==◌, string_eq, arith,
}
use apm_projectrunner.RunActions.{RunScript, validate}
use apm_projectrunner.RunActions.Collection.{named, Distinct, IsSound}
use apm_projectrunner.RunActions.Store
use apm_projectrunner.RunActions.Store.View.{At}

any-append :
    (name : String) (before : List RunScript) (s : RunScript)
    → any (named name) before ≡ false
    → (s.name == name) ≡ false
    → any (named name) (before ++ s ∷ []) ≡ false
any-append name [] s h e = ground arith
any-append name (t ∷ rest) s h e = ground (arith, any-append name rest s)

any-set_at :
    (name : String) (index : ℕ) (s : RunScript) (before : List RunScript)
    → any (named name) before ≡ false
    → (s.name == name) ≡ false
    → any (named name) (Store.set_at index s before) ≡ false
unfolding Store.set_at
any-set_at name index s [] h e = refl
any-set_at name zero s (t ∷ rest) h e = ground arith
any-set_at name (suc index) s (t ∷ rest) h e = ground (arith, any-set_at name index s rest)

any-remove_at :
    (name : String) (index : ℕ) (before : List RunScript)
    → any (named name) before ≡ false
    → any (named name) (Store.remove_at index before) ≡ false
unfolding Store.remove_at
any-remove_at name index [] h = refl
any-remove_at name zero (t ∷ rest) h = ground arith
any-remove_at name (suc index) (t ∷ rest) h = ground (arith, any-remove_at name index rest)

pub append-IsSound :
    (before : List RunScript) (s : RunScript)
    → IsSound before
    → validate s ≡ none
    → any (named s.name) before ≡ false
    → IsSound (before ++ s ∷ [])
append-IsSound before s sound v free = record {
  valid = valid_append before sound.valid;
  distinct = distinct_append before sound.distinct free;
}
  where
    valid_append :
        (xs : List RunScript)
        → All (λ x. validate x ≡ none) xs
        → All (λ x. validate x ≡ none) (xs ++ s ∷ [])
    valid_append [] h = (v, tt)
    valid_append (x ∷ xs) (h, hs) = (h, valid_append xs hs)

    distinct_append :
        (xs : List RunScript)
        → Distinct xs
        → any (named s.name) xs ≡ false
        → Distinct (xs ++ s ∷ [])
    distinct_append [] d f = (refl, tt)
    distinct_append (x ∷ xs) (d, ds) f = (
      any-append x.name xs s d (
          ground (arith, string_eq.beq_correct s.name x.name, string_eq.beq_correct x.name s.name)),
      distinct_append xs ds (ground arith),
    )

pub set_at-IsSound :
    (index : ℕ) (s : RunScript) (before : List RunScript)
    → IsSound before
    → validate s ≡ none
    → Store.taken index s.name before ≡ false
    → IsSound (Store.set_at index s before)
unfolding Store.set_at Store.taken
set_at-IsSound index s [] sound v free = sound
set_at-IsSound zero s (t ∷ rest) sound v free =
    let (h, hs) = sound.valid in
    let (d, ds) = sound.distinct in record { valid = (v, hs); distinct = (free, ds) }
set_at-IsSound (suc index) s (t ∷ rest) sound v free =
    let (h, hs) = sound.valid in
    let (d, ds) = sound.distinct in
    let more =
      set_at-IsSound index s rest (record { valid = hs; distinct = ds }) v (ground arith) in
    record {
      valid = (h, more.valid);
      distinct = (
        any-set_at t.name index s rest d (
            ground
              (arith, string_eq.beq_correct s.name t.name, string_eq.beq_correct t.name s.name)),
        more.distinct,
      );
    }

pub remove_at-IsSound :
    (index : ℕ) (before : List RunScript) → IsSound before → IsSound (Store.remove_at index before)
unfolding Store.remove_at
remove_at-IsSound index [] sound = sound
remove_at-IsSound zero (t ∷ rest) sound = record {
  valid = sound.valid.1;
  distinct = sound.distinct.1;
}
remove_at-IsSound (suc index) (t ∷ rest) sound =
    let (h, hs) = sound.valid in
    let (d, ds) = sound.distinct in
    let more = remove_at-IsSound index rest (record { valid = hs; distinct = ds }) in
    record {
      valid = (h, more.valid);
      distinct = (any-remove_at t.name index rest d, more.distinct);
    }

pub position-none :
    (old : String) (before : List RunScript)
    → Store.position old before ≡ none
    → any (named old) before ≡ false
unfolding Store.position
position-none old [] h = refl
position-none old (s ∷ rest) h = elim (Option-cases (Store.position old rest)) [
  | inl e ↦ ground (arith, position-none old rest)
  | inr (index, e) ↦ absurd (ground arith)
]

pub At-any :
    (old : String) {before : List RunScript} {index : ℕ}
    → At old before index
    → any (named old) before ≡ true
At-any old (At.first {s} e) = ground (arith, string_eq.beq_correct s.name old)
At-any old (At.later e at) = ground (arith, At-any old at)

pub any-taken :
    (name : String) (index : ℕ) (before : List RunScript)
    → any (named name) before ≡ false
    → Store.taken index name before ≡ false
unfolding Store.taken
any-taken name index [] h = refl
any-taken name zero (s ∷ rest) h = ground arith
any-taken name (suc index) (s ∷ rest) h = ground (arith, any-taken name index rest)

pub At-taken :
    (old : String) {before : List RunScript} {index : ℕ}
    → At old before index
    → Distinct before
    → Store.taken index old before ≡ false
unfolding Store.taken
At-taken old (At.first {s} {rest} e) (d, ds) = subst (λ n. any (named n) rest ≡ false) e d
At-taken old (At.later e at) (d, ds) = ground (arith, At-taken old at ds)

pub taken-any :
    (old name : String) {before : List RunScript} {index : ℕ}
    → At old before index
    → Store.taken index name before ≡ false
    → (name ≡ old) ⊎ (any (named name) before ≡ false)
unfolding Store.taken
taken-any old name (At.first {s} {rest} e) h = ground (arith, string_eq.beq_correct s.name name)
taken-any old name (At.later {s} {rest} {index} e at) h =
    elim (taken-any old name at (ground arith)) [
      | inl same ↦ inl same
      | inr free ↦ inr (ground arith)
    ]

pub taken-true :
    (old name : String) {before : List RunScript} {index : ℕ}
    → At old before index
    → Distinct before
    → Store.taken index name before ≡ true
    → (name ≡ old) ⊎ (any (named name) before ≡ false)
    → ⊥
taken-true old name {before} {index} at ds t (inl same) =
    let free = At-taken old at ds in
    let t' = subst (λ n. Store.taken index n before ≡ true) same t in ground arith
taken-true old name {before} {index} at ds t (inr free) =
    let t' = any-taken name index before free in ground arith
