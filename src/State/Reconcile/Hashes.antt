-- ===== src/State/Reconcile/Hashes.antt =====
-- The sets of hashes: when the resources that count carry one hash.
use apm_projectrunner.Base.{
  ◌≡◌, ◌≢◌, ◌⊎◌, ◌↔◌, inl, inr, refl, String, Bool, true, false, List, [], ◌∷◌, some, All, arith,
  filter, length, is_empty, leb, string_eq, option_eq, Option-cases,
}
use apm_projectrunner.State.Reconcile.{
  OwnedResourceObservation, hash_sources, hashes_of, set_insert, collect_set, resource_hash,
  lacks_hash, missing_diagnostics, several_diagnostics,
}

set_insert-nonempty : (x : String) (s : List String) → is_empty (set_insert x s) ≡ false
unfolding set_insert
set_insert-nonempty x [] = refl
set_insert-nonempty x (y ∷ ys) = ground arith

set_insert-single :
    (x h : String) (s : List String)
    → (set_insert x s ≡ h ∷ []) ↔ ((x ≡ h) × ((s ≡ []) ⊎ (s ≡ h ∷ [])))
unfolding set_insert
set_insert-single x h [] = ground arith
set_insert-single x h (y ∷ ys) = ground (arith, string_eq.beq_correct x y, set_insert-nonempty x ys)

collect_set-nil : (xs : List String) → collect_set xs ≡ [] → xs ≡ []
unfolding collect_set
collect_set-nil [] e = refl
collect_set-nil (x ∷ xs) e = ground (arith, set_insert-nonempty x (collect_set xs))

collect_set-single :
    (h : String) (xs : List String) → xs ≢ [] → (collect_set xs ≡ h ∷ []) ↔ All (λ x. x ≡ h) xs
unfolding collect_set set_insert
collect_set-single h [] ne = absurd (ne refl)
collect_set-single h (x ∷ []) ne = ground arith
collect_set-single h (x ∷ y ∷ ys) ne =
    let (to, from) = collect_set-single h (y ∷ ys) (ground arith) in
    let (split, join) = set_insert-single x h (collect_set (y ∷ ys)) in
    (
      λ e. (
        (split e).0,
        elim (split e).1 [
          | inl none_left ↦ absurd (ground (arith, collect_set-nil (y ∷ ys) none_left))
          | inr one ↦ to one
        ],
      ),
      λ all_. join (all_.0, inr (from all_.1)),
    )

pub filter_none {ℓ} :
    {A : Type ℓ} (p : A → Bool) (xs : List A)
    → (is_empty (filter p xs) ≡ true) ↔ All (λ x. p x ≡ false) xs
filter_none p [] = ground arith
filter_none p (x ∷ xs) = ground (arith, filter_none p xs)

pub hash_sources-nonempty :
    (r : OwnedResourceObservation) (rs : List OwnedResourceObservation)
    → is_empty (hash_sources (r ∷ rs)) ≡ false
unfolding hash_sources
hash_sources-nonempty r rs = ground arith

-- The resource carries the hash.
abbrev pub Carries : String → OwnedResourceObservation → Type 0
Carries h r = resource_hash r ≡ some h

carries :
    (h : String) (rs : List OwnedResourceObservation)
    → (All (λ r. lacks_hash r ≡ false) rs × All (λ x. x ≡ h) (hashes_of rs)) ↔ All (Carries h) rs
carries h [] = ground arith
carries h (r ∷ rs) = elim (Option-cases (resource_hash r)) [
  | inl e ↦ ground (arith, carries h rs)
  | inr (k, e) ↦ ground (arith, carries h rs)
]

one_hash : (s : List String) → s ≢ [] → leb (length s) 1 ≡ true → (h : String) × (s ≡ h ∷ [])
one_hash [] ne small = absurd (ne refl)
one_hash (h ∷ []) ne small = (h, refl)
one_hash (h ∷ k ∷ s) ne small = absurd (ground arith)

missing_lem :
    (rs : List OwnedResourceObservation)
    → (missing_diagnostics rs ≡ []) ↔ All (λ r. lacks_hash r ≡ false) rs
unfolding missing_diagnostics
missing_lem rs =
    let (to, from) = filter_none lacks_hash rs in
    (λ e. to (ground arith), λ all_. let e = from all_ in ground arith)

hashes_of-nonempty :
    (rs : List OwnedResourceObservation)
    → is_empty rs ≡ false
    → All (λ r. lacks_hash r ≡ false) rs
    → hashes_of rs ≢ []
hashes_of-nonempty [] ne h = absurd (ground arith)
hashes_of-nonempty (r ∷ rs) ne h = elim (Option-cases (resource_hash r)) [
  | inl e ↦ absurd (ground arith)
  | inr (k, e) ↦ ground arith
]

-- No complaint about the hashes of the resources that count: they carry one.
pub sources_to :
    (rs : List OwnedResourceObservation)
    → is_empty rs ≡ false
    → missing_diagnostics rs ≡ []
    → several_diagnostics (collect_set (hashes_of rs)) ≡ []
    → (h : String) × (collect_set (hashes_of rs) ≡ h ∷ []) × All (Carries h) rs
unfolding several_diagnostics
sources_to rs ne missing several =
    let full = (missing_lem rs).0 missing in
    let some_ = hashes_of-nonempty rs ne full in
    let (h, one) =
      one_hash (collect_set (hashes_of rs)) (λ e. some_ (collect_set-nil (hashes_of rs) e))
        (ground arith) in
    (h, one, (carries h rs).0 (full, (collect_set-single h (hashes_of rs) some_).0 one))

pub sources_from :
    (h : String) (rs : List OwnedResourceObservation)
    → is_empty rs ≡ false
    → All (Carries h) rs
    → (missing_diagnostics rs ≡ []) × (collect_set (hashes_of rs) ≡ h ∷ [])
sources_from h rs ne all_ =
    let (full, same) = (carries h rs).1 all_ in
    (
      (missing_lem rs).1 full,
      (collect_set-single h (hashes_of rs) (hashes_of-nonempty rs ne full)).1 same,
    )
