-- ===== src/Base/Assoc.antt =====
-- `BTreeMap` as an association list with one entry for each key.
use mathlib.Core.Path.{◌≡◌, refl}
use mathlib.Core.Logic.{◌⊎◌, inl, inr}
use mathlib.Core.Bool.{Bool, true, false}
use mathlib.Core.List.{List, [], ◌∷◌, ◌++◌}
use mathlib.Core.Option.{Option, none, some}
use native.Mathlib.Omega.{arith}
use apm_projectrunner.Base.Tests.{Eq, ◌==◌, if◌then◌else◌, is_some, Bool-cases}
use apm_projectrunner.Base.Lists.{Member}

abbrev pub Map {ℓ κ} : Type ℓ → Type κ → Type (ℓ ⊔ κ)
Map K V = List (K × V)

module _ {ℓ κ} {K : Type ℓ} {V : Type κ} ⦃e : Eq K⦄ where
  unfoldable pub get : K → Map K V → Option V
  get key [] = none
  get key ((first, value) ∷ rest) = if first == key then some value else get key rest

  unfoldable pub insert : K → V → Map K V → Map K V
  insert key value [] = (key, value) ∷ []
  insert key value ((first, old) ∷ rest) =
      if first == key then (first, value) ∷ rest else (first, old) ∷ insert key value rest

  -- Every entry with the key is dropped.
  unfoldable pub remove : K → Map K V → Map K V
  remove key [] = []
  remove key ((first, old) ∷ rest) =
      if first == key then remove key rest else (first, old) ∷ remove key rest

  abbrev pub contains_key : K → Map K V → Bool
  contains_key k m = is_some (get k m)

  pub get-nil : (k : K) → get k [] ≡ none
  unfolding get
  get-nil k = refl

  pub get-insert :
      (k j : K) (v : V) (m : Map K V) → get j (insert k v m) ≡ (if k == j then some v else get j m)
  unfolding get insert
  get-insert k j v [] = refl
  get-insert k j v ((i, w) ∷ m) =
      ground (arith, e.beq_correct k j, e.beq_correct i k, e.beq_correct i j, get-insert k j v m)

  pub get-remove : (k j : K) (m : Map K V) → get j (remove k m) ≡ (if k == j then none else get j m)
  unfolding get remove
  get-remove k j [] = ground arith
  get-remove k j ((i, w) ∷ m) =
      ground (arith, e.beq_correct k j, e.beq_correct i k, e.beq_correct i j, get-remove k j m)

  -- A key that is not there goes to the end.
  pub insert-absent :
      (k : K) (v : V) (m : Map K V) → is_some (get k m) ≡ false → insert k v m ≡ m ++ (k, v) ∷ []
  unfolding get insert
  insert-absent k v [] h = refl
  insert-absent k v ((j, w) ∷ m) h = ground (arith, insert-absent k v m)

  pub get-insert_self : (k : K) (v : V) (m : Map K V) → get k (insert k v m) ≡ some v
  get-insert_self k v m = ground (arith, get-insert k k v m, e.beq_correct k k)

module _ {ℓ κ} {K : Type ℓ} {V : Type κ} ⦃e : Eq K⦄ (key : V → K) where
  -- `iter().map(|v| (key(v), v)).collect()` onto the entries that are there: the last one wins.
  unfoldable pub collect_by : Map K V → List V → Map K V
  collect_by m [] = m
  collect_by m (v ∷ vs) = collect_by (insert (key v) v m) vs

  pub collect_by-Member :
      (k : K) (v : V) (m : Map K V) (vs : List V)
      → get k (collect_by m vs) ≡ some v
      → (get k m ≡ some v) ⊎ ((key v ≡ k) × Member v vs)
  unfolding collect_by
  collect_by-Member k v m [] h = inl h
  collect_by-Member k v m (w ∷ ws) h = elim (collect_by-Member k v (insert (key w) w m) ws h) [
    | inr (same, there_) ↦ inr (same, Member.there there_)
    | inl old ↦ elim (Bool-cases (key w == k)) [
      | inr other ↦ inl (ground (arith, get-insert (key w) k w m))
      | inl same ↦
          let found : w ≡ v = ground (arith, get-insert (key w) k w m) in
          inr (rw (← found) ((e.beq_correct _ _).0 same), rw (← found) Member.here)
    ]
  ]

  pub collect_by-keeps :
      (k : K) (m : Map K V) (vs : List V)
      → is_some (get k m) ≡ true
      → is_some (get k (collect_by m vs)) ≡ true
  unfolding collect_by
  collect_by-keeps k m [] h = h
  collect_by-keeps k m (w ∷ ws) h =
      collect_by-keeps k (insert (key w) w m) ws (ground (arith, get-insert (key w) k w m))

  pub collect_by-has :
      (v : V) (m : Map K V) {vs : List V}
      → Member v vs
      → is_some (get (key v) (collect_by m vs)) ≡ true
  unfolding collect_by
  collect_by-has v m (Member.here {xs = ws}) =
      collect_by-keeps (key v) (insert (key v) v m) ws (ground (arith, get-insert_self (key v) v m))
  collect_by-has v m (Member.there {x = w} r) = collect_by-has v (insert (key w) w m) r
