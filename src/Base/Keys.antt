-- ===== src/Base/Keys.antt =====
-- Lists whose elements have different keys, as loops with a map of the keys seen so far test it.
use Prim.Native.Nat.{ℕ, ◌+◌}
use mathlib.Core.Path.{◌≡◌, refl}
use mathlib.Core.Logic.{inl, inr}
use mathlib.Core.Bool.{Bool, true, false}
use mathlib.Core.List.{List, [], ◌∷◌}
use mathlib.Core.Option.{Option, none, some}
use native.Mathlib.Omega.{arith}
use apm_projectrunner.Base.Tests.{Eq, ◌==◌, if◌then◌else◌, Bool-cases}
use apm_projectrunner.Base.Lists.{All}
use apm_projectrunner.Base.Assoc.{Map, get, insert, get-insert, collect_by}

-- `Option::or`.
abbrev pub or_else {μ} : {A : Type μ} → Option A → Option A → Option A
or_else (some a) o = some a
or_else none o = o

module _ {ℓ κ} {K : Type ℓ} {V : Type κ} ⦃e : Eq K⦄ (key : V → K) where
  abbrev pub Distinct : List V → Type 0
  Distinct [] = Unit
  Distinct (x ∷ xs) = All (λ y. (key x == key y) ≡ false) xs × Distinct xs

  -- The first element with the key.
  abbrev pub find : K → List V → Option V
  find k [] = none
  find k (x ∷ xs) = if key x == k then some x else find k xs

  pub find_absent : (k : K) (xs : List V) → All (λ y. (k == key y) ≡ false) xs → find k xs ≡ none
  find_absent k [] h = refl
  find_absent k (x ∷ xs) (p, h) =
      ground (arith, e.beq_correct k (key x), e.beq_correct (key x) k, find_absent k xs h)

  -- Where the keys are distinct, the last element with a key is the first.
  pub get-collect_by :
      (k : K) (m : Map K V) (xs : List V)
      → Distinct xs
      → get k (collect_by key m xs) ≡ or_else (find k xs) (get k m)
  unfolding collect_by
  get-collect_by k m [] d = refl
  get-collect_by k m (x ∷ xs) (h, d) = elim (Bool-cases (key x == k)) [
    | inl same ↦
        let eq : key x ≡ k = (e.beq_correct _ _).0 same in
        let rest = find_absent (key x) xs h in
        ground (arith, get-collect_by k (insert (key x) x m) xs d, get-insert (key x) k x m)
    | inr other ↦
        ground (arith, get-collect_by k (insert (key x) x m) xs d, get-insert (key x) k x m)
  ]

  module _ {μ} {W : Type μ} (val : ℕ → V → W) where
    -- No element's key is in the map when the loop comes to it.
    abbrev pub Fresh : ℕ → List V → Map K W → Type μ
    Fresh i [] seen = Unit
    Fresh i (x ∷ xs) seen =
        (get (key x) seen ≡ none) × Fresh (i + 1) xs (insert (key x) (val i x) seen)

    pub Unseen_of_insert :
        (k : K) (w : W) (seen : Map K W) (xs : List V)
        → All (λ y. get (key y) (insert k w seen) ≡ none) xs
        → All (λ y. get (key y) seen ≡ none) xs × All (λ y. (k == key y) ≡ false) xs
    Unseen_of_insert k w seen [] h = (tt, tt)
    Unseen_of_insert k w seen (x ∷ xs) (p, h) =
        let (a, b) = Unseen_of_insert k w seen xs h in
        (
          (ground (arith, get-insert k (key x) w seen), a),
          (ground (arith, get-insert k (key x) w seen), b),
        )

    pub Fresh-Distinct :
        (i : ℕ) (xs : List V) (seen : Map K W)
        → Fresh i xs seen
        → All (λ y. get (key y) seen ≡ none) xs × Distinct xs
    Fresh-Distinct i [] seen h = (tt, tt)
    Fresh-Distinct i (x ∷ xs) seen (p, h) =
        let (rest, d) = Fresh-Distinct (i + 1) xs (insert (key x) (val i x) seen) h in
        let (a, b) = Unseen_of_insert (key x) (val i x) seen xs rest in ((p, a), (b, d))

module _ {ℓ κ} {K : Type ℓ} {V : Type κ} ⦃e : Eq K⦄ where
  -- A list of entries with one entry for each key, as every `BTreeMap` is.
  abbrev pub IsMap : Map K V → Type 0
  IsMap = Distinct (λ (x : K × V). x.0)

  pub get_absent :
      (k : K) (m : Map K V) → All (λ (x : K × V). (k == x.0) ≡ false) m → get k m ≡ none
  unfolding get
  get_absent k [] h = refl
  get_absent k ((j, v) ∷ m) (p, h) =
      ground (arith, e.beq_correct k j, e.beq_correct j k, get_absent k m h)

All-imp {ℓ} :
    {V : Type ℓ} (P Q : V → Bool) (xs : List V)
    → ((y : V) → P y ≡ false → Q y ≡ false)
    → All (λ y. P y ≡ false) xs
    → All (λ y. Q y ≡ false) xs
All-imp P Q [] imp h = tt
All-imp P Q (x ∷ xs) imp (p, h) = (imp x p, All-imp P Q xs imp h)

module _ {ℓ κ μ} {V : Type ℓ} {K : Type κ} {J : Type μ} ⦃e : Eq K⦄ ⦃f : Eq J⦄ where
  -- Keys that determine others are distinct where those are.
  pub Distinct-imp :
      (key : V → K) (other : V → J) (xs : List V)
      → ((x y : V) → (other x == other y) ≡ true → (key x == key y) ≡ true)
      → Distinct key xs
      → Distinct other xs
  Distinct-imp key other [] imp d = tt
  Distinct-imp key other (x ∷ xs) imp (h, d) = (
    All-imp (λ y. key x == key y) (λ y. other x == other y) xs (λ y p. ground (arith, imp x y)) h,
    Distinct-imp key other xs imp d,
  )
