-- ===== src/Base/Sort.antt =====
-- The order of texts (the bytes of UTF-8 compare as the code points do), and sorting by a test.
use Prim.Native.Nat.{ℕ, zero, suc}
use Prim.Native.Char.{code}
use Prim.Native.String.{String}
use mathlib.Core.Path.{◌≡◌, refl, ap}
use mathlib.Core.Logic.{◌⊎◌, inl, inr}
use mathlib.Core.Bool.{Bool, true, false, ◌&&◌, ◌||◌}
use mathlib.Core.List.{List, [], ◌∷◌, ◌++◌}
use native.Mathlib.Omega.{arith}
use text.Mathlib.TextEquality.{Char-path}
use apm_projectrunner.Base.Tests.{if◌then◌else◌, Bool-cases, ltb, nat_beq}
use apm_projectrunner.Base.Lists.{All, All-Member, All-self, All-filter, Member, filter}

unfoldable pub text_lt : String → String → Bool
text_lt s String.[] = false
text_lt String.[] (String.◌∷◌ d t) = true
text_lt (String.◌∷◌ c s) (String.◌∷◌ d t) =
    ltb (code c) (code d) || (nat_beq (code c) (code d) && text_lt s t)

pub text_lt_irrefl : (s : String) → text_lt s s ≡ false
unfolding text_lt
text_lt_irrefl String.[] = refl
text_lt_irrefl (String.◌∷◌ c s) = ground (arith, text_lt_irrefl s)

pub text_lt_trans : (s t u : String) → text_lt s t ≡ true → text_lt t u ≡ true → text_lt s u ≡ true
unfolding text_lt
text_lt_trans s t String.[] h k = absurd (ground arith)
text_lt_trans s String.[] (String.◌∷◌ d u) h k = absurd (ground arith)
text_lt_trans String.[] (String.◌∷◌ c t) (String.◌∷◌ d u) h k = refl
text_lt_trans (String.◌∷◌ b s) (String.◌∷◌ c t) (String.◌∷◌ d u) h k =
    ground (arith, text_lt_trans s t u)

pub text_lt_total : (s t : String) → text_lt s t ≡ false → text_lt t s ≡ false → s ≡ t
unfolding text_lt
text_lt_total String.[] String.[] h k = refl
text_lt_total String.[] (String.◌∷◌ d t) h k = absurd (ground arith)
text_lt_total (String.◌∷◌ c s) String.[] h k = absurd (ground arith)
text_lt_total (String.◌∷◌ c s) (String.◌∷◌ d t) h k =
    let same : code c ≡ code d = ground arith in
    let rest = text_lt_total s t (ground arith) (ground arith) in
    λ i. String.◌∷◌ (Char-path c d same i) (rest i)

unfoldable pub take {ℓ} : {A : Type ℓ} → ℕ → List A → List A
take n [] = []
take zero (x ∷ xs) = []
take (suc n) (x ∷ xs) = x ∷ take n xs

module _ {ℓ} {A : Type ℓ} (before : A → A → Bool) where
  unfoldable pub place : A → List A → List A
  place x [] = x ∷ []
  place x (y ∷ ys) = let rest = place x ys in if before x y then x ∷ y ∷ ys else y ∷ rest

  -- `ORDER BY`.
  unfoldable pub sort : List A → List A
  sort [] = []
  sort (x ∷ xs) = place x (sort xs)

  abbrev pub Sorted : List A → Type 0
  Sorted [] = Unit
  Sorted (x ∷ xs) = All (λ y. before x y ≡ true) xs × Sorted xs

  -- Every two elements are ordered one way or the other.
  abbrev pub Apart : List A → Type 0
  Apart [] = Unit
  Apart (x ∷ xs) = All (λ y. (before x y ≡ true) ⊎ (before y x ≡ true)) xs × Apart xs

  pub Apart-filter : (q : A → Bool) (xs : List A) → Apart xs → Apart (filter q xs)
  Apart-filter q [] h = tt
  Apart-filter q (x ∷ xs) (p, h) = elim (Bool-cases (q x)) [
    | inl e ↦
        rw e
          (All-filter (λ y. (before x y ≡ true) ⊎ (before y x ≡ true)) q xs p, Apart-filter q xs h)
    | inr e ↦ rw e (Apart-filter q xs h)
  ]

  place-front : (x : A) (s : List A) → All (λ y. before x y ≡ true) s → place x s ≡ x ∷ s
  unfolding place
  place-front x [] h = refl
  place-front x (y ∷ ys) (p, h) = rw p refl

  place-All {κ} : (P : A → Type κ) (x : A) (s : List A) → P x → All P s → All P (place x s)
  unfolding place
  place-All P x [] p h = (p, tt)
  place-All P x (y ∷ ys) p (q, h) = elim (Bool-cases (before x y)) [
    | inl e ↦ rw e (p, (q, h))
    | inr e ↦ rw e (q, place-All P x ys p h)
  ]

  sort-All {κ} : (P : A → Type κ) (xs : List A) → All P xs → All P (sort xs)
  unfolding sort
  sort-All P [] h = tt
  sort-All P (x ∷ xs) (p, h) = place-All P x (sort xs) p (sort-All P xs h)

  pub sort-Member : (a : A) (xs : List A) → Member a (sort xs) → Member a xs
  sort-Member a xs m =
      All-Member (λ y. Member y xs) m (sort-All (λ y. Member y xs) xs (All-self xs))

  module _ (trans : (x y z : A) → before x y ≡ true → before y z ≡ true → before x z ≡ true) where
    before_all :
        (x y : A) (ys : List A)
        → before x y ≡ true
        → All (λ z. before y z ≡ true) ys
        → All (λ z. before x z ≡ true) ys
    before_all x y [] e h = tt
    before_all x y (z ∷ zs) e (p, h) = (trans x y z e p, before_all x y zs e h)

    place-Sorted :
        (x : A) (s : List A)
        → All (λ y. (before x y ≡ true) ⊎ (before y x ≡ true)) s
        → Sorted s
        → Sorted (place x s)
    unfolding place
    place-Sorted x [] apart sorted = (tt, tt)
    place-Sorted x (y ∷ ys) (p, apart) (first, sorted) = elim (Bool-cases (before x y)) [
      | inl e ↦ rw e ((e, before_all x y ys e first), (first, sorted))
      | inr e ↦ rw e (
        place-All (λ z. before y z ≡ true) x ys
            (elim p [ inl d ↦ absurd (ground arith) | inr d ↦ d ]) first,
        place-Sorted x ys apart sorted,
      )
    ]

    pub sort-Sorted : (xs : List A) → Apart xs → Sorted (sort xs)
    unfolding sort
    sort-Sorted [] apart = tt
    sort-Sorted (x ∷ xs) (p, apart) =
        place-Sorted x (sort xs) (sort-All (λ y. (before x y ≡ true) ⊎ (before y x ≡ true)) xs p)
          (sort-Sorted xs apart)

    filter-place :
        (q : A → Bool) (x : A) (s : List A)
        → Sorted s
        → filter q (place x s) ≡ (if q x then place x (filter q s) else filter q s)
    unfolding place
    filter-place q x [] sorted = ground arith
    filter-place q x (y ∷ ys) (first, sorted) = elim (Bool-cases (before x y)) [
      | inl e ↦
          let front =
            place-front x (filter q (y ∷ ys))
              (All-filter (λ z. before x z ≡ true) q (y ∷ ys) (e, before_all x y ys e first)) in
          ground (arith, front)
      | inr e ↦ ground (arith, filter-place q x ys sorted)
    ]

    -- Selecting rows before or after sorting is the same.
    pub sort-filter :
        (q : A → Bool) (xs : List A) → Apart xs → sort (filter q xs) ≡ filter q (sort xs)
    unfolding sort
    sort-filter q [] apart = refl
    sort-filter q (x ∷ xs) (p, apart) =
        let same = sort-filter q xs apart in
        let step = filter-place q x (sort xs) (sort-Sorted xs apart) in
        elim (Bool-cases (q x)) [ inl e ↦ ground (arith, step) | inr e ↦ ground (arith, step) ]

    module _ (irrefl : (x : A) → before x x ≡ false) where
      keep_all : (r : A) (ys : List A) → All (λ z. before r z ≡ true) ys → filter (before r) ys ≡ ys
      keep_all r [] h = refl
      keep_all r (y ∷ ys) (p, h) = rw p (ap (λ zs. y ∷ zs) (keep_all r ys h))

      before_last :
          (x r : A) (xs ys : List A)
          → All (λ z. before x z ≡ true) (xs ++ r ∷ ys)
          → before x r ≡ true
      before_last x r [] ys (p, h) = p
      before_last x r (y ∷ xs) ys (p, h) = before_last x r xs ys h

      -- What comes after an element of a sorted list is the rest of the list.
      pub filter-after :
          (xs : List A) (r : A) (ys : List A)
          → Sorted (xs ++ r ∷ ys)
          → filter (before r) (xs ++ r ∷ ys) ≡ ys
      filter-after [] r ys (first, sorted) = rw (irrefl r) (keep_all r ys first)
      filter-after (x ∷ xs) r ys (first, sorted) =
          let earlier = before_last x r xs ys first in
          let other : before r x ≡ false = elim (Bool-cases (before r x)) [
            | inl e ↦ absurd (ground (arith, irrefl r, trans r x r e earlier))
            | inr e ↦ e
          ] in
          rw other (filter-after xs r ys sorted)
