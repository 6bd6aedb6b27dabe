-- ===== src/Base/Ring.antt =====
-- A `VecDeque` of a fixed capacity that drops its oldest entry when it is full, with numbered entries.
use Prim.Native.Nat.{ℕ, suc, ◌+◌, ◌≤◌, ◌<◌}
use mathlib.Core.Path.{◌≡◌, refl, sym, ap, ◌∙◌}
use mathlib.Core.Logic.{◌⊎◌, inl, inr}
use mathlib.Core.Bool.{Bool, true, false}
use mathlib.Core.List.{List, [], ◌∷◌, ◌++◌, append_assoc}
use native.Mathlib.Omega.{arith}
use apm_projectrunner.Base.Tests.{◌==◌, nat_eq, if◌then◌else◌, Bool-cases}
use apm_projectrunner.Base.Lists.{length, All}

module _ {ℓ} {A : Type ℓ} where
  -- `pop_front`.
  abbrev pub rest : List A → List A
  rest [] = []
  rest (x ∷ xs) = xs

  -- What is left when an entry is to be pushed.
  abbrev pub room : ℕ → List A → List A
  room capacity xs = if length xs == capacity then rest xs else xs

  pub length-push : (xs : List A) (x : A) → length (xs ++ x ∷ []) ≡ suc (length xs)
  length-push [] x = refl
  length-push (y ∷ xs) x = ap suc (length-push xs x)

  choose {κ} :
      (P : List A → Type κ) (b : Bool) (xs ys : List A) → P xs → P ys → P (if b then xs else ys)
  choose P true xs ys p q = p
  choose P false xs ys p q = q

  -- What holds of a buffer and of what is left without its oldest entry.
  pub room_lem {κ} :
      (P : List A → Type κ) (capacity : ℕ) (xs : List A) → P xs → P (rest xs) → P (room capacity xs)
  room_lem P capacity xs p q = choose P (length xs == capacity) (rest xs) xs q p

  pub length-room :
      (capacity : ℕ) (xs : List A)
      → 0 < capacity
      → length xs ≤ capacity
      → length (room capacity xs) < capacity
  length-room capacity [] some_room h = elim (Bool-cases (length {A = A} [] == capacity)) [
    | inl full ↦ rw full (omega arith)
    | inr not_full ↦ rw not_full (omega arith)
  ]
  length-room capacity (x ∷ xs) some_room h = elim (Bool-cases (length (x ∷ xs) == capacity)) [
    | inl full ↦ rw full (ground arith)
    | inr not_full ↦ rw not_full (ground arith)
  ]

  pub All-push {κ} : (P : A → Type κ) (xs : List A) (x : A) → P x → All P xs → All P (xs ++ x ∷ [])
  All-push P [] x h k = (h, tt)
  All-push P (y ∷ xs) x h (k, ks) = (k, All-push P xs x h ks)

  pub All-rest {κ} : (P : A → Type κ) (xs : List A) → All P xs → All P (rest xs)
  All-rest P [] h = h
  All-rest P (x ∷ xs) (h, hs) = hs

  -- What is kept of a sequence is its end: all of it, or as much as the capacity.
  pub record IsEnd (capacity : ℕ) (xs kept : List A) : Type ℓ where
    pub lost : List A
    pub whole : lost ++ kept ≡ xs
    pub full : (lost ≡ []) ⊎ (length kept ≡ capacity)

  pub IsEnd-push :
      (capacity : ℕ) (xs kept : List A) (x : A)
      → 0 < capacity
      → IsEnd capacity xs kept
      → IsEnd capacity (xs ++ x ∷ []) (room capacity kept ++ x ∷ [])
  IsEnd-push capacity xs kept x some_room e = elim (Bool-cases (length kept == capacity)) [
    | inl full ↦ rw full (shifted kept e (ground arith))
    | inr not_full ↦ rw not_full (record {
      lost = e.lost;
      whole = sym (append_assoc e.lost kept (x ∷ [])) ∙ ap (λ l. l ++ x ∷ []) e.whole;
      full = elim e.full [ inl none ↦ inl none | inr same ↦ absurd (ground (arith, same)) ];
    })
  ]
    where
      shifted :
          (kept : List A)
          → IsEnd capacity xs kept
          → length kept ≡ capacity
          → IsEnd capacity (xs ++ x ∷ []) (rest kept ++ x ∷ [])
      shifted [] e h = absurd (omega (arith, h))
      shifted (k ∷ ks) e h = record {
        lost = e.lost ++ k ∷ [];
        whole =
            sym (append_assoc (e.lost ++ k ∷ []) ks (x ∷ []))
            ∙ ap (λ l. l ++ x ∷ []) (append_assoc e.lost (k ∷ []) ks ∙ e.whole);
        full = inr (omega (arith, h, length-push ks x));
      }

  module _ (number : A → ℕ) where
    -- Consecutive numbers, the last of them `n`.
    abbrev pub Numbered : ℕ → List A → Type 0
    Numbered n [] = Unit
    Numbered n (x ∷ xs) = (number x + length xs ≡ n) × Numbered n xs

    pub Numbered-push :
        (n : ℕ) (xs : List A) (x : A)
        → number x ≡ suc n
        → Numbered n xs
        → Numbered (suc n) (xs ++ x ∷ [])
    Numbered-push n [] x h k = (omega (arith, h), tt)
    Numbered-push n (y ∷ xs) x h (k, ks) =
        (omega (arith, k, length-push xs x), Numbered-push n xs x h ks)

    pub Numbered-rest : (n : ℕ) (xs : List A) → Numbered n xs → Numbered n (rest xs)
    Numbered-rest n [] h = h
    Numbered-rest n (x ∷ xs) (h, hs) = hs
