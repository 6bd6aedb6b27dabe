-- ===== src/Base/Tests.antt =====
-- Boolean tests, the conditional and the equality interface (Rust's `Eq`).
use Prim.Native.Nat.{ℕ, compare, Ordering}
use Prim.Native.String.{String}
use mathlib.Core.Path.{◌≡◌, refl}
use mathlib.Core.Logic.{◌↔◌, ◌≢◌, ◌⊎◌, inl, inr}
use mathlib.Core.Bool.{Bool, true, false, ◌&&◌, not}
use mathlib.Core.Option.{Option, none, some}
use mathlib.Core.List.{List, [], ◌∷◌}
use native.Mathlib.Omega.{arith}
use text.Mathlib.Text.{◌==◌ as str_eq}
use text.Mathlib.TextEquality.{eq_iff}

abbrev pub ltb : ℕ → ℕ → Bool
ltb a b = elim (compare a b) [ Ordering.lt ↦ true | _ ↦ false ]

abbrev pub leb : ℕ → ℕ → Bool
leb a b = elim (compare a b) [ Ordering.gt ↦ false | _ ↦ true ]

abbrev pub nat_beq : ℕ → ℕ → Bool
nat_beq a b = elim (compare a b) [ Ordering.eq ↦ true | _ ↦ false ]

infix 1 if◌then◌else◌
abbrev pub if◌then◌else◌ {ℓ} : {A : Type ℓ} → Bool → A → A → A
if true then x else y = x
if false then x else y = y

pub Bool-cases : (b : Bool) → (b ≡ true) ⊎ (b ≡ false)
Bool-cases true = inl refl
Bool-cases false = inr refl

pub Option-cases {ℓ} : {A : Type ℓ} (o : Option A) → (o ≡ none) ⊎ ((a : A) × (o ≡ some a))
Option-cases none = inl refl
Option-cases (some a) = inr (a, refl)

abbrev pub is_some {ℓ} : {A : Type ℓ} → Option A → Bool
is_some none = false
is_some (some a) = true

-- Rust's `Eq`: a test of equality that decides it.
pub record Eq {ℓ} (T : Type ℓ) : Type ℓ where
  pub beq : T → T → Bool
  pub beq_correct : (x y : T) → (beq x y ≡ true) ↔ (x ≡ y)

module _ {ℓ} {T : Type ℓ} ⦃d : Eq T⦄ where
  infix 50 ◌==◌ ◌!=◌
  abbrev pub ◌==◌ : T → T → Bool
  x == y = d.beq x y

  abbrev pub ◌!=◌ : T → T → Bool
  x != y = not (x == y)

instance abbrev pub string_eq : Eq String
string_eq = record { beq = str_eq; beq_correct = eq_iff }

pub nat_beq_correct : (m n : ℕ) → (nat_beq m n ≡ true) ↔ (m ≡ n)
nat_beq_correct m n = ground arith

instance abbrev pub nat_eq : Eq ℕ
nat_eq = record { beq = nat_beq; beq_correct = nat_beq_correct }

module _ {ℓ κ} {A : Type ℓ} {B : Type κ} ⦃e : Eq A⦄ ⦃f : Eq B⦄ where
  abbrev pub pair_beq : A × B → A × B → Bool
  pair_beq (a, b) (c, d) = (a == c) && (b == d)

  pub pair_beq_correct : (p q : A × B) → (pair_beq p q ≡ true) ↔ (p ≡ q)
  pair_beq_correct (a, b) (c, d) = ground (arith, e.beq_correct a c, f.beq_correct b d)

  instance abbrev pub pair_eq : Eq (A × B)
  pair_eq = record { beq = pair_beq; beq_correct = pair_beq_correct }

module _ {ℓ} {A : Type ℓ} ⦃e : Eq A⦄ where
  abbrev pub option_beq : Option A → Option A → Bool
  option_beq none none = true
  option_beq (some a) (some b) = a == b
  option_beq _ _ = false

  pub option_beq_correct : (p q : Option A) → (option_beq p q ≡ true) ↔ (p ≡ q)
  option_beq_correct none none = ground arith
  option_beq_correct (some a) (some b) = ground (arith, e.beq_correct a b)
  option_beq_correct none (some b) = ground arith
  option_beq_correct (some a) none = ground arith

  instance abbrev pub option_eq : Eq (Option A)
  option_eq = record { beq = option_beq; beq_correct = option_beq_correct }

  abbrev pub list_beq : List A → List A → Bool
  list_beq [] [] = true
  list_beq (x ∷ xs) (y ∷ ys) = (x == y) && list_beq xs ys
  list_beq _ _ = false

  pub list_beq_correct : (xs ys : List A) → (list_beq xs ys ≡ true) ↔ (xs ≡ ys)
  list_beq_correct [] [] = ground arith
  list_beq_correct (x ∷ xs) (y ∷ ys) = ground (arith, e.beq_correct x y, list_beq_correct xs ys)
  list_beq_correct [] (y ∷ ys) = ground arith
  list_beq_correct (x ∷ xs) [] = ground arith

  instance abbrev pub list_eq : Eq (List A)
  list_eq = record { beq = list_beq; beq_correct = list_beq_correct }

  pub beq_refl : (a : A) → (a == a) ≡ true
  beq_refl a = (e.beq_correct a a).1 refl

  pub ne→beq : (a b : A) → a ≢ b → (a == b) ≡ false
  ne→beq a b h = ground (arith, e.beq_correct a b)
