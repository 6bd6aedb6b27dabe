-- ===== src/Base/Int.antt =====
-- `i64`: integers with the range written out, and `checked_add`.
use Prim.Native.Nat.{ℕ, suc, ◌+◌, ◌-◌, ◌≤◌, ◌<◌}
use mathlib.Core.Path.{◌≡◌}
use mathlib.Core.Logic.{◌↔◌}
use mathlib.Core.Bool.{Bool, true, false}
use mathlib.Core.Option.{Option, none, some}
use native.Mathlib.Omega.{arith}
use apm_projectrunner.Base.Tests.{Eq, leb, ltb, nat_beq, if◌then◌else◌}

-- `negsuc n` is -(n + 1).
pub data ℤ : Type 0 where
  pos : ℕ → ℤ
  negsuc : ℕ → ℤ

abbrev pub up : ℤ → ℕ
up (pos n) = n
up (negsuc n) = 0

abbrev pub down : ℤ → ℕ
down (pos n) = 0
down (negsuc n) = suc n

infix 50 ◌≤ℤ◌ ◌<ℤ◌
abbrev pub ◌≤ℤ◌ : ℤ → ℤ → Type 0
x ≤ℤ y = up x + down y ≤ up y + down x

abbrev pub ◌<ℤ◌ : ℤ → ℤ → Type 0
x <ℤ y = up x + down y < up y + down x

abbrev pub ltb_ℤ : ℤ → ℤ → Bool
ltb_ℤ x y = ltb (up x + down y) (up y + down x)

infixl 65 ◌+ℤ◌
unfoldable pub ◌+ℤ◌ : ℤ → ℤ → ℤ
x +ℤ y =
    let a = up x + up y in
    let b = down x + down y in if leb b a then pos (a - b) else negsuc (b - a - 1)

abbrev pub i64_max : ℕ
i64_max = 9223372036854775807

abbrev fits : ℤ → Bool
fits (pos n) = leb n i64_max
fits (negsuc n) = leb n i64_max

-- `x.checked_add(y)` on `i64`.
unfoldable pub checked_add : ℤ → ℤ → Option ℤ
checked_add x y = if fits (x +ℤ y) then some (x +ℤ y) else none

lt_add_pos : (x y : ℤ) → pos 0 <ℤ y → x <ℤ (x +ℤ y)
unfolding ◌+ℤ◌
lt_add_pos x y h = ground arith

pub checked_add-lt : (x y z : ℤ) → pos 0 <ℤ y → checked_add x y ≡ some z → x <ℤ z
unfolding checked_add
checked_add-lt x y z h e = ground (arith, lt_add_pos x y h)

pub ltb_ℤ_of_lt : (x y : ℤ) → x <ℤ y → ltb_ℤ x y ≡ true
ltb_ℤ_of_lt x y h = ground arith

abbrev pub int_beq : ℤ → ℤ → Bool
int_beq (pos m) (pos n) = nat_beq m n
int_beq (negsuc m) (negsuc n) = nat_beq m n
int_beq _ _ = false

pub int_beq_correct : (x y : ℤ) → (int_beq x y ≡ true) ↔ (x ≡ y)
int_beq_correct (pos m) (pos n) = ground arith
int_beq_correct (negsuc m) (negsuc n) = ground arith
int_beq_correct (pos m) (negsuc n) = ground arith
int_beq_correct (negsuc m) (pos n) = ground arith

instance abbrev pub int_eq : Eq ℤ
int_eq = record { beq = int_beq; beq_correct = int_beq_correct }
