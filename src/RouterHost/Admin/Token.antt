-- ===== src/RouterHost/Admin/Token.antt =====
-- The comparison of tokens, which looks at every byte, decides equality.
use Prim.Native.Nat.{bit_or, bit_xor, digits, differ, bitwise, bit_xor-bitwise, bit_or-bitwise}
use Prim.Native.Nat
use apm_projectrunner.Base.{
  ℕ, zero, suc, ◌/◌, ◌%◌, ◌≤◌, ◌<◌, ◌≡◌, ap, ◌↔◌, List, [], ◌∷◌, length, true, nat_eq,
  nat_beq_correct, arith, list_eq,
}
use apm_projectrunner.RouterHost.Admin.{difference_of, constant_time_eq}

differ_digit : (a b : ℕ) → a < 2 → b < 2 → (differ a b ≡ 0) ↔ (a ≡ b)
differ_digit zero b h k = ground arith
differ_digit (suc zero) zero h k = ground arith
differ_digit (suc zero) (suc b) h k = ground arith
differ_digit (suc (suc a)) b h k = absurd (omega arith)

max_zero : (a b : ℕ) → (Nat.max a b ≡ 0) ↔ ((a ≡ 0) × (b ≡ 0))
max_zero a b = ground arith

xor_zero : (n a b : ℕ) → a ≤ n → (digits (λ b. b) differ n a b ≡ 0) ↔ (a ≡ b)
xor_zero zero zero b h = ground arith
xor_zero zero (suc a) b h = absurd (omega arith)
xor_zero (suc n) zero b h = ground arith
xor_zero (suc n) (suc a) b h =
    let (to, from) = xor_zero n (suc a / 2) (b / 2) (omega arith) in
    let (to', from') = differ_digit (suc a % 2) (b % 2) (omega arith) (omega arith) in
    (
      λ e. omega (arith, to (omega (arith, e)), to' (omega (arith, e))),
      λ e. omega (arith, from (ap (λ k. k / 2) e), from' (ap (λ k. k % 2) e)),
    )

or_zero : (n a b : ℕ) → a ≤ n → (digits (λ b. b) Nat.max n a b ≡ 0) ↔ ((a ≡ 0) × (b ≡ 0))
or_zero zero zero b h = ground arith
or_zero zero (suc a) b h = absurd (omega arith)
or_zero (suc n) zero b h = ground arith
or_zero (suc n) (suc a) b h =
    let (to, from) = or_zero n (suc a / 2) (b / 2) (omega arith) in
    let (to', from') = max_zero (suc a % 2) (b % 2) in
    (
      λ e. absurd (omega (arith, (to (omega (arith, e))).0, (to' (omega (arith, e))).0)),
      λ e. absurd (omega (arith, e.0)),
    )

bit_xor-zero : (a b : ℕ) → (bit_xor a b ≡ 0) ↔ (a ≡ b)
bit_xor-zero a b =
    let e : bit_xor a b ≡ bitwise (λ b. b) differ a b = bit_xor-bitwise a b in
    rw e (xor_zero a a b (omega arith))

bit_or-zero : (a b : ℕ) → (bit_or a b ≡ 0) ↔ ((a ≡ 0) × (b ≡ 0))
bit_or-zero a b =
    let e : bit_or a b ≡ bitwise (λ b. b) Nat.max a b = bit_or-bitwise a b in
    rw e (or_zero a a b (omega arith))

-- No difference is left exactly when there was none before and the bytes, filled up with zeros, agree.
difference_of-zero :
    (d : ℕ) (left right : List ℕ)
    → length left ≡ length right
    → (difference_of d left right ≡ 0) ↔ ((d ≡ 0) × (left ≡ right))
unfolding difference_of
difference_of-zero d [] [] h = ground arith
difference_of-zero d (a ∷ left) [] h = absurd (ground arith)
difference_of-zero d [] (b ∷ right) h = absurd (ground arith)
difference_of-zero d (a ∷ left) (b ∷ right) h = ground (
  arith,
  difference_of-zero (bit_or d (bit_xor a b)) left right (ground arith),
  bit_or-zero d (bit_xor a b),
  bit_xor-zero a b,
)

-- Once there is a difference, it stays.
difference_of-keeps : (left right : List ℕ) (d : ℕ) → difference_of d left right ≡ 0 → d ≡ 0
unfolding difference_of
difference_of-keeps [] [] d h = h
difference_of-keeps (a ∷ left) [] d h =
    ((bit_or-zero d (bit_xor a 0)).0 (difference_of-keeps left [] _ h)).0
difference_of-keeps [] (b ∷ right) d h =
    ((bit_or-zero d (bit_xor 0 b)).0 (difference_of-keeps [] right _ h)).0
difference_of-keeps (a ∷ left) (b ∷ right) d h =
    ((bit_or-zero d (bit_xor a b)).0 (difference_of-keeps left right _ h)).0

-- The comparison of tokens without an early exit accepts two texts exactly when they are equal: no
-- byte that is compared and no padding of the shorter text hides a difference.
pub constant_time_eq-equal :
    (left right : List ℕ) → (constant_time_eq left right ≡ true) ↔ (left ≡ right)
unfolding constant_time_eq
constant_time_eq-equal left right =
    let start = bit_xor (length left) (length right) in
    let (to, from) = nat_beq_correct (difference_of start left right) 0 in
    (
      λ h.
          let none = to h in
          let lengths =
            (bit_xor-zero (length left) (length right)).0
              (difference_of-keeps left right start none) in
          ((difference_of-zero start left right lengths).0 none).1,
      λ e.
          let lengths = ap length e in
          from (
            (difference_of-zero start left right lengths).1
              ((bit_xor-zero (length left) (length right)).1 lengths, e)),
    )
