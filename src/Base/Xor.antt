-- ===== src/Base/Xor.antt =====
-- Exclusive or, digit by digit: half, parity, and the laws that they give.
use Prim.Native.Nat.{
  ℕ, zero, suc, ◌+◌, ◌*◌, ◌/◌, ◌%◌, ◌^◌, ◌≤◌, ◌<◌, differ, bit_xor, bit_xor-bitwise,
}
use mathlib.Core.Path.{◌≡◌, refl, sym, ap, ◌∙◌}
use mathlib.Core.Logic.{◌⊎◌, inl, inr}
use native.Mathlib.Nat.{pow-suc}
use native.Mathlib.Omega.{arith}
use libatbus.Base.Bits.{bitwise_digit}

bit_xor_digit : (a b : ℕ) → bit_xor a b ≡ bit_xor (a / 2) (b / 2) * 2 + differ (a % 2) (b % 2)
bit_xor_digit zero b = omega (arith, bit_xor-bitwise 0 b, bit_xor-bitwise 0 (b / 2))
bit_xor_digit (suc a) b = simp bit_xor-bitwise (bitwise_digit (λ y. y) differ a b)

pub zero-bit_xor : (x : ℕ) → bit_xor 0 x ≡ x
zero-bit_xor x = bit_xor-bitwise 0 x

digit_cases : (x : ℕ) → (x % 2 ≡ 0) ⊎ (x % 2 ≡ 1)
digit_cases x = ground arith

differ_bound : (a b : ℕ) → differ (a % 2) (b % 2) < 2
differ_bound a b = elim (digit_cases a) [
  | inl x ↦ elim (digit_cases b) [
    | inl y ↦ rw (x, y) (omega arith)
    | inr y ↦ rw (x, y) (omega arith)
  ]
  | inr x ↦ elim (digit_cases b) [
    | inl y ↦ rw (x, y) (omega arith)
    | inr y ↦ rw (x, y) (omega arith)
  ]
]

pub half : (a b : ℕ) → bit_xor a b / 2 ≡ bit_xor (a / 2) (b / 2)
half a b = omega (arith, bit_xor_digit a b, differ_bound a b)

pub parity : (a b : ℕ) → bit_xor a b % 2 ≡ differ (a % 2) (b % 2)
parity a b = omega (arith, bit_xor_digit a b, differ_bound a b)

differ_comm : (a b : ℕ) → differ (a % 2) (b % 2) ≡ differ (b % 2) (a % 2)
differ_comm a b = elim (digit_cases a) [
  | inl x ↦ elim (digit_cases b) [ inl y ↦ rw (x, y) refl | inr y ↦ rw (x, y) refl ]
  | inr x ↦ elim (digit_cases b) [ inl y ↦ rw (x, y) refl | inr y ↦ rw (x, y) refl ]
]

differ_assoc :
    (a b c : ℕ) → differ (differ (a % 2) (b % 2)) (c % 2) ≡ differ (a % 2) (differ (b % 2) (c % 2))
differ_assoc a b c = elim (digit_cases a) [
  | inl x ↦ rw x refl
  | inr x ↦ elim (digit_cases b) [
    | inl y ↦ rw (x, y) refl
    | inr y ↦ elim (digit_cases c) [ inl z ↦ rw (x, y, z) refl | inr z ↦ rw (x, y, z) refl ]
  ]
]

from_digits : (x y : ℕ) → x / 2 ≡ y / 2 → x % 2 ≡ y % 2 → x ≡ y
from_digits x y h p = omega (arith, h, p)

comm_below : (n a b : ℕ) → a ≤ n → b ≤ n → bit_xor a b ≡ bit_xor b a
comm_below zero zero zero p q = refl
comm_below zero (suc a) b p q = absurd (omega arith)
comm_below zero a (suc b) p q = absurd (omega arith)
comm_below (suc n) a b p q =
    from_digits _ _
      (half a b ∙ comm_below n (a / 2) (b / 2) (omega arith) (omega arith) ∙ sym (half b a))
      (parity a b ∙ differ_comm a b ∙ sym (parity b a))

pub bit_xor_comm : (a b : ℕ) → bit_xor a b ≡ bit_xor b a
bit_xor_comm a b = comm_below (a + b) a b (omega arith) (omega arith)

assoc_below :
    (n a b c : ℕ) → a ≤ n → b ≤ n → c ≤ n → bit_xor (bit_xor a b) c ≡ bit_xor a (bit_xor b c)
assoc_below zero zero b c p q r =
    ap (λ t. bit_xor t c) (zero-bit_xor b) ∙ sym (zero-bit_xor (bit_xor b c))
assoc_below zero (suc a) b c p q r = absurd (omega arith)
assoc_below (suc n) a b c p q r =
    from_digits _ _
      (half (bit_xor a b) c
        ∙ ap (λ t. bit_xor t (c / 2)) (half a b)
        ∙ assoc_below n (a / 2) (b / 2) (c / 2) (omega arith) (omega arith) (omega arith)
        ∙ sym (ap (bit_xor (a / 2)) (half b c))
        ∙ sym (half a (bit_xor b c)))
      (parity (bit_xor a b) c
        ∙ ap (λ t. differ t (c % 2)) (parity a b)
        ∙ differ_assoc a b c
        ∙ sym (ap (differ (a % 2)) (parity b c))
        ∙ sym (parity a (bit_xor b c)))

pub bit_xor_assoc : (a b c : ℕ) → bit_xor (bit_xor a b) c ≡ bit_xor a (bit_xor b c)
bit_xor_assoc a b c = assoc_below (a + b + c) a b c (omega arith) (omega arith) (omega arith)

-- No place from `w` on is set where neither number has one.
pub bit_xor_bound : (w a b : ℕ) → a < 2 ^ w → b < 2 ^ w → bit_xor a b < 2 ^ w
bit_xor_bound zero zero zero p q = omega (arith, zero-bit_xor 0)
bit_xor_bound zero zero (suc b) p q = absurd (omega arith)
bit_xor_bound zero (suc a) b p q = absurd (omega arith)
bit_xor_bound (suc w) a b p q = omega (
  arith,
  pow-suc 2 w,
  bit_xor_digit a b,
  differ_bound a b,
  bit_xor_bound w (a / 2) (b / 2) (omega (arith, pow-suc 2 w)) (omega (arith, pow-suc 2 w)),
)
