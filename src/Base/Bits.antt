-- ===== src/Base/Bits.antt =====
-- `&` with a high mask and `|` with a low mask, as arithmetic, and the masks on one byte.
use Prim.Native.Nat.{ℕ, zero, suc, ◌+◌, ◌-◌, ◌*◌, ◌/◌, ◌%◌, ◌^◌, ◌≤◌, ◌<◌}
use Prim.Native.Nat.{min, max, bit_and, bit_or, digits, bitwise, bit_and-bitwise, bit_or-bitwise}
use mathlib.Core.Path.{◌≡◌, refl, ap}
use mathlib.Core.Bool.{Bool, true, false}
use native.Mathlib.Nat.{pow-suc, one-le-pow, div-div-eq-div-mul, mul_comm}
use native.Mathlib.Omega.{arith}
use libatbus.Base.Tests.{◌==◌, if◌then◌else◌}

-- The native operations mean a recursion on binary digits with fuel. More fuel changes nothing.
module _ (z : ℕ → ℕ) (f : ℕ → ℕ → ℕ) where
  digits_fuel : (m n a b : ℕ) → a ≤ m → a ≤ n → digits z f m a b ≡ digits z f n a b
  digits_fuel zero zero zero b p q = refl
  digits_fuel zero (suc n) zero b p q = refl
  digits_fuel (suc m) zero zero b p q = refl
  digits_fuel (suc m) (suc n) zero b p q = refl
  digits_fuel zero n (suc a) b p q = absurd (omega arith)
  digits_fuel (suc m) zero (suc a) b p q = absurd (omega arith)
  digits_fuel (suc m) (suc n) (suc a) b p q =
      ap (λ d. d * 2 + f (suc a % 2) (b % 2))
        (digits_fuel m n (suc a / 2) (b / 2) (omega arith) (omega arith))

  pub bitwise_digit :
      (a b : ℕ)
      → bitwise z f (suc a) b ≡ bitwise z f (suc a / 2) (b / 2) * 2 + f (suc a % 2) (b % 2)
  bitwise_digit a b =
      ap (λ d. d * 2 + f (suc a % 2) (b % 2))
        (digits_fuel a (suc a / 2) (suc a / 2) (b / 2) (omega arith) (omega arith))

-- One binary digit of `|` and of `&`.
pub bit_or_digit : (a b : ℕ) → bit_or a b ≡ bit_or (a / 2) (b / 2) * 2 + max (a % 2) (b % 2)
bit_or_digit zero b = omega (arith, bit_or-bitwise 0 b, bit_or-bitwise 0 (b / 2))
bit_or_digit (suc a) b = simp bit_or-bitwise (bitwise_digit (λ y. y) max a b)

pub bit_and_digit : (a b : ℕ) → bit_and a b ≡ bit_and (a / 2) (b / 2) * 2 + min (a % 2) (b % 2)
bit_and_digit zero b = omega (arith, bit_and-bitwise 0 b, bit_and-bitwise 0 (b / 2))
bit_and_digit (suc a) b = simp bit_and-bitwise (bitwise_digit (λ y. 0) min a b)

-- `x` with its `k` low bits cleared.
abbrev pub round_down : ℕ → ℕ → ℕ
round_down k x = x / 2 ^ k * 2 ^ k

pub halve : (p x : ℕ) → x / (p * 2) * (p * 2) ≡ 2 * (x / 2 / p * p)
halve p x = rw (div-div-eq-div-mul x 2 p, mul_comm 2 p) (omega arith)

round_down-suc : (k x : ℕ) → round_down (suc k) x ≡ 2 * round_down k (x / 2)
round_down-suc k x = rw pow-suc (halve (2 ^ k) x)

bit_or-zero : (n x : ℕ) → x ≤ n → bit_or x 0 ≡ x
bit_or-zero n zero h = omega (arith, bit_or-bitwise 0 0)
bit_or-zero zero (suc x) h = absurd (omega arith)
bit_or-zero (suc n) (suc x) h =
    omega (arith, bit_or_digit (suc x) 0, bit_or-zero n (suc x / 2) (omega arith))

bit_and-zero : (n x : ℕ) → x ≤ n → bit_and x 0 ≡ 0
bit_and-zero n zero h = omega (arith, bit_and-bitwise 0 0)
bit_and-zero zero (suc x) h = absurd (omega arith)
bit_and-zero (suc n) (suc x) h =
    omega (arith, bit_and_digit (suc x) 0, bit_and-zero n (suc x / 2) (omega arith))

half_of : (x y : ℕ) → x ≡ 2 * y → x / 2 ≡ y
half_of x y h = omega arith

-- `x | m`, where `m` has ones at the places below `k`.
pub bit_or-low_mask : (k x : ℕ) → bit_or x (2 ^ k - 1) ≡ round_down k x + (2 ^ k - 1)
bit_or-low_mask zero x = omega (arith, bit_or-zero x x (omega arith))
bit_or-low_mask (suc k) x = omega (
  arith,
  bit_or_digit x (2 ^ suc k - 1),
  round_down-suc k x,
  pow-suc 2 k,
  one-le-pow k 2,
  ap (bit_or (x / 2)) below,
  bit_or-low_mask k (x / 2),
)
  where
    below : (2 ^ suc k - 1) / 2 ≡ 2 ^ k - 1
    below = omega (arith, pow-suc 2 k, one-le-pow k 2)

bit_and-ones : (w x : ℕ) → x < 2 ^ w → bit_and x (2 ^ w - 1) ≡ x
bit_and-ones zero x h = omega (arith, bit_and-zero x x (omega arith))
bit_and-ones (suc w) x h = omega (
  arith,
  bit_and_digit x (2 ^ suc w - 1),
  pow-suc 2 w,
  one-le-pow w 2,
  ap (bit_and (x / 2)) below,
  bit_and-ones w (x / 2) (omega (arith, pow-suc 2 w)),
)
  where
    below : (2 ^ suc w - 1) / 2 ≡ 2 ^ w - 1
    below = omega (arith, pow-suc 2 w, one-le-pow w 2)

-- `x & m`, where `m` has ones at the places `k` to `w - 1`.
pub bit_and-high_mask : (k w x : ℕ) → k ≤ w → x < 2 ^ w → bit_and x (2 ^ w - 2 ^ k) ≡ round_down k x
bit_and-high_mask zero w x h b = omega (arith, bit_and-ones w x b)
bit_and-high_mask (suc k) zero x h b = absurd (omega arith)
bit_and-high_mask (suc k) (suc w) x h b = omega (
  arith,
  bit_and_digit x (2 ^ suc w - 2 ^ suc k),
  round_down-suc k x,
  pow-suc 2 k,
  pow-suc 2 w,
  ap (bit_and (x / 2)) below,
  bit_and-high_mask k w (x / 2) (omega arith) (omega (arith, pow-suc 2 w)),
)
  where
    below : (2 ^ suc w - 2 ^ suc k) / 2 ≡ 2 ^ w - 2 ^ k
    below = omega (arith, pow-suc 2 w, pow-suc 2 k)

-- The masks on one byte, checked value by value.
module _ (f g : ℕ → ℕ) where
  agree_below : ℕ → Bool
  agree_below zero = true
  agree_below (suc n) = if f n == g n then agree_below n else false

  agree_below→eq : (n i : ℕ) → agree_below n ≡ true → i < n → f i ≡ g i
  unfolding agree_below
  agree_below→eq zero i e h = absurd (omega arith)
  agree_below→eq (suc n) i e h = ground (arith, agree_below→eq n i)

zero-bit_and : (x : ℕ) → bit_and 0 x ≡ 0
zero-bit_and x = bit_and-bitwise 0 x

low_1 : (x : ℕ) → bit_and 0x1 x ≡ x % 2
low_1 x = omega (arith, bit_and_digit 1 x, zero-bit_and (x / 2))

low_3 : (x : ℕ) → bit_and 0x3 x ≡ x % 4
low_3 x = omega (arith, bit_and_digit 3 x, low_1 (x / 2))

low_7 : (x : ℕ) → bit_and 0x7 x ≡ x % 8
low_7 x = omega (arith, bit_and_digit 7 x, low_3 (x / 2))

low_15 : (x : ℕ) → bit_and 0xf x ≡ x % 16
low_15 x = omega (arith, bit_and_digit 15 x, low_7 (x / 2))

low_31 : (x : ℕ) → bit_and 0x1f x ≡ x % 32
low_31 x = omega (arith, bit_and_digit 31 x, low_15 (x / 2))

low_63 : (x : ℕ) → bit_and 0x3f x ≡ x % 64
low_63 x = omega (arith, bit_and_digit 63 x, low_31 (x / 2))

-- The seven low places of any number.
pub low_bits : (x : ℕ) → bit_and 0x7f x ≡ x % 128
low_bits x = omega (arith, bit_and_digit 127 x, low_63 (x / 2))

pub top_bit : (b : ℕ) → b < 256 → bit_and 0x80 b ≡ b / 128 * 128
unfolding agree_below
top_bit b = agree_below→eq (bit_and 0x80) (λ b. b / 128 * 128) 256 b refl

pub set_top_bit : (b : ℕ) → b < 128 → bit_or 0x80 b ≡ b + 128
unfolding agree_below
set_top_bit b = agree_below→eq (bit_or 0x80) (λ b. b + 128) 128 b refl

-- `(q << k) | r` is a sum where `r` has no place from `k` on.
pub bit_or_fields : (k q r : ℕ) → r < 2 ^ k → bit_or (q * 2 ^ k) r ≡ q * 2 ^ k + r
bit_or_fields zero q r h = ground (arith, bit_or-zero q q)
bit_or_fields (suc k) q r h = omega (
  arith,
  pow-suc 2 k,
  ap (λ (t : ℕ). q * t) (pow-suc 2 k),
  bit_or_digit (q * 2 ^ suc k) r,
  ap (λ (t : ℕ). bit_or t (r / 2)) (half_of (q * 2 ^ suc k) (q * 2 ^ k) doubled),
  bit_or_fields k q (r / 2) (omega (arith, pow-suc 2 k)),
)
  where
    doubled : q * 2 ^ suc k ≡ 2 * (q * 2 ^ k)
    doubled = omega (arith, ap (λ (t : ℕ). q * t) (pow-suc 2 k))
