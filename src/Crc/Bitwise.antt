-- ===== src/Crc/Bitwise.antt =====
-- The tables, and the sums of whole texts, against the division that they stand for, one bit at a time.
use Prim.Native.Nat.{bit_xor}
use libatbus.Base.{
  ℕ, zero, suc, ◌+◌, length, ◌/◌, ◌%◌, ◌<◌, ◌≡◌, refl, ap, Bool, true, false, List, [], ◌∷◌,
  if◌then◌else◌, ◌==◌, arith,
}
use libatbus.Crc.Table32.{crc32_tab}
use libatbus.Crc.Table64.{crc64_tab}
use libatbus.Crc.{entry}

-- `k` steps of the division by the polynomial `p`, whose lowest coefficient is the highest bit.
unfoldable pub divide : ℕ → ℕ → ℕ → ℕ
divide p zero n = n
divide p (suc k) n = divide p k (if n % 2 == 0 then n / 2 else bit_xor (n / 2) p)

agrees : (ℕ → ℕ) → ℕ → List ℕ → Bool
agrees f i [] = true
agrees f i (x ∷ xs) = if f i == x then agrees f (suc i) xs else false

agrees_at :
    (f : ℕ → ℕ) (xs : List ℕ) (from i j : ℕ)
    → agrees f from xs ≡ true
    → i < length xs
    → from + i ≡ j
    → entry xs i ≡ f j
unfolding agrees
agrees_at f [] from i j e h eq = absurd (omega arith)
agrees_at f (x ∷ xs) from zero j e h eq =
    let here : from ≡ j = omega arith in ground (arith, ap f here)
agrees_at f (x ∷ xs) from (suc i) j e h eq =
    agrees_at f xs (suc from) i j (ground arith) (omega arith) (omega arith)

-- Each entry of the table of `crc32` is its index divided by the polynomial of CRC-32.
pub crc32_tab-entry : (i : ℕ) → i < 256 → entry crc32_tab i ≡ divide 0xedb88320 8 i
unfolding agrees divide crc32_tab
crc32_tab-entry i h = agrees_at (divide 0xedb88320 8) crc32_tab 0 i i refl h (omega arith)

-- Each entry of the table of `crc64` is its index divided by the polynomial of CRC-64 (Jones).
pub crc64_tab-entry : (i : ℕ) → i < 256 → entry crc64_tab i ≡ divide 0x95ac9329ac4bc9b5 8 i
unfolding agrees divide crc64_tab
crc64_tab-entry i h = agrees_at (divide 0x95ac9329ac4bc9b5 8) crc64_tab 0 i i refl h (omega arith)
