-- ===== src/Crc/Whole.antt =====
-- The checksum of a text by the tables is the division of the text, one bit at a time.
use Prim.Native.Nat.{bit_xor, differ}
use native.Mathlib.Nat.{pow-suc, div-div-eq-div-mul, mul_comm, div-add-mod'}
use libatbus.Base.{
  ℕ, zero, suc, ◌*◌, ◌/◌, ◌%◌, ◌^◌, ◌<◌, ◌≡◌, refl, sym, ap, ap₂, ◌∙◌, Bool, true, false, List, [],
  ◌∷◌, All, if◌then◌else◌, ◌==◌, arith,
}
use libatbus.Base.Bits.{halve}
use libatbus.Base.Xor.{zero-bit_xor, half, parity, bit_xor_comm, bit_xor_assoc, bit_xor_bound}
use libatbus.Crc.Table32.{crc32_tab}
use libatbus.Crc.Table64.{crc64_tab}
use libatbus.Crc.{entry, crc_loop, crc32, crc64}
use libatbus.Crc.Bitwise.{divide, crc32_tab-entry, crc64_tab-entry}

-- The lowest place of a number, and the others, below a limit.
low_half : (k x : ℕ) → x % 2 ^ suc k / 2 ≡ x / 2 % 2 ^ k
low_half k x = omega (
  arith,
  ap (λ m. x % m) (pow-suc 2 k),
  div-add-mod' x (2 ^ k * 2),
  div-add-mod' (x / 2) (2 ^ k),
  halve (2 ^ k) x,
)

low_digit : (k x : ℕ) → x % 2 ^ suc k % 2 ≡ x % 2
low_digit k x =
    omega (arith, ap (λ m. x % m) (pow-suc 2 k), div-add-mod' x (2 ^ k * 2), halve (2 ^ k) x)

high_places : (k x : ℕ) → x / 2 / 2 ^ k ≡ x / 2 ^ suc k
high_places k x =
    div-div-eq-div-mul x 2 (2 ^ k) ∙ ap (λ m. x / m) (mul_comm 2 (2 ^ k) ∙ sym (pow-suc 2 k))

-- A step of the division looks at the lowest place only.
divide_turn : ℕ → ℕ → Bool → ℕ → ℕ
divide_turn p k even q = divide p k (if even then q else bit_xor q p)

divide-suc : (p k n : ℕ) → divide p (suc k) n ≡ divide_turn p k (n % 2 == 0) (n / 2)
unfolding divide divide_turn
divide-suc p k n = refl

-- The places from `k` on pass through `k` steps of the division unchanged.
abbrev Passes : ℕ → ℕ → Type 0
Passes p k =
    (x y : ℕ) → divide p k (bit_xor x y) ≡ bit_xor (divide p k (bit_xor (x % 2 ^ k) y)) (x / 2 ^ k)

turn-bit_xor :
    (p k : ℕ) (even : Bool) (x y : ℕ)
    → Passes p k
    → divide_turn p k even (bit_xor x y)
      ≡ bit_xor (divide_turn p k even (bit_xor (x % 2 ^ k) y)) (x / 2 ^ k)
unfolding divide_turn
turn-bit_xor p k true x y passes = passes x y
turn-bit_xor p k false x y passes =
    ap (divide p k) (bit_xor_assoc x y p)
    ∙ passes x (bit_xor y p)
    ∙ ap (λ t. bit_xor (divide p k t) (x / 2 ^ k)) (sym (bit_xor_assoc (x % 2 ^ k) y p))

-- The remainder has the lowest place of the whole, and so has what is put into it.
same_digit : (k x y : ℕ) → bit_xor (x % 2 ^ suc k) y % 2 ≡ bit_xor x y % 2
same_digit k x y =
    parity (x % 2 ^ suc k) y ∙ ap (λ d. differ d (y % 2)) (low_digit k x) ∙ sym (parity x y)

same_places : (k x y : ℕ) → bit_xor (x % 2 ^ suc k) y / 2 ≡ bit_xor (x / 2 % 2 ^ k) (y / 2)
same_places k x y = half (x % 2 ^ suc k) y ∙ ap (λ t. bit_xor t (y / 2)) (low_half k x)

divide-bit_xor : (p k : ℕ) → Passes p k
unfolding divide
divide-bit_xor p zero x y =
    bit_xor_comm x y ∙ ap₂ bit_xor (sym (zero-bit_xor y) ∙ ap (λ t. bit_xor t y) none_below) whole
  where
    none_below : 0 ≡ x % 2 ^ 0
    none_below = omega arith

    whole : x ≡ x / 2 ^ 0
    whole = omega arith
divide-bit_xor p (suc k) x y =
    let even = bit_xor x y % 2 == 0 in
    divide-suc p k (bit_xor x y)
    ∙ ap (divide_turn p k even) (half x y)
    ∙ turn-bit_xor p k even (x / 2) (y / 2) (divide-bit_xor p k)
    ∙ ap₂ bit_xor
        (sym (
          divide-suc p k (bit_xor (x % 2 ^ suc k) y)
          ∙ ap₂ (divide_turn p k) (ap (λ d. d == 0) (same_digit k x y)) (same_places k x y)))
        (high_places k x)

-- The division of the bytes of a text, each put into the low places first.
pub division : ℕ → ℕ → List ℕ → ℕ
unfolding divide
division p crc [] = crc
division p crc (byte ∷ s) = division p (divide p 8 (bit_xor crc byte)) s

module _ (p : ℕ) (tab : List ℕ) (entries : (i : ℕ) → i < 256 → entry tab i ≡ divide p 8 i) where
  one_byte :
      (crc byte : ℕ)
      → byte < 256
      → bit_xor (entry tab (bit_xor (crc % 256) byte)) (crc / 2 ^ 8) ≡ divide p 8 (bit_xor crc byte)
  one_byte crc byte h =
      ap (λ t. bit_xor t (crc / 2 ^ 8))
        (entries (bit_xor (crc % 256) byte) (bit_xor_bound 8 (crc % 256) byte (omega arith) h))
      ∙ sym (divide-bit_xor p 8 crc byte)

  whole_text : (crc : ℕ) (s : List ℕ) → All (λ c. c < 256) s → crc_loop tab crc s ≡ division p crc s
  unfolding crc_loop division
  whole_text crc [] h = refl
  whole_text crc (byte ∷ s) (h, hs) =
      ap (λ t. crc_loop tab t s) (one_byte crc byte h)
      ∙ whole_text (divide p 8 (bit_xor crc byte)) s hs

-- For bytes, crc32 and crc64 from any start are the division of the text by the polynomials of CRC-32
-- and of CRC-64 (Jones), one bit at a time.
pub crc_division :
    (crc : ℕ) (s : List ℕ)
    → All (λ c. c < 256) s
    → (crc32 crc s ≡ division 0xedb88320 crc s) × (crc64 crc s ≡ division 0x95ac9329ac4bc9b5 crc s)
unfolding crc32 crc64
crc_division crc s h = (
  whole_text 0xedb88320 crc32_tab crc32_tab-entry crc s h,
  whole_text 0x95ac9329ac4bc9b5 crc64_tab crc64_tab-entry crc s h,
)
