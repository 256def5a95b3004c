-- ===== src/Crc.antt =====
-- The checksums of src/detail/crc32.cpp and src/detail/crc64.cpp on a list of bytes.
pub mod Table32
pub mod Table64
pub mod Bitwise
pub mod Whole
mod Tests
use Prim.Native.Nat.{bit_xor}
use libatbus.Base.{ℕ, zero, suc, ◌/◌, ◌%◌, ◌^◌, List, [], ◌∷◌}
use libatbus.Crc.Table32.{crc32_tab}
use libatbus.Crc.Table64.{crc64_tab}

-- An entry of a table; no index below 256 is out of its range.
abbrev pub entry : List ℕ → ℕ → ℕ
entry [] i = 0
entry (x ∷ xs) zero = x
entry (x ∷ xs) (suc i) = entry xs i

-- The loop over the bytes.
pub crc_loop : List ℕ → ℕ → List ℕ → ℕ
crc_loop tab crc [] = crc
crc_loop tab crc (byte ∷ s) =
    crc_loop tab (bit_xor (entry tab (bit_xor (crc % 256) byte)) (crc / 2 ^ 8)) s

unfoldable pub crc32 : ℕ → List ℕ → ℕ
unfolding crc_loop
crc32 crc s = crc_loop crc32_tab crc s

unfoldable pub crc64 : ℕ → List ℕ → ℕ
unfolding crc_loop
crc64 crc s = crc_loop crc64_tab crc s
