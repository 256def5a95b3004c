-- ===== src/Channel/Bytes.antt =====
-- Memory as a function from addresses to bytes, with what the channels use of it: memcpy, memset and
-- the fields of 64 bits, which lie in memory with the lowest byte first.
pub mod Laws
use libatbus.Base.{ℕ, zero, suc, ◌+◌, ◌*◌, ◌/◌, ◌%◌, List, [], ◌∷◌, if◌then◌else◌, ◌==◌}

abbrev pub Memory : Type 0
Memory = ℕ → ℕ

pub memcpy : ℕ → List ℕ → Memory → Memory
memcpy dst [] m = m
memcpy dst (b ∷ bs) m = memcpy (dst + 1) bs (λ a. if a == dst then b else m a)

unfoldable pub read : ℕ → ℕ → Memory → List ℕ
read src zero m = []
read src (suc n) m = m src ∷ read (src + 1) n m

unfoldable pub bytes : ℕ → ℕ → List ℕ
bytes zero v = []
bytes (suc n) v = v % 256 ∷ bytes n (v / 256)

unfoldable pub value : List ℕ → ℕ
value [] = 0
value (b ∷ bs) = b + 256 * value bs

-- A `size_t` at an address.
abbrev pub store64 : ℕ → ℕ → Memory → Memory
store64 dst v m = memcpy dst (bytes 8 v) m

abbrev pub load64 : ℕ → Memory → ℕ
load64 src m = value (read src 8 m)
