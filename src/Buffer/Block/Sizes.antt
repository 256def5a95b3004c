-- ===== src/Buffer/Block/Sizes.antt =====
-- The geometry of a block.
use libatbus.Base.{ℕ, ◌+◌, ◌%◌, ◌^◌, ◌≤◌, ◌<◌, ◌≡◌, some, arith}
use libatbus.Buffer.Block.{Block, full_size, create}

-- For sizes that leave room below 2 ^ 64, a full block is the header and the size rounded up to the
-- next multiple of eight.
pub full_size_bounds :
    (s : ℕ)
    → s + 32 ≤ 2 ^ 64
    → (24 + s ≤ full_size s) × (full_size s < 32 + s) × (full_size s % 8 ≡ 0)
unfolding full_size
full_size_bounds s h = ground arith

-- What `create` makes lies within the room given, its data behind the header.
pub create_bounds :
    (pointer s bs : ℕ) {b : Block} {next : ℕ}
    → bs + 32 ≤ 2 ^ 64
    → create pointer s bs ≡ some (b, next)
    → (pointer + 24 ≤ b.pointer) × (b.pointer + b.size ≤ next) × (next ≤ pointer + s)
unfolding create
create_bounds pointer s bs h e = ground arith
