-- ===== src/Buffer/Block.antt =====
-- `buffer_block` of src/detail/buffer.cpp: a header in front of its data. A `size_t` has 64 bits,
-- so `sizeof(size_t)` is 8 and `sizeof(buffer_block)` is 24. Addresses are numbers; the bytes that
-- a block holds belong to its users, and are not modelled.
pub mod Sizes
mod Tests
use libatbus.Base.{ℕ, ◌+◌, ◌-◌, ◌%◌, ◌^◌, Option, none, some, if◌then◌else◌, ◌==◌, ltb}

pub record Block : Type 0 where
  pub size : ℕ
  pub used : ℕ
  pub pointer : ℕ

abbrev pub add_size : ℕ → ℕ → ℕ
add_size a b = (a + b) % 2 ^ 64

unfoldable pub padding_size : ℕ → ℕ
padding_size s = let pl = s % 8 in if 0 == pl then s else add_size s 8 - pl

unfoldable pub head_size : ℕ → ℕ
unfolding padding_size
head_size s = padding_size 24

unfoldable pub full_size : ℕ → ℕ
unfolding head_size padding_size
full_size s = add_size (head_size s) (padding_size s)

-- `buffer_block::data`
unfoldable pub block_data : Block → ℕ
block_data b = b.pointer + b.used

-- `buffer_block::size`, what is left of the block. `used` never passes `size`.
abbrev pub left_size : Block → ℕ
left_size b = b.size - b.used

-- `buffer_block::pop`
unfoldable pub block_pop : Block → ℕ → Block
block_pop b s =
    if ltb b.size (add_size b.used s)
    then record b { used = b.size }
    else record b { used = add_size b.used s }

-- `buffer_block::create`: the block at an address that is not null, and the address behind it.
unfoldable pub create : ℕ → ℕ → ℕ → Option (Block × ℕ)
unfolding full_size head_size
create pointer s bs =
    let fs = full_size bs in
    let hs = head_size bs in
    if ltb s fs
    then none
    else some (record { size = bs; used = 0; pointer = pointer + hs }, pointer + fs)

-- `buffer_block::malloc`, with the result of `::malloc`.
unfoldable pub malloc : Option ℕ → ℕ → Option Block
unfolding create full_size
malloc none s = none
malloc (some ret) s = elim (create ret (full_size s) s) [ none ↦ none | some (b, _) ↦ some b ]
