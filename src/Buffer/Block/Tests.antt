-- ===== src/Buffer/Block/Tests.antt =====
-- A block for 100 bytes in a room of 200.
use libatbus.Base.{◌+◌, ◌%◌, ◌≤◌, ◌<◌, ◌≡◌, refl, some, arith}
use libatbus.Buffer.Block.{Block, create, full_size}
use libatbus.Buffer.Block.Sizes.{full_size_bounds, create_bounds}

abbrev made : Block
made = record { size = 100; used = 0; pointer = 1024 + 24 }

run : create 1024 200 100 ≡ some (made, 1024 + 128)
unfolding create full_size
run = refl

full_size_bounds_example :
    (24 + 100 ≤ full_size 100) × (full_size 100 < 32 + 100) × (full_size 100 % 8 ≡ 0)
full_size_bounds_example = full_size_bounds 100 (omega arith)

create_bounds_example :
    (1024 + 24 ≤ made.pointer) × (made.pointer + made.size ≤ 1024 + 128) × (1024 + 128 ≤ 1024 + 200)
create_bounds_example = create_bounds 1024 200 100 (omega arith) run
