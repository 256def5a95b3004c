-- ===== src/Buffer/Manager/Tests.antt =====
-- A manager with two blocks and both limits set.
use libatbus.Base.{
  ℕ, ◌+◌, ◌≤◌, ◌<◌, ◌≡◌, ◌↔◌, ◌⊎◌, ◌≢◌, refl, Option, none, some, true, [], ◌∷◌, length, arith,
}
use libatbus.Status.{success, buff_limit, malloc_failed}
use libatbus.Buffer.Block.{Block, malloc, block_data}
use libatbus.Buffer.Manager.{
  Manager, Limit, reset, set_limit, push_back, push_front, pop_front, pop_back, front, back,
}
use libatbus.Buffer.Manager.Counts.{Sound, total}
use libatbus.Buffer.Manager.Push.{push_back-Sound, push_back_iff}
use libatbus.Buffer.Manager.Pop.{pop_front-Sound, pop_front-total}

abbrev first : Block
first = record { size = 16; used = 4; pointer = 1024 }

abbrev second : Block
second = record { size = 8; used = 0; pointer = 2048 }

abbrev limits : Limit
limits = record { cost_number = 2; cost_size = 20; limit_number = 3; limit_size = 32 }

abbrev fresh : Option ℕ
fresh = some 4096

abbrev two_blocks : Manager
two_blocks = record { dynamic_buffer = first ∷ second ∷ []; limit = limits }

runs :
    ((push_back two_blocks 12 (some 4096)).1 ≡ success)
    × ((push_back two_blocks 13 (some 4096)).1 ≡ buff_limit)
    × ((push_front two_blocks 12 none).1 ≡ malloc_failed)
    × ((pop_front two_blocks 12 true).0.dynamic_buffer ≡ second ∷ [])
    × ((pop_back two_blocks 3 true).0.limit.cost_size ≡ 17)
    × (front two_blocks ≡ (success, some 1028, 4, 12))
    × (back two_blocks ≡ (success, some 2048, 0, 8))
unfolding push_back push_front pop_front pop_back front back malloc block_data
runs = (refl, refl, refl, refl, refl, refl, refl)

resets :
    ((reset two_blocks).limit.limit_number ≡ 0)
    × ((set_limit two_blocks 64 8).0.limit.limit_size ≡ 64)
unfolding reset set_limit
resets = (refl, refl)

two_blocks-Sound : Sound two_blocks
two_blocks-Sound = ground arith

push_back-Sound_example : Sound (push_back two_blocks 12 (some 4096)).0
push_back-Sound_example = push_back-Sound two_blocks 12 fresh two_blocks-Sound (omega arith)

push_back_iff_example : ((push_back two_blocks 12 fresh).1 ≡ success) ↔ (
    ((limits.limit_number ≡ 0) ⊎ (length two_blocks.dynamic_buffer < limits.limit_number))
    × ((limits.limit_size ≡ 0) ⊎ (total two_blocks.dynamic_buffer + 12 ≤ limits.limit_size))
    × (fresh ≢ none))
push_back_iff_example = push_back_iff two_blocks 12 fresh two_blocks-Sound (omega arith)

pop_front-Sound_example : Sound (pop_front two_blocks 12 true).0
pop_front-Sound_example = pop_front-Sound two_blocks 12 true two_blocks-Sound

pop_front-total_example : total (pop_front two_blocks 7 true).0.dynamic_buffer + 7 ≡ 20
pop_front-total_example = pop_front-total two_blocks first (second ∷ []) 7 true refl (omega arith)
