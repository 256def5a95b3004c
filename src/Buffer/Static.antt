-- ===== src/Buffer/Static.antt =====
-- `buffer_manager` of src/detail/buffer.cpp in static mode: the blocks stand in one piece of memory,
-- and a ring of pointers says where. (`static_buffer_.buffer_` is not null throughout.) The headers
-- of the blocks are a function of their addresses.
pub mod Grow
pub mod Shrink
pub mod Layout
pub mod Less
pub mod Separate
pub mod Slots
pub mod Opened
pub mod Pushed
pub mod Push
pub mod PushFront
pub mod View
pub mod PopFront
pub mod PopBack
mod Memory
mod Spec
mod Calls
mod Refine
mod Tests
use libatbus.Base.{
  ℕ, ◌+◌, ◌-◌, ◌%◌, Bool, true, false, ◌&&◌, ◌||◌, Option, none, some, if◌then◌else◌, ◌==◌, ltb,
  leb,
}
use libatbus.Status.{Status, success, no_data, buff_limit, malloc_failed, is_error}
use libatbus.Buffer.Block.{Block, padding_size, full_size, block_data, left_size, block_pop, create}
use libatbus.Buffer.Manager.{Limit, over_limit, charge, clamp, settle}

-- `static_buffer_t`, with the headers of the blocks in it.
pub record StaticBuffer : Type 0 where
  pub buffer : ℕ
  pub size : ℕ
  pub head : ℕ
  pub tail : ℕ
  pub circle_size : ℕ
  pub circle_index : ℕ → Option ℕ
  pub headers : ℕ → Block

pub record StaticManager : Type 0 where
  pub static_buffer : StaticBuffer
  pub limit : Limit

unfoldable pub set_at {ℓ} : {A : Type ℓ} → ℕ → A → (ℕ → A) → ℕ → A
set_at i v f j = if i == j then v else f j

-- `set_mode` where `::malloc` returns `ret`, which is not null; none is the dynamic mode.
unfoldable pub set_mode : ℕ → ℕ → ℕ → Option StaticManager
unfolding padding_size
set_mode ret max_size max_number =
    if (max_size == 0) || (max_number == 0)
    then none
    else some (record {
      static_buffer = record {
        buffer = ret;
        size = padding_size max_size;
        head = 0;
        tail = 0;
        circle_size = max_number + 1;
        circle_index = λ i. none;
        headers = λ p. record { size = 0; used = 0; pointer = 0 };
      };
      limit = record {
        cost_number = 0;
        cost_size = 0;
        limit_number = max_number;
        limit_size = max_size;
      };
    })

abbrev pub buffer_offset : ℕ → ℕ → ℕ
buffer_offset l r = if ltb l r then r - l else l - r

abbrev pub buffer_end : StaticBuffer → ℕ
buffer_end b = b.buffer + b.size

abbrev pub next_index : StaticBuffer → ℕ → ℕ
next_index b i = (i + 1) % b.circle_size

abbrev pub pre_index : StaticBuffer → ℕ → ℕ
pre_index b i = (i + b.circle_size - 1) % b.circle_size

unfoldable pub static_empty : StaticBuffer → Bool
static_empty b = b.head == b.tail

-- The first block goes to the start of the memory.
abbrev pub restart : StaticBuffer → StaticBuffer
restart b = record b { head = 0; tail = 0; circle_index = set_at 0 (some b.buffer) b.circle_index }

-- The pointers at the head and at the tail, and the buffer with both set.
unfoldable pub ends : StaticBuffer → StaticBuffer × ℕ × ℕ
unfolding set_at
ends b = elim (b.circle_index b.head) [
  | none ↦ (restart b, b.buffer, b.buffer)
  | some head ↦ elim (b.circle_index b.tail) [
    | none ↦ (restart b, b.buffer, b.buffer)
    | some tail ↦ (b, head, tail)
  ]
]
