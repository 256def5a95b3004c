-- ===== src/Buffer/Static/Shrink.antt =====
-- The pops of `buffer_manager` in static mode, src/detail/buffer.cpp.
use libatbus.Base.{ℕ, Bool, true, false, ◌&&◌, Option, none, some, if◌then◌else◌, ◌==◌}
use libatbus.Status.{Status, success, no_data}
use libatbus.Buffer.Block.{left_size, block_pop}
use libatbus.Buffer.Manager.{clamp, settle}
use libatbus.Buffer.Static.{
  StaticBuffer, StaticManager, set_at, next_index, pre_index, static_empty, restart,
}

-- An empty ring is set back to its start.
unfoldable pub refresh : StaticBuffer → StaticBuffer
unfolding static_empty set_at
refresh b = if static_empty b then restart b else b

unfoldable pub freed_tail : ℕ → StaticBuffer → StaticBuffer
unfolding set_at
freed_tail index b = record b { circle_index = set_at b.tail none b.circle_index; tail = index }

unfoldable pub freed_head : StaticBuffer → StaticBuffer
unfolding set_at
freed_head b = record b {
  circle_index = set_at b.head none b.circle_index;
  head = next_index b b.head;
}

-- The end of the two pop functions.
unfoldable pub static_popped : StaticManager → Bool → StaticBuffer → ℕ → StaticManager × Status
unfolding refresh static_empty
static_popped m freed b s =
    (record { static_buffer = refresh b; limit = settle m.limit freed (static_empty b) s }, success)

-- Both pop functions, on the block at `p`; `free_end` takes it out of the ring.
unfoldable pub pop_at :
    StaticManager → (StaticBuffer → StaticBuffer) → ℕ → ℕ → Bool → StaticManager × Status
unfolding static_popped
pop_at m free_end p s free_unwritable =
    let b = m.static_buffer in
    let t = b.headers p in
    let t' = block_pop t (clamp s t) in
    let b' : StaticBuffer = record b { headers = set_at p t' b.headers } in
    if free_unwritable && left_size t' == 0
    then static_popped m true (free_end b') (clamp s t)
    else static_popped m false b' (clamp s t)

-- None would follow a null pointer.
unfoldable pub static_pop_back : StaticManager → ℕ → Bool → Option (StaticManager × Status)
unfolding freed_tail static_empty
static_pop_back m s free_unwritable =
    let b = m.static_buffer in
    let index = pre_index b b.tail in
    if static_empty b then some (m, no_data) else elim (b.circle_index index) [
      | none ↦ none
      | some p ↦ some (pop_at m (freed_tail index) p s free_unwritable)
    ]

unfoldable pub static_pop_front : StaticManager → ℕ → Bool → Option (StaticManager × Status)
unfolding freed_head static_empty
static_pop_front m s free_unwritable =
    let b = m.static_buffer in
    if static_empty b then some (m, no_data) else elim (b.circle_index b.head) [
      | none ↦ none
      | some p ↦ some (pop_at m freed_head p s free_unwritable)
    ]
