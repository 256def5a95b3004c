-- ===== src/Buffer/Static/Grow.antt =====
-- The pushes of `buffer_manager` in static mode, src/detail/buffer.cpp.
use libatbus.Base.{ℕ, ◌+◌, ◌-◌, Option, none, some, if◌then◌else◌, ◌==◌, leb}
use libatbus.Status.{Status, success, buff_limit, malloc_failed, is_error}
use libatbus.Buffer.Block.{full_size, block_data, create}
use libatbus.Buffer.Manager.{over_limit, charge}
use libatbus.Buffer.Static.{
  StaticBuffer, StaticManager, set_at, buffer_offset, buffer_end, next_index, pre_index, ends,
}

-- `pointer`, the data of the block at an index.
unfoldable pub pointer_at : StaticBuffer → ℕ → Option ℕ
pointer_at b i = elim (b.circle_index i) [ none ↦ none | some p ↦ some (block_data (b.headers p)) ]

-- `create` at `start`, with the slots as they are assigned where it succeeds; then `add_tail` and
-- `assign_tail`.
unfoldable pub place_back :
    StaticBuffer → (ℕ → Option ℕ) → ℕ → ℕ → ℕ → StaticBuffer × Status × Option ℕ
unfolding pointer_at set_at
place_back b slots start room s = elim (create start room s) [
  | none ↦ (b, malloc_failed, none)
  | some (block, next_free) ↦
      let made : StaticBuffer = record b {
        headers = set_at start block b.headers;
        circle_index = slots;
      } in
      let tail = next_index b b.tail in
      (
        record made { tail = tail; circle_index = set_at tail (some next_free) slots },
        success,
        pointer_at made b.tail,
      )
]

-- Behind the tail, or at the start of the memory; the head always stays ahead.
unfoldable pub grow_back : StaticBuffer → ℕ → ℕ → ℕ → StaticBuffer × Status × Option ℕ
unfolding place_back set_at
grow_back b head tail s =
    let fs = full_size s in
    let to_end = buffer_offset tail (buffer_end b) in
    let to_head = buffer_offset b.buffer head in
    let between = buffer_offset tail head in
    if leb head tail
    then if leb fs to_end
      then place_back b b.circle_index tail to_end s
      else if leb to_head fs
      then (b, buff_limit, none)
      else place_back b (set_at b.tail (some b.buffer) b.circle_index) b.buffer to_head s
    else if leb between fs
    then (b, buff_limit, none)
    else place_back b b.circle_index tail between s

unfoldable pub static_push_back : StaticBuffer → ℕ → StaticBuffer × Status × Option ℕ
unfolding ends grow_back
static_push_back b s =
    let (o, head, tail) = ends b in
    if next_index b b.tail == b.head then (b, buff_limit, none) else grow_back o head tail s

-- `create` at `start`, and `sub_head`.
unfoldable pub place_front : StaticBuffer → ℕ → ℕ → StaticBuffer × Status × Option ℕ
unfolding pointer_at set_at
place_front b start s = elim (create start (full_size s) s) [
  | none ↦ (b, malloc_failed, none)
  | some (block, next_free) ↦
      let head = pre_index b b.head in
      let made : StaticBuffer = record b {
        headers = set_at start block b.headers;
        head = head;
        circle_index = set_at head (some start) b.circle_index;
      } in
      (made, success, pointer_at made head)
]

-- Before the head, or at the end of the memory; the tail always stays behind.
unfoldable pub grow_front : StaticBuffer → ℕ → ℕ → ℕ → StaticBuffer × Status × Option ℕ
unfolding place_front
grow_front b head tail s =
    let fs = full_size s in
    let to_head = buffer_offset head b.buffer in
    let to_end = buffer_offset tail (buffer_end b) in
    let between = buffer_offset tail head in
    if leb head tail
    then if leb fs to_head
      then place_front b (b.buffer + (to_head - fs)) s
      else if leb to_end fs
      then (b, buff_limit, none)
      else place_front b (tail + (to_end - fs)) s
    else if leb between fs
    then (b, buff_limit, none)
    else place_front b (tail + (between - fs)) s

unfoldable pub static_push_front : StaticBuffer → ℕ → StaticBuffer × Status × Option ℕ
unfolding ends grow_front
static_push_front b s =
    let (o, head, tail) = ends b in
    if next_index b b.tail == b.head then (b, buff_limit, none) else grow_front o head tail s

-- `if (res >= 0) { ++ limit_.cost_number_; limit_.cost_size_ += s; }`
unfoldable pub static_pushed :
    StaticManager → ℕ → StaticBuffer × Status × Option ℕ → StaticManager × Status × Option ℕ
static_pushed m s (b, res, pointer) =
    if is_error res
    then (record m { static_buffer = b }, res, pointer)
    else (record { static_buffer = b; limit = charge m.limit s }, res, pointer)

-- `push_back` and `push_front` of the manager.
unfoldable pub limited_push_back : StaticManager → ℕ → StaticManager × Status × Option ℕ
unfolding static_pushed static_push_back
limited_push_back m s =
    if over_limit m.limit s
    then (m, buff_limit, none)
    else static_pushed m s (static_push_back m.static_buffer s)

unfoldable pub limited_push_front : StaticManager → ℕ → StaticManager × Status × Option ℕ
unfolding static_pushed static_push_front
limited_push_front m s =
    if over_limit m.limit s
    then (m, buff_limit, none)
    else static_pushed m s (static_push_front m.static_buffer s)
