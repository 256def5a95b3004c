-- ===== src/Channel/Mem/Send.antt =====
-- `mem_send_real` and `mem_send` of src/channel_mem.cpp, by the only writer.
use libatbus.Base.{
  take, drop, ℕ, zero, suc, ◌+◌, ◌-◌, ◌%◌, ◌^◌, Bool, true, false, not, ◌&&◌, Option, none, some,
  List, [], ◌∷◌, length, if◌then◌else◌, ◌==◌, leb, ltb,
}
use libatbus.Status.{
  Status, success, params, buff_limit, node_bad_block_wseq_id, node_bad_block_cseq_id,
}
use libatbus.Channel.Bytes.{Memory, memcpy, store64}
use libatbus.Channel.Mem.{
  NodeHead, MemChannel, node_data, block_data, block_room, mem_next_index, span, set_head,
  mem_fetch_operation_seq, mem_calc_node_num, mem_fast_check,
}

-- The nodes of a block after its first. A sequence that is there already stops the loop.
unfoldable pub mark : List ℕ → ℕ → (ℕ → NodeHead) → (ℕ → NodeHead) × Bool
mark [] seq heads = (heads, true)
mark (i ∷ is) seq heads =
    let (heads', ok) =
      mark is seq (set_head i (record (heads i) { writen = true; operation_seq = seq }) heads) in
    if (heads i).operation_seq == 0 then (heads', ok) else (heads, false)

-- The data of a block, behind the end of the area from the first node on.
unfoldable pub put_data : MemChannel → ℕ → ℕ → List ℕ → Memory → Memory
put_data c write_cur new_write_cur buf m =
    let room = block_room c write_cur in
    let copy_len = if ltb room (length buf) then room else length buf in
    if not (new_write_cur == 0) && ltb new_write_cur write_cur
    then memcpy (node_data c 0) (drop copy_len buf)
        (memcpy (block_data c write_cur) (take copy_len buf) m)
    else memcpy (block_data c write_cur) buf m

-- The last part, on the nodes that the write cursor has passed.
unfoldable pub fill : MemChannel → ℕ → ℕ → ℕ → List ℕ → MemChannel × Status
unfolding mark put_data
fill c write_cur new_write_cur seq buf =
    let head = node_data c write_cur in
    let zeroed = store64 head 0 (store64 (head + 8) 0 c.memory) in
    let first =
      set_head write_cur (record (c.heads write_cur) { start = true; operation_seq = seq })
        c.heads in
    let (marked, ok) =
      mark (span c.node_count c.node_count (mem_next_index c write_cur 1) new_write_cur) seq
        first in
    let sized = store64 head (length buf) zeroed in
    let written =
      store64 (head + 8) (mem_fast_check buf) (put_data c write_cur new_write_cur buf sized) in
    let last = set_head write_cur (record (marked write_cur) { writen = true }) marked in
    if not ok then (record c { heads = marked; memory = zeroed }, node_bad_block_wseq_id) else (
      record c { heads = last; memory = written },
      if (last write_cur).operation_seq == seq then success else node_bad_block_cseq_id,
    )

-- The nodes that a writer may take: one stays empty, and the protected ones stay behind.
unfoldable pub available : MemChannel → ℕ
available c =
    let free = (c.read_cur + c.node_count - c.write_cur - 1) % c.node_count in
    if leb c.conf.protect_node_count free then free - c.conf.protect_node_count else 0

-- A difference of `size_t`.
abbrev pub minus64 : ℕ → ℕ → ℕ
minus64 a b = (a + 2 ^ 64 - b) % 2 ^ 64

unfoldable pub mem_send_real : MemChannel → List ℕ → MemChannel × Status
unfolding fill available mem_fetch_operation_seq mem_calc_node_num
mem_send_real c buf =
    let node_count = mem_calc_node_num c (length buf) in
    let (c', seq) = mem_fetch_operation_seq c in
    let new_write_cur = (c.write_cur + node_count) % c.node_count in
    if length buf == 0
    then (c, success)
    else if leb (minus64 c.node_count c.conf.protect_node_count) node_count
    then (c, buff_limit)
    else if ltb (available c') node_count
    then (c', buff_limit)
    else fill (record c' { write_cur = new_write_cur }) c.write_cur new_write_cur seq buf

unfoldable pub is_conflict : Status → Bool
is_conflict node_bad_block_wseq_id = true
is_conflict node_bad_block_cseq_id = true
is_conflict _ = false

-- The loop of `mem_send`. When the tries run out the outer `ret`, which is still 0, is returned.
unfoldable pub try : ℕ → MemChannel → List ℕ → MemChannel × Status
unfolding is_conflict mem_send_real
try zero c buf = (c, success)
try (suc left_try_times) c buf =
    let (c', ret) = mem_send_real c buf in
    let again = try left_try_times c' buf in if is_conflict ret then again else (c', ret)

unfoldable pub mem_send : Option MemChannel → List ℕ → Option MemChannel × Status
unfolding try
mem_send none buf = (none, params)
mem_send (some c) buf = let (c', ret) = try c.conf.write_retry_times c buf in (some c', ret)
