-- ===== src/Channel/Mem/Recv.antt =====
-- `mem_recv` of src/channel_mem.cpp, by the only reader.
use libatbus.Base.{
  ℕ, zero, suc, ◌+◌, ◌-◌, ◌%◌, not, ◌||◌, Option, none, some, List, [], ◌∷◌, ◌++◌, if◌then◌else◌,
  ◌==◌, leb, ltb,
}
use libatbus.Status.{
  Status, success, no_data, buff_limit, bad_data, node_bad_block_buff_size, node_bad_block_node_num,
  is_error,
}
use libatbus.Channel.Bytes.{read, load64}
use libatbus.Channel.Mem.{
  NodeHead, clear, MemChannel, node_data, block_data, block_room, mem_next_index, span, set_head,
  mem_calc_node_num, mem_fast_check,
}

-- The loop over the nodes of a block: it ends at `stop` or at another sequence.
unfoldable pub take_nodes : List ℕ → ℕ → ℕ → (ℕ → NodeHead) → (ℕ → NodeHead) × ℕ
take_nodes [] stop seq heads = (heads, stop)
take_nodes (i ∷ is) stop seq heads =
    let rest = take_nodes is stop seq (set_head i clear heads) in
    if (heads i).operation_seq == seq then rest else (heads, i)

-- The variables of the loop that looks for a block.
pub record Scan : Type 0 where
  pub channel : MemChannel
  pub read_begin_cur : ℕ
  pub ret : Status

-- What it ends with; `recv_size` where it has set it.
pub record Scanned : Type 0 where
  pub channel : MemChannel
  pub read_begin_cur : ℕ
  pub read_end_cur : ℕ
  pub ret : Status
  pub recv_size : Option ℕ

pub data Step : Type 0 where
  again : Scan → Step
  ended : Scanned → Step

-- `ret = ret ? ret : code`
unfoldable pub keep : Status → Status → Status
keep ret code = if is_error ret then ret else code

unfoldable pub stop_at : Scan → MemChannel → Status → Option ℕ → Step
unfolding keep
stop_at s c code size = ended (record {
  channel = c;
  read_begin_cur = s.read_begin_cur;
  read_end_cur = s.read_begin_cur;
  ret = keep s.ret code;
  recv_size = size;
})

-- `continue` behind the node.
unfoldable pub skip : Scan → MemChannel → Status → Step
skip s c ret = again (record {
  channel = record c { node_bad_count = c.node_bad_count + 1 };
  read_begin_cur = mem_next_index s.channel s.read_begin_cur 1;
  ret = ret;
})

abbrev distance : ℕ → ℕ → ℕ
distance a b = if ltb b a then a - b else b - a

-- A block that is not written to its end. The code compares with `block_timeout_count`.
unfoldable pub unfinished : ℕ → Scan → Step
unfolding stop_at skip
unfinished cnow s =
    let c = s.channel in
    if c.first_failed_writing_time == 0
    then stop_at s (record c { first_failed_writing_time = cnow }) no_data none
    else if ltb c.block_timeout_count (distance cnow c.first_failed_writing_time)
    then skip s
        (record c {
          block_bad_count = c.block_bad_count + 1;
          block_timeout_count = c.block_timeout_count + 1;
          first_failed_writing_time = 0;
        })
        s.ret
    else stop_at s c no_data none

-- The nodes of a block that fits the buffer.
unfoldable pub take_block : ℕ → Scan → ℕ → Step
unfolding take_nodes skip keep
take_block write_cur s size =
    let c = s.channel in
    let begin = s.read_begin_cur in
    let (heads, end_cur) =
      take_nodes (span c.node_count c.node_count begin write_cur) write_cur
        (c.heads begin).operation_seq c.heads in
    let c' : MemChannel = record c { heads = heads } in
    if mem_calc_node_num c size == (end_cur + c.node_count - begin) % c.node_count
    then ended (record {
      channel = c';
      read_begin_cur = begin;
      read_end_cur = end_cur;
      ret = s.ret;
      recv_size = none;
    })
    else skip s (record c' { block_bad_count = c.block_bad_count + 1 })
        (keep s.ret node_bad_block_node_num)

unfoldable pub check_block : ℕ → ℕ → Scan → ℕ → Step
unfolding stop_at skip take_block keep
check_block len write_cur s size =
    let c = s.channel in
    if (size == 0) || leb (c.area_end_offset - c.area_data_offset - c.conf.protect_memory_size) size
    then skip s c (keep s.ret node_bad_block_buff_size)
    else if ltb len size
    then stop_at s c buff_limit (some size)
    else take_block write_cur s size

-- One turn of the loop.
unfoldable pub scan_step : ℕ → ℕ → ℕ → Scan → Step
unfolding stop_at skip unfinished check_block
scan_step cnow len write_cur s =
    let c = s.channel in
    let head = c.heads s.read_begin_cur in
    if s.read_begin_cur == write_cur
    then stop_at s c no_data none
    else if not head.start
    then skip s c s.ret
    else if not head.writen
    then unfinished cnow s
    else check_block len write_cur s (load64 (node_data c s.read_begin_cur) c.memory)

-- The loop. It is given as many turns as there are nodes; `clock` tells the time in each.
unfoldable pub scan : (ℕ → ℕ) → ℕ → ℕ → ℕ → Scan → Option Scanned
unfolding scan_step
scan clock len write_cur zero s = none
scan clock len write_cur (suc turns) s = elim (scan_step (clock turns) len write_cur s) [
  | ended r ↦ some r
  | again s' ↦ scan clock len write_cur turns s'
]

pub record Received : Type 0 where
  pub channel : MemChannel
  pub ret : Status
  pub content : Option (List ℕ)
  pub recv_size : Option ℕ

-- The bytes of the block at the cursor, behind the end of the area from the first node on.
unfoldable pub get_data : MemChannel → ℕ → ℕ → List ℕ
get_data c begin size =
    let room = block_room c begin in
    if leb size room
    then read (block_data c begin) size c.memory
    else read (block_data c begin) room c.memory ++ read (node_data c 0) (size - room) c.memory

unfoldable pub clear_nodes : List ℕ → (ℕ → NodeHead) → ℕ → NodeHead
clear_nodes [] heads = heads
clear_nodes (i ∷ is) heads = clear_nodes is (set_head i clear heads)

-- The nodes that were passed over are reset, and the cursor is set.
unfoldable pub advance : ℕ → Scanned → MemChannel → MemChannel
unfolding clear_nodes
advance ori_read_cur r c = record c {
  read_cur = r.read_end_cur;
  heads = clear_nodes (span c.node_count c.node_count ori_read_cur r.read_begin_cur) c.heads;
}

unfoldable pub deliver : ℕ → Scanned → Received
unfolding get_data advance
deliver ori_read_cur r =
    let c = r.channel in
    let head = node_data c r.read_begin_cur in
    let size = load64 head c.memory in
    let content = get_data c r.read_begin_cur size in
    if is_error r.ret
    then record {
      channel = advance ori_read_cur r c;
      ret = r.ret;
      content = none;
      recv_size = r.recv_size;
    }
    else record {
      channel = advance ori_read_cur r (record c { first_failed_writing_time = 0 });
      ret = if mem_fast_check content == load64 (head + 8) c.memory then success else bad_data;
      content = some content;
      recv_size = some size;
    }

-- With a buffer of `len` bytes; none would be a loop that does not end.
unfoldable pub mem_recv : (ℕ → ℕ) → MemChannel → ℕ → Option Received
unfolding deliver scan
mem_recv clock c len =
    elim (scan clock len c.write_cur c.node_count
      (record { channel = c; read_begin_cur = c.read_cur; ret = success })) [
        | none ↦ none
        | some r ↦ some (deliver c.read_cur r)
      ]
