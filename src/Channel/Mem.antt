-- ===== src/Channel/Mem.antt =====
-- The memory channel of src/channel_mem.cpp: its header, its geometry and what its operations share.
-- The type size_t has 64 bits, a node of data has 128 bytes. Addresses count from the channel.
pub mod Ring
pub mod Heads
pub mod Layout
pub mod Reading
pub mod Writing
pub mod Blocks
pub mod Frame
pub mod Cells
pub mod Queue
pub mod Room
pub mod Enqueue
pub mod Fifo
pub mod Calls
pub mod Stands
mod Puts
mod Gets
mod Refine
pub mod OneBlock
mod Geometry
mod Tests
pub mod Send
pub mod Recv
pub mod Ending
use libatbus.Base.{
  ℕ, zero, suc, ◌+◌, ◌-◌, ◌*◌, ◌/◌, ◌%◌, ◌^◌, Bool, true, false, Option, none, some, List, [], ◌∷◌,
  if◌then◌else◌, ◌==◌, leb, ltb,
}
use libatbus.Status.{Status, success, channel_size_too_small}
use libatbus.Crc.{crc64}
use libatbus.Channel.Bytes.{Memory, store64}

-- `mem_node_head`: the flags MF_START_NODE and MF_WRITEN, and the sequence.
pub record NodeHead : Type 0 where
  pub start : Bool
  pub writen : Bool
  pub operation_seq : ℕ

abbrev pub clear : NodeHead
clear = record { start = false; writen = false; operation_seq = 0 }

pub record MemConf : Type 0 where
  pub protect_node_count : ℕ
  pub protect_memory_size : ℕ
  pub conf_send_timeout_ms : ℕ
  pub write_retry_times : ℕ

-- `mem_channel` with the heads of the nodes and the memory of the data.
pub record MemChannel : Type 0 where
  pub node_size : ℕ
  pub node_size_bin_power : ℕ
  pub node_count : ℕ
  pub read_cur : ℕ
  pub write_cur : ℕ
  pub first_failed_writing_time : ℕ
  pub operation_seq : ℕ
  pub conf : MemConf
  pub area_head_offset : ℕ
  pub area_data_offset : ℕ
  pub area_end_offset : ℕ
  pub block_bad_count : ℕ
  pub block_timeout_count : ℕ
  pub node_bad_count : ℕ
  pub heads : ℕ → NodeHead
  pub memory : Memory

abbrev pub node_data_size : ℕ
node_data_size = 128

abbrev pub node_head_size : ℕ
node_head_size = 8

abbrev pub block_head_size : ℕ
block_head_size = 16

abbrev pub channel_head_size : ℕ
channel_head_size = 4096

-- `mem_default_conf` on the zeroed configuration of a channel with `node_count` nodes.
unfoldable pub mem_default_conf : ℕ → MemConf
mem_default_conf node_count =
    let eighth = node_count / 2 ^ 7 in
    let count = if ltb node_count eighth then node_count else eighth in
    record {
      protect_node_count = count;
      protect_memory_size = count * node_data_size;
      conf_send_timeout_ms = 4;
      write_retry_times = 4;
    }

-- `while (node_size > 1)` on seven halvings of 128, and more than enough of them.
pub bin_power : ℕ → ℕ → ℕ
bin_power zero n = 0
bin_power (suc fuel) n = if ltb 1 n then suc (bin_power fuel (n / 2)) else 0

-- `mem_init` without a configuration.
unfoldable pub mem_init : ℕ → Option MemChannel × Status
unfolding bin_power mem_default_conf
mem_init len =
    let node_count = (len - channel_head_size) / (node_data_size + node_head_size) in
    let area_data_offset = channel_head_size + node_count * node_head_size in
    if ltb len (channel_head_size + node_data_size + node_head_size)
    then (none, channel_size_too_small)
    else (
      some (record {
        node_size = node_data_size;
        node_size_bin_power = bin_power 64 node_data_size;
        node_count = node_count;
        read_cur = 0;
        write_cur = 0;
        first_failed_writing_time = 0;
        operation_seq = 0;
        conf = mem_default_conf node_count;
        area_head_offset = channel_head_size;
        area_data_offset = area_data_offset;
        area_end_offset = area_data_offset + node_count * node_data_size;
        block_bad_count = 0;
        block_timeout_count = 0;
        node_bad_count = 0;
        heads = λ i. clear;
        memory = λ a. 0;
      }),
      success,
    )

-- The address of a node's data, and of the data of a block that starts there.
abbrev pub node_data : MemChannel → ℕ → ℕ
node_data c index = c.area_data_offset + index * node_data_size

abbrev pub block_data : MemChannel → ℕ → ℕ
block_data c index = node_data c index + block_head_size

-- `data_len` of `mem_get_block_head`: from a block's data to the end of the area.
abbrev pub block_room : MemChannel → ℕ → ℕ
block_room c index = c.area_end_offset - block_data c index

pub mem_next_index : MemChannel → ℕ → ℕ → ℕ
mem_next_index c index offset = (index + offset) % c.node_count

-- The loop `for (i = from; i != stop; i = mem_next_index(channel, i, 1))` on the indices of a ring.
pub span : ℕ → ℕ → ℕ → ℕ → List ℕ
span zero node_count i stop = []
span (suc fuel) node_count i stop =
    if i == stop then [] else i ∷ span fuel node_count ((i + 1) % node_count) stop

pub set_head : ℕ → NodeHead → (ℕ → NodeHead) → ℕ → NodeHead
set_head i h heads = λ j. if j == i then h else heads j

-- Without another writer the compare and exchange succeeds; the sequence skips 0.
unfoldable pub mem_fetch_operation_seq : MemChannel → MemChannel × ℕ
mem_fetch_operation_seq c =
    let next = (c.operation_seq + 1) % 2 ^ 32 in
    let seq = if next == 0 then (c.operation_seq + 2) % 2 ^ 32 else next in
    (record c { operation_seq = seq }, seq)

unfoldable pub mem_calc_node_num : MemChannel → ℕ → ℕ
mem_calc_node_num c len =
    (len + block_head_size + c.node_size - 1) % 2 ^ 64 / 2 ^ c.node_size_bin_power

abbrev pub mem_fast_check : List ℕ → ℕ
mem_fast_check src = crc64 0 src % 2 ^ 64
