-- ===== src/Channel/Mem/Tests.antt =====
-- Runs on a channel of seven nodes.
use libatbus.Base.{
  ℕ, zero, suc, ◌+◌, ◌*◌, ◌%◌, ◌≤◌, ◌<◌, ◌≡◌, refl, none, some, List, [], ◌∷◌, arith,
}
use libatbus.Status.{success, params, buff_limit, channel_size_too_small}
use libatbus.Channel.Mem.{MemConf, MemChannel, clear, mem_init, span, mem_next_index, set_head}
use libatbus.Channel.Mem.Send.{mem_send}
use libatbus.Channel.Mem.Recv.{Received, mem_recv}
use libatbus.Channel.Mem.OneBlock.{Empty, Empty-Stands, mem_recv-mem_send}
use libatbus.Channel.Mem.Fifo
use libatbus.Channel.Mem.Fifo.{Op, put, get}
use libatbus.Channel.Mem.Calls.{run_calls}
use libatbus.Channel.Mem.Stands.{room}
use libatbus.Channel.Mem.Refine.{run_refines}
use libatbus.Channel.Mem.Ending.{mem_recv_returns}
use libatbus.Channel.Mem.Geometry.{mem_init-Empty}

abbrev zeros : ℕ → List ℕ
zeros zero = []
zeros (suc n) = n % 256 ∷ zeros n

abbrev conf : MemConf
conf = record {
  protect_node_count = 0;
  protect_memory_size = 0;
  conf_send_timeout_ms = 4;
  write_retry_times = 4;
}

-- The cursors stand at the last node, so a longer block wraps.
abbrev channel : MemChannel
channel = record {
  node_size = 128;
  node_size_bin_power = 7;
  node_count = 7;
  read_cur = 6;
  write_cur = 6;
  first_failed_writing_time = 0;
  operation_seq = 0;
  conf = conf;
  area_head_offset = 4096;
  area_data_offset = 4152;
  area_end_offset = 5048;
  block_bad_count = 0;
  block_timeout_count = 0;
  node_bad_count = 0;
  heads = λ i. clear;
  memory = λ a. 0;
}

channel-Empty : Empty channel
channel-Empty = record {
  sized = record {
    node_size = refl;
    bin_power = refl;
    area_end = refl;
    protected = refl;
    count = omega arith;
    protects = omega arith;
    reads = omega arith;
    writes = omega arith;
  };
  no_block = refl;
  free = λ j. refl;
  tries = omega arith;
}

mem_recv-mem_send_example :
    (c' : MemChannel) × (r : Received) × (mem_send (some channel) (zeros 200) ≡ (some c', success))
    × (mem_recv (λ i. 5) c' 300 ≡ some r)
    × (r.ret ≡ success)
    × (r.content ≡ some (zeros 200))
    × Empty r.channel
mem_recv-mem_send_example =
    mem_recv-mem_send (λ i. 5) channel 300 (zeros 200) channel-Empty (omega arith, omega arith)
      (omega arith)

-- Two messages, one of them behind the end of the area, one that finds no room, and buffers that
-- fit and that do not.
abbrev ops : List Op
ops =
    put (zeros 200)
    ∷ put (zeros 300)
    ∷ put (zeros 200)
    ∷ get (λ i. 5) 100
    ∷ get (λ i. 5) 200
    ∷ put (zeros 200)
    ∷ get (λ i. 5) 300
    ∷ get (λ i. 5) 300
    ∷ get (λ i. 5) 300
    ∷ []

run_refines_example : run_calls channel ops ≡ some (Fifo.run (room channel) [] ops)
run_refines_example =
    run_refines ops 9 channel []
      (omega arith, (omega arith, (omega arith, (tt, (tt, (omega arith, (tt, (tt, (tt, tt)))))))))
      (omega arith) (omega arith) (Empty-Stands 9 channel channel-Empty)

mem_recv_returns_example : (r : Received) × (mem_recv (λ i. 5) channel 300 ≡ some r)
mem_recv_returns_example = mem_recv_returns (λ i. 5) channel 300 (omega arith) (omega arith)

mem_init-Empty_example :
    (c : MemChannel) × (mem_init 5048 ≡ (some c, success))
    × Empty c
    × (0 < c.node_count)
    × (c.area_head_offset + c.node_count * 8 ≤ c.area_data_offset)
    × (c.area_data_offset + c.node_count * 128 ≤ 5048)
mem_init-Empty_example = mem_init-Empty 5048 (omega arith) (omega arith)

runs :
    ((mem_send none (1 ∷ [])).1 ≡ params)
    × ((mem_send (some channel) (zeros 752)).1 ≡ success)
    × ((mem_send (some channel) (zeros 753)).1 ≡ buff_limit)
    × ((mem_init 4231).1 ≡ channel_size_too_small)
unfolding mem_send mem_init span mem_next_index set_head
runs = (refl, refl, refl, refl)
