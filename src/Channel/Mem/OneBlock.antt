-- ===== src/Channel/Mem/OneBlock.antt =====
-- A channel without a block: what it stands for, and one block that goes through it.
use libatbus.Base.{ℕ, suc, ◌+◌, ◌-◌, ◌*◌, ◌≤◌, ◌<◌, ◌≡◌, refl, some, List, [], length, arith}
use libatbus.Status.{success}
use libatbus.Channel.Mem.{MemChannel, clear}
use libatbus.Channel.Mem.Layout.{Sized}
use libatbus.Channel.Mem.Send.{mem_send}
use libatbus.Channel.Mem.Recv.{Received, mem_recv}
use libatbus.Channel.Mem.Reading.{received}
use libatbus.Channel.Mem.Blocks.{nodes, nodes_bounds}
use libatbus.Channel.Mem.Queue.{Queued, some_nodes, mem_recv_first}
use libatbus.Channel.Mem.Room.{next_seq}
use libatbus.Channel.Mem.Enqueue.{sent, sends, sent-Queued}
use libatbus.Channel.Mem.Stands.{Stands}

-- A channel with the geometry of `mem_init`, without a block and with all heads clear.
pub record Empty (c : MemChannel) : Type 0 where
  pub sized : Sized c
  pub no_block : c.read_cur ≡ c.write_cur
  pub free : (j : ℕ) → c.heads j ≡ clear
  pub tries : 0 < c.conf.write_retry_times

-- The bytes fit the nodes that are neither protected nor the empty one.
abbrev pub Fits : MemChannel → List ℕ → Type 0
Fits c buf =
    (0 < length buf) × (length buf + 16 ≤ 128 * (c.node_count - c.conf.protect_node_count - 1))

Empty-Queued : (c : MemChannel) → Empty c → Queued c []
Empty-Queued c h = record {
  sized = h.sized;
  tries = h.tries;
  within = let reads = h.sized.reads in omega arith;
  blocks = h.no_block;
  free = λ j f. h.free j;
}

Queued-Empty : (c : MemChannel) → Queued c [] → Empty c
Queued-Empty c h = record {
  sized = h.sized;
  no_block = h.blocks;
  free = λ j. h.free j tt;
  tries = h.tries;
}

-- It holds the empty queue, and may have any number of operations.
pub Empty-Stands : (k : ℕ) (c : MemChannel) → Empty c → Stands k c []
Empty-Stands k c h = record {
  stored = [];
  queued = Empty-Queued c h;
  holds = refl;
  spare = λ i l. tt;
}

-- A channel without a block, with the geometry of `mem_init` and all heads clear, takes any bytes
-- that fit its nodes: `mem_send` succeeds, `mem_recv` with a buffer that is long enough then returns
-- the same bytes, wherever the cursors stand, and leaves a channel of the same kind.
pub mem_recv-mem_send :
    (clock : ℕ → ℕ) (c : MemChannel) (len : ℕ) (buf : List ℕ)
    → Empty c
    → Fits c buf
    → length buf ≤ len
    → (c' : MemChannel) × (r : Received) × (mem_send (some c) buf ≡ (some c', success))
      × (mem_recv clock c' len ≡ some r)
      × (r.ret ≡ success)
      × (r.content ≡ some buf)
      × Empty r.channel
mem_recv-mem_send clock c len buf e (h0, hf) hl =
    let h = Empty-Queued c e in
    let least = some_nodes buf h0 in
    let (lo, hi) = nodes_bounds buf in
    let one_more : nodes buf ≡ suc (nodes buf - 1) = omega arith in
    let lt : 0 + suc (nodes buf - 1) < c.node_count - c.conf.protect_node_count = omega arith in
    let c' = sent c [] buf (nodes buf - 1) h one_more h0 lt in
    let (gets, back) =
      mem_recv_first clock c' len (next_seq c) buf []
        (sent-Queued c [] buf (nodes buf - 1) h one_more h0 lt tt) hl in
    (
      c',
      received c' (nodes buf) buf,
      sends c [] buf (nodes buf - 1) h one_more h0 lt,
      gets,
      refl,
      refl,
      Queued-Empty _ back,
    )
