-- ===== src/Channel/Mem/Queue.antt =====
-- A memory channel that holds a queue of blocks, and what the reader finds in it.
use libatbus.Base.{
  ℕ, suc, ◌+◌, ◌-◌, ◌*◌, ◌%◌, ◌^◌, ◌≤◌, ◌<◌, ◌≡◌, refl, sym, ap, subst, ◌∙◌, List, [], ◌∷◌, ◌++◌,
  length, arith, some,
}
use native.Mathlib.Nat.{mod-add-mod, mod-eq_of_lt, mod-eq-sub-mod}
use libatbus.Channel.Bytes.{Memory}
use libatbus.Channel.Mem.{NodeHead, MemChannel, span, mem_calc_node_num}
use libatbus.Channel.Mem.Ring.{ring, ring_lt, span-ring, ring-append, ring-Fresh, Fresh, steps_away}
use libatbus.Channel.Mem.Heads.{
  Heads, AllSeq, take_nodes_through, take_nodes_stop, clear_nodes_other, ClearBut,
  clear_nodes-ClearBut,
}
use libatbus.Channel.Mem.Layout.{Sized}
use libatbus.Channel.Mem.Recv.{take_nodes, clear_nodes, get_data, mem_recv}
use libatbus.Channel.Mem.Reading.{Holds, behind, received, mem_recv_block}
use libatbus.Channel.Mem.Writing.{ring-Distinct}
use libatbus.Channel.Mem.Blocks.{
  Area, area_of, nodes, nodes_bounds, data_at, Block, Blocks, Stored, total, NextDiffers,
}
use libatbus.Channel.Mem.Frame.{Blocks-end, Blocks-same}

-- The blocks stand from the read cursor to the write cursor, and the other heads are clear.
pub record Queued (c : MemChannel) (q : Stored) : Type 0 where
  pub sized : Sized c
  pub tries : 0 < c.conf.write_retry_times
  pub within : total q < c.node_count
  pub blocks : Blocks (area_of c) c.heads c.memory c.read_cur c.write_cur q
  pub free : ClearBut (ring c.node_count c.read_cur (total q)) c.heads

pub some_nodes : (buf : List ℕ) → 0 < length buf → 0 < nodes buf
some_nodes buf h = let (lo, hi) = nodes_bounds buf in omega arith

-- Round the rest of the ring, back to the start.
pub back_around : (n r k : ℕ) → r < n → k ≤ n → ((r + k) % n + (n - k)) % n ≡ r
back_around n r k hr hk = rw mod-add-mod (
    ap (λ x. x % n) (omega arith)
    ∙ mod-eq-sub-mod {n = r + n} {m = n} (omega arith)
    ∙ ap (λ x. x % n) (omega arith)
    ∙ mod-eq_of_lt {n = r} {m = n} hr)

behind_Fresh : (n r k : ℕ) → r < n → k < n → Fresh ((r + k) % n) (ring n r k)
behind_Fresh n r k hr hk =
    subst (λ i. Fresh ((r + k) % n) (ring n i k)) (back_around n r k hr (omega arith))
      (ring-Fresh n ((r + k) % n) (n - k) k (ring_lt n (r + k) (omega arith)) (omega arith)
        (omega arith))

first_seq :
    (a : Area) (hs : Heads) (m : Memory) (r s : ℕ) (buf : List ℕ)
    → Block a hs m r s buf
    → (hs r).operation_seq ≡ s
first_seq a hs m r s buf b =
    let least = some_nodes buf b.some_bytes in
    let one_more : nodes buf ≡ suc (nodes buf - 1) = omega arith in
    (subst (λ k. AllSeq s (ring a.count r k) hs) one_more b.seqs).0

-- What lies behind the first block ends it.
take_rest :
    (a : Area) (hs : Heads) (m : Memory) (j w s : ℕ) (q : Stored)
    → Blocks a hs m j w q
    → NextDiffers s q
    → (hs' : Heads) → hs' j ≡ hs j
    → take_nodes (ring a.count j (total q)) w s hs' ≡ (hs', j)
unfolding take_nodes
take_rest a hs m j w s [] e d hs' same = ap (λ j. (hs', j)) (sym e)
take_rest a hs m j w s ((t, buf) ∷ q) (b, n, bs) d hs' same =
    let least = some_nodes buf b.some_bytes in
    let one_more : suc (nodes buf + total q - 1) ≡ nodes buf + total q = omega arith in
    let seq : (hs' j).operation_seq ≡ t =
      ap (λ (h : NodeHead). h.operation_seq) same ∙ first_seq a hs m j t buf b in
    subst (λ k. take_nodes (ring a.count j k) w s hs' ≡ (hs', j)) one_more
      (take_nodes_stop j _ w s hs' (λ e. d (sym seq ∙ e)))

pub nodes_num :
    (c : MemChannel) (buf : List ℕ)
    → Sized c
    → length buf < 2 ^ 63
    → mem_calc_node_num c (length buf) ≡ nodes buf
unfolding mem_calc_node_num nodes
nodes_num c buf s h = rw (s.node_size, s.bin_power) (omega arith)

pub data-get :
    (c : MemChannel) (r size : ℕ)
    → c.area_end_offset ≡ c.area_data_offset + c.node_count * 128
    → get_data c r size ≡ data_at (area_of c) c.memory r size
unfolding get_data data_at
data-get c r size e = rw e refl

module _ (c : MemChannel) (s : ℕ) (buf : List ℕ) (q : Stored) (h : Queued c ((s, buf) ∷ q)) where
  first_taken :
      take_nodes
        (span c.node_count c.node_count c.read_cur c.write_cur)
        c.write_cur
        (c.heads c.read_cur).operation_seq
        c.heads
      ≡ (
        clear_nodes (ring c.node_count c.read_cur (nodes buf)) c.heads,
        (c.read_cur + nodes buf) % c.node_count,
      )
  first_taken =
      let a = area_of c in
      let (b, d, bs) = h.blocks in
      let r = c.read_cur in
      let k = nodes buf in
      let hr = h.sized.reads in
      let cleared = clear_nodes (ring c.node_count r k) c.heads in
      let meets = Blocks-end a c.heads c.memory r c.write_cur ((s, buf) ∷ q) hr h.blocks in
      ap
        (λ w.
          take_nodes (span c.node_count c.node_count r w) c.write_cur (c.heads r).operation_seq
            c.heads)
        meets
      ∙ ap (λ is. take_nodes is c.write_cur (c.heads r).operation_seq c.heads)
          (span-ring c.node_count c.node_count r (k + total q) hr h.within (omega (arith, h.within))
            ∙ ring-append c.node_count r k (total q) hr)
      ∙ ap
          (λ s.
            take_nodes
              (ring c.node_count r k ++ ring c.node_count ((r + k) % c.node_count) (total q))
              c.write_cur s c.heads)
          (first_seq a c.heads c.memory r s buf b)
      ∙ take_nodes_through (ring c.node_count r k)
          (ring c.node_count ((r + k) % c.node_count) (total q)) c.write_cur s c.heads b.seqs
          (ring-Distinct c.node_count r k hr (omega (arith, h.within)))
      ∙ take_rest a c.heads c.memory ((r + k) % c.node_count) c.write_cur s q bs d cleared (
          clear_nodes_other (ring c.node_count r k) c.heads ((r + k) % c.node_count)
            (behind_Fresh c.node_count r k hr (omega (arith, h.within))))

  -- The reader finds the first block.
  pub first-Holds : Holds c c.read_cur (nodes buf) buf
  first-Holds =
      let (b, d, bs) = h.blocks in
      let (lo, hi) = nodes_bounds buf in
      let z = h.sized in
      record {
        begins = b.begins;
        whole = b.whole;
        size = b.size;
        bytes = data-get c c.read_cur (length buf) z.area_end ∙ b.bytes;
        check = b.check;
        inside = z.reads;
        fewer = omega (arith, h.within, b.few);
        nodes = nodes_num c buf z (omega (arith, b.few, z.count));
        some_nodes = some_nodes buf b.some_bytes;
        some_bytes = b.some_bytes;
        few_bytes = omega (arith, b.few, z.area_end, z.protected, z.protects);
        taken = first_taken;
        apart = λ same.
            steps_away c.node_count c.read_cur (nodes buf + total q) z.reads
              (omega (arith, some_nodes buf b.some_bytes)) h.within
              (sym (
                  Blocks-end (area_of c) c.heads c.memory c.read_cur c.write_cur ((s, buf) ∷ q)
                    z.reads h.blocks)
                ∙ sym same);
      }

  -- Behind the first block stand the others.
  pub behind-Queued : Queued (behind c (nodes buf)) q
  behind-Queued =
      let (b, d, bs) = h.blocks in
      let k = nodes buf in
      let r = c.read_cur in
      let z = h.sized in
      let hk : k < c.node_count = omega (arith, h.within) in
      record {
        sized = record {
          node_size = z.node_size;
          bin_power = z.bin_power;
          area_end = z.area_end;
          protected = z.protected;
          count = z.count;
          protects = z.protects;
          reads = ring_lt c.node_count (r + k) (omega (arith, z.reads));
          writes = z.writes;
        };
        tries = h.tries;
        within = omega (arith, h.within);
        blocks =
            Blocks-same (area_of c) c.heads (clear_nodes (ring c.node_count r k) c.heads) c.memory
              c.memory r k (clear_nodes_other (ring c.node_count r k) c.heads) (λ x o. refl)
              ((r + k) % c.node_count) c.write_cur (c.node_count - k) q
              (ring_lt c.node_count (r + k) (omega (arith, z.reads))) (omega (arith, h.within))
              (omega arith) (sym (back_around c.node_count r k z.reads (omega arith))) bs;
        free =
            clear_nodes-ClearBut (ring c.node_count r k)
              (ring c.node_count ((r + k) % c.node_count) (total q)) c.heads
              (subst (λ is. ClearBut is c.heads) (ring-append c.node_count r k (total q) z.reads)
                h.free);
      }

-- `mem_recv` returns the bytes of the first block, and leaves the others.
pub mem_recv_first :
    (clock : ℕ → ℕ) (c : MemChannel) (len s : ℕ) (buf : List ℕ) (q : Stored)
    → Queued c ((s, buf) ∷ q)
    → length buf ≤ len
    → (mem_recv clock c len ≡ some (received c (nodes buf) buf)) × Queued (behind c (nodes buf)) q
mem_recv_first clock c len s buf q h hl = (
  mem_recv_block clock c (nodes buf) len buf hl (first-Holds c s buf q h),
  behind-Queued c s buf q h,
)
