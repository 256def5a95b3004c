-- ===== src/Channel/Mem/Enqueue.antt =====
-- `mem_send` on a channel that holds a queue: the block stands behind the others.
use libatbus.Base.{
  ℕ, suc, ◌+◌, ◌-◌, ◌*◌, ◌%◌, ◌≤◌, ◌<◌, ◌≡◌, refl, sym, ap, subst, ◌∙◌, inl, true, some, List, [],
  ◌∷◌, ◌++◌, length, arith, ◌==◌, leb, ltb, if_false, lt→leb-false, le→ltb-false,
}
use libatbus.Status.{success}
use libatbus.Channel.Bytes.{Memory, load64}
use libatbus.Channel.Bytes.Laws.{load-store}
use libatbus.Channel.Mem.{
  NodeHead, MemChannel, node_data, mem_calc_node_num, mem_fast_check, mem_fetch_operation_seq,
}
use libatbus.Channel.Mem.Ring.{ring, ring_lt, ring-append, ring-Apart, Apart, Fresh}
use libatbus.Channel.Mem.Heads.{AllSeq}
use libatbus.Channel.Mem.Layout.{Sized, get-put_data}
use libatbus.Channel.Mem.Send.{minus64, available, fill, mem_send_real, is_conflict, mem_send}
use libatbus.Channel.Mem.Recv.{get_data}
use libatbus.Channel.Mem.Writing.{
  fill_whole, ended_heads, ended_other, ended-AllSeq, stored, sized, ended_w,
}
use libatbus.Channel.Mem.Blocks.{
  area_of, nodes, nodes_bounds, Block, Blocks, Stored, total, LastDiffers, InNodes,
}
use libatbus.Channel.Mem.Frame.{Blocks-end, Blocks-same, Blocks-append}
use libatbus.Channel.Mem.Cells.{store_other, put_data_other}
use libatbus.Channel.Mem.Room.{
  next_seq, available_lem, send_once, available_same, free-AllSeq, Fresh-both, total-append,
}
use libatbus.Channel.Mem.Queue.{Queued, back_around, nodes_num, data-get}

-- The channel when the writer has its nodes.
abbrev reserved : MemChannel → ℕ → MemChannel
reserved c d = record c {
  operation_seq = next_seq c;
  write_cur = (c.write_cur + suc d) % c.node_count;
}

module _ (c : MemChannel) (q : Stored) (buf : List ℕ) (d : ℕ) (h : Queued c q)
    (k : nodes buf ≡ suc d) (h0 : 0 < length buf)
    (lt : total q + suc d < c.node_count - c.conf.protect_node_count) where
  pub free_nodes :
      AllSeq 0 (c.write_cur ∷ ring c.node_count ((c.write_cur + 1) % c.node_count) d) c.heads
  free_nodes =
      let t = total q in
      let z = h.sized in
      let meets =
        Blocks-end (area_of c) c.heads c.memory c.read_cur c.write_cur q z.reads h.blocks in
      let around : (c.write_cur + (c.node_count - t)) % c.node_count ≡ c.read_cur =
        ap (λ w. (w + (c.node_count - t)) % c.node_count) meets
        ∙ back_around c.node_count c.read_cur t z.reads (omega (arith, h.within)) in
      free-AllSeq (ring c.node_count c.write_cur (suc d)) (ring c.node_count c.read_cur t) c.heads
        h.free
        (subst (λ r. Apart (ring c.node_count c.write_cur (suc d)) (ring c.node_count r t)) around
          (ring-Apart c.node_count c.write_cur (suc d) (c.node_count - t) t z.writes (omega arith)
            (omega (arith, h.within))))

  pub fewer : suc d < c.node_count
  fewer = omega arith

  abbrev pub sent : MemChannel
  sent = record (reserved c d) {
    heads =
        ended_heads (reserved c d) c.write_cur d (next_seq c) buf h.sized.writes fewer free_nodes.1;
    memory = stored (reserved c d) c.write_cur d (next_seq c) buf h.sized.writes fewer free_nodes.1;
  }

  room : minus64 c.node_count c.conf.protect_node_count ≡ c.node_count - c.conf.protect_node_count
  room = omega (arith, h.sized.count, h.sized.protects)

  num : mem_calc_node_num c (length buf) ≡ suc d
  num =
      let (lo, hi) = nodes_bounds buf in
      nodes_num c buf h.sized (omega (arith, h.sized.count, k)) ∙ k

  send_whole : mem_send_real c buf ≡ (sent, success)
  unfolding mem_send_real mem_fetch_operation_seq
  send_whole =
      if_false (length buf == 0) _ _ (ground (arith, h0))
      ∙ if_false
          (leb (minus64 c.node_count c.conf.protect_node_count) (mem_calc_node_num c (length buf)))
          _ _ (lt→leb-false _ _ (omega (arith, room, num)))
      ∙ if_false (ltb (available (mem_fetch_operation_seq c).0) (mem_calc_node_num c (length buf)))
          _ _ (le→ltb-false _ _ (omega (arith, available_same c, available_lem c q h, num)))
      ∙ ap
          (λ k.
            fill
              (record c {
                operation_seq = next_seq c;
                write_cur = (c.write_cur + k) % c.node_count;
              })
              c.write_cur ((c.write_cur + k) % c.node_count) (next_seq c) buf)
          num
      ∙ fill_whole (reserved c d) c.write_cur d (next_seq c) buf h.sized.writes fewer free_nodes.1

  pub reserved-Sized : Sized (reserved c d)
  reserved-Sized =
      let z = h.sized in
      record {
        node_size = z.node_size;
        bin_power = z.bin_power;
        area_end = z.area_end;
        protected = z.protected;
        count = z.count;
        protects = z.protects;
        reads = z.reads;
        writes = ring_lt c.node_count (c.write_cur + suc d) (omega (arith, z.reads));
      }

  bounds : (length buf + 16 ≤ 128 * suc d) × (128 * suc d < length buf + 144)
  bounds = let (lo, hi) = nodes_bounds buf in (omega (arith, k), omega (arith, k))

  abbrev before : Memory
  before = sized (reserved c d) c.write_cur d (next_seq c) buf h.sized.writes fewer free_nodes.1

  data_kept :
      (get_data (record (reserved c d) { memory = sent.memory }) c.write_cur (length buf) ≡ buf)
      × (load64 (node_data c c.write_cur) sent.memory ≡ length buf)
  data_kept =
      let (data', size) =
        get-put_data (reserved c d) c.write_cur d (mem_fast_check buf) buf before reserved-Sized
          h.sized.writes fewer bounds.0 bounds.1 in
      (
        data',
        size
            ∙ load-store (node_data c c.write_cur) (length buf) _
                (omega (arith, bounds.0, fewer, h.sized.count)),
      )

  head_whole :
      sent.heads c.write_cur ≡ record { start = true; writen = true; operation_seq = next_seq c }
  head_whole =
      ended_w (reserved c d) c.write_cur d (next_seq c) buf h.sized.writes fewer free_nodes.1

  new-Block : Block (area_of c) sent.heads sent.memory c.write_cur (next_seq c) buf
  unfolding get_data
  new-Block = record {
    begins = ap (λ (h : NodeHead). h.start) head_whole;
    whole = ap (λ (h : NodeHead). h.writen) head_whole;
    seqs =
        subst (λ k. AllSeq (next_seq c) (ring c.node_count c.write_cur k) sent.heads) (sym k)
          (ended-AllSeq (reserved c d) c.write_cur d (next_seq c) buf h.sized.writes fewer
            free_nodes.1);
    size = data_kept.1;
    bytes =
        sym (
          data-get (record (reserved c d) { memory = sent.memory }) c.write_cur (length buf)
            h.sized.area_end)
        ∙ data_kept.0;
    check = load-store (node_data c c.write_cur + 8) (mem_fast_check buf) _ (ground arith);
    some_bytes = h0;
    few = omega (arith, k);
  }

  -- The cells of the other nodes stay.
  cells_same : (x : ℕ) → ¬ (InNodes (area_of c) c.write_cur (suc d) x) → sent.memory x ≡ c.memory x
  cells_same x no' =
      let w = node_data c c.write_cur in
      let z = h.sized in
      let bound = z.writes in
      let in_head : (w ≤ x → x < w + 16 → ⊥) =
        λ l u. no' (inl (omega arith, omega arith, omega arith)) in
      store_other (w + 8) (mem_fast_check buf) _ x (λ l u. in_head (omega arith) (omega arith))
      ∙ put_data_other (reserved c d) c.write_cur d (mem_fast_check buf) buf before reserved-Sized
          z.writes fewer bounds.0 bounds.1 x no'
      ∙ store_other w (length buf) _ x (λ l u. in_head (omega arith) (omega arith))
      ∙ store_other w 0 _ x (λ l u. in_head (omega arith) (omega arith))
      ∙ store_other (w + 8) 0 c.memory x (λ l u. in_head (omega arith) (omega arith))

  pub sent-Queued : LastDiffers (next_seq c) q → Queued sent (q ++ (next_seq c, buf) ∷ [])
  sent-Queued last =
      let z = h.sized in
      let a = area_of c in
      let meets = Blocks-end a c.heads c.memory c.read_cur c.write_cur q z.reads h.blocks in
      let more = total-append q (next_seq c) buf in
      let n = c.node_count in
      let r = c.read_cur in
      let longer : ring n r (total (q ++ (next_seq c, buf) ∷ []))
          ≡ ring n r (total q) ++ ring n c.write_cur (suc d) =
        ap (ring n r) (more ∙ ap (λ k. total q + k) k)
        ∙ ring-append n r (total q) (suc d) z.reads
        ∙ ap (λ w. ring n r (total q) ++ ring n w (suc d)) (sym meets) in
      let other =
        ended_other (reserved c d) c.write_cur d (next_seq c) buf z.writes fewer free_nodes.1 in
      record {
        sized = record {
          node_size = z.node_size;
          bin_power = z.bin_power;
          area_end = z.area_end;
          protected = z.protected;
          count = z.count;
          protects = z.protects;
          reads = z.reads;
          writes = ring_lt c.node_count (c.write_cur + suc d) (omega (arith, z.reads));
        };
        tries = h.tries;
        within = omega (arith, more, k);
        blocks =
            subst
              (λ k.
                Blocks a sent.heads sent.memory c.read_cur ((c.write_cur + k) % c.node_count)
                  (q ++ (next_seq c, buf) ∷ []))
              k
              (Blocks-append a sent.heads sent.memory c.read_cur c.write_cur (next_seq c) q buf
                (Blocks-same a c.heads sent.heads c.memory sent.memory c.write_cur (suc d) other
                  cells_same c.read_cur c.write_cur (total q) q z.reads (omega arith) (omega arith)
                  meets h.blocks)
                last new-Block);
        free = λ j f.
            let (fj, fk) =
              Fresh-both j (ring n r (total q)) (ring n c.write_cur (suc d))
                (subst (λ is. Fresh j is) longer f) in
            other j fk ∙ h.free j fj;
      }

  pub sends : mem_send (some c) buf ≡ (some sent, success)
  unfolding is_conflict
  sends = send_once c sent buf success h.tries send_whole refl
