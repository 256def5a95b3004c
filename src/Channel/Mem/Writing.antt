-- ===== src/Channel/Mem/Writing.antt =====
-- `mem_send_real` on free nodes: the block that it leaves at the write cursor.
use libatbus.Base.{
  ℕ, zero, suc, ◌+◌, ◌%◌, ◌≤◌, ◌<◌, ◌≡◌, ap, subst, ◌∙◌, Bool, true, not, List, ◌∷◌, length, arith,
  ◌==◌, if◌then◌else◌, if_true, if_false, ==_iff,
}
use libatbus.Status.{Status, success, node_bad_block_wseq_id, node_bad_block_cseq_id}
use libatbus.Channel.Bytes.{Memory, store64}
use libatbus.Channel.Mem.{
  NodeHead, MemChannel, node_data, span, set_head, mem_next_index, mem_fast_check,
}
use libatbus.Channel.Mem.Ring.{ring, ring_lt, span-ring, step_more, ring-Fresh, Fresh}
use libatbus.Channel.Mem.Heads.{
  Heads, Distinct, AllSeq, set_self, set_other, set-AllSeq, mark_other, mark-AllSeq,
}
use libatbus.Channel.Mem.Send.{mark, put_data, fill}

pub ring-Distinct : (n i d : ℕ) → i < n → suc d ≤ n → Distinct (ring n i d)
ring-Distinct n i zero hi h = tt
ring-Distinct n i (suc d) hi h = (
  ring-Fresh n i 1 d hi (omega arith) (omega arith),
  ring-Distinct n ((i + 1) % n) d (ring_lt n (i + 1) (omega arith)) (omega arith),
)

-- Writing a block of `suc d` nodes at `w`, of which those behind the first have no sequence.
module _ (c : MemChannel) (w d seq : ℕ) (buf : List ℕ) (hw : w < c.node_count)
    (hd : suc d < c.node_count)
    (free : AllSeq 0 (ring c.node_count ((w + 1) % c.node_count) d) c.heads) where
  abbrev next : ℕ
  next = (w + suc d) % c.node_count

  abbrev rest : List ℕ
  rest = ring c.node_count ((w + 1) % c.node_count) d

  abbrev begun : Heads
  begun = set_head w (record (c.heads w) { start = true; operation_seq = seq }) c.heads

  abbrev pub ended_heads : Heads
  ended_heads =
      let marked = (mark rest seq begun).0 in
      set_head w (record (marked w) { writen = true }) marked

  abbrev pub sized : Memory
  sized =
      let head = node_data c w in
      store64 head (length buf) (store64 head 0 (store64 (head + 8) 0 c.memory))

  abbrev pub stored : Memory
  stored = store64 (node_data c w + 8) (mem_fast_check buf) (put_data c w next buf sized)

  w-Fresh : Fresh w rest
  w-Fresh = ring-Fresh c.node_count w 1 d hw (omega arith) (omega arith)

  rest-Distinct : Distinct rest
  rest-Distinct =
      ring-Distinct c.node_count ((w + 1) % c.node_count) d
        (ring_lt c.node_count (w + 1) (omega arith)) (omega arith)

  begun-AllSeq : AllSeq 0 rest begun
  begun-AllSeq = set-AllSeq 0 w _ rest c.heads w-Fresh free

  marked_w : (mark rest seq begun).0 w ≡ record (c.heads w) { start = true; operation_seq = seq }
  marked_w = mark_other rest seq w begun begun-AllSeq rest-Distinct w-Fresh ∙ set_self w _ c.heads

  pub ended_w : ended_heads w ≡ record { start = true; writen = true; operation_seq = seq }
  ended_w = set_self w _ _ ∙ ap (λ (h : NodeHead). record h { writen = true }) marked_w

  pub ended-AllSeq : AllSeq seq (w ∷ rest) ended_heads
  ended-AllSeq = (
    ap (λ (h : NodeHead). h.operation_seq) ended_w,
    set-AllSeq seq w _ rest _ w-Fresh (mark-AllSeq rest seq begun begun-AllSeq rest-Distinct).1,
  )

  -- The heads outside the block stay.
  pub ended_other : (j : ℕ) → Fresh j (w ∷ rest) → ended_heads j ≡ c.heads j
  ended_other j (ne, f) =
      set_other w j _ _ ne
      ∙ mark_other rest seq j begun begun-AllSeq rest-Distinct f
      ∙ set_other w j _ c.heads ne

  span-rest : span c.node_count c.node_count ((w + 1) % c.node_count) next ≡ rest
  span-rest =
      subst (λ e. span c.node_count c.node_count ((w + 1) % c.node_count) e ≡ rest)
        (step_more c.node_count w d)
        (span-ring c.node_count c.node_count ((w + 1) % c.node_count) d
          (ring_lt c.node_count (w + 1) (omega arith)) (omega arith) (omega arith))

  -- The end of `fill` on what `mark` returns.
  abbrev done : Heads × Bool → MemChannel × Status
  done (marked, ok) =
      let head = node_data c w in
      let last = set_head w (record (marked w) { writen = true }) marked in
      if not ok
      then (
        record c { heads = marked; memory = store64 head 0 (store64 (head + 8) 0 c.memory) },
        node_bad_block_wseq_id,
      )
      else (
        record c { heads = last; memory = stored },
        if (last w).operation_seq == seq then success else node_bad_block_cseq_id,
      )

  pub fill_whole :
      fill c w next seq buf ≡ (record c { heads = ended_heads; memory = stored }, success)
  unfolding fill mem_next_index
  fill_whole =
      ap (λ is. done (mark is seq begun)) span-rest
      ∙ if_false (not (mark rest seq begun).1) _ _
          (ap not (mark-AllSeq rest seq begun begun-AllSeq rest-Distinct).0)
      ∙ ap (λ (ret : Status). (record c { heads = ended_heads; memory = stored }, ret))
          (if_true ((ended_heads w).operation_seq == seq) success node_bad_block_cseq_id
            ((==_iff (ended_heads w).operation_seq seq).1 ended-AllSeq.0))
