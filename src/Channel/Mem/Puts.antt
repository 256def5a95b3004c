-- ===== src/Channel/Mem/Puts.antt =====
-- Sending on a memory channel follows the queue of its messages.
use libatbus.Base.{
  ℕ, suc, ◌+◌, ◌-◌, ◌^◌, ◌≤◌, ◌<◌, ◌≡◌, refl, sym, ap, subst, ◌∙◌, inl, inr, none, some, List, [],
  ◌∷◌, ◌++◌, length, arith, ◌==◌, leb, ltb, if_true, if_false, Bool-cases, lt→ltb, ==_iff,
}
use libatbus.Status.{Status, success, buff_limit}
use libatbus.Channel.Mem.{MemChannel, mem_fetch_operation_seq, mem_calc_node_num}
use libatbus.Channel.Mem.Send.{minus64, available, mem_send_real, is_conflict, mem_send}
use libatbus.Channel.Mem.Blocks.{nodes, total}
use libatbus.Channel.Mem.Queue.{some_nodes, nodes_num}
use libatbus.Channel.Mem.Room.{next_seq, available_lem, available_same, send_once}
use libatbus.Channel.Mem.Enqueue.{sent, sends, sent-Queued}
use libatbus.Channel.Mem.Fifo
use libatbus.Channel.Mem.Fifo.{Op, put, get, Reply, Fifo, used}
use libatbus.Channel.Mem.Calls.{call, seq_step_bounds, later, later_differs}
use libatbus.Channel.Mem.Stands.{
  room, used-contents, contents-append, last-append, Stands, Follows, fewer_Stands, next_Stands,
}

put_sent :
    (c c' : MemChannel) (buf : List ℕ) (ret : Status)
    → mem_send (some c) buf ≡ (some c', ret)
    → call c (put buf) ≡ some (c', (ret, none, none))
unfolding call
put_sent c c' buf ret e = rw (e, call) refl

put_empty :
    (k : ℕ) (c : MemChannel) (q : Fifo) (buf : List ℕ)
    → Stands (suc k) c q
    → length buf ≡ 0
    → Follows k (room c) (call c (put buf)) (q, (success, none, none))
unfolding Follows mem_send_real is_conflict
put_empty k c q buf h e = (
  c,
  put_sent c c buf success (
      send_once c c buf success h.queued.tries
        (if_true (length buf == 0) _ _ ((==_iff (length buf) 0).1 e)) refl),
  refl,
  fewer_Stands k c q h,
)

put_full :
    (k : ℕ) (c : MemChannel) (q : Fifo) (buf : List ℕ)
    → Stands (suc k) c q
    → length buf < 2 ^ 63
    → 0 < length buf
    → room c < used q + nodes buf
    → Follows k (room c) (call c (put buf)) (q, (buff_limit, none, none))
unfolding Follows mem_send_real is_conflict mem_fetch_operation_seq
put_full k c q buf h hl h0 over =
    let z = h.queued.sized in
    let num = nodes_num c buf z hl in
    let more = ap used (sym h.holds) ∙ used-contents h.stored in
    let not_empty = if_false (length buf == 0) _ _ (ground (arith, h0)) in
    let big = minus64 c.node_count c.conf.protect_node_count in
    elim (Bool-cases (leb big (mem_calc_node_num c (length buf)))) [
      | inl e ↦ (
        c,
        put_sent c c buf buff_limit (
            send_once c c buf buff_limit h.queued.tries
              (not_empty ∙ if_true (leb big (mem_calc_node_num c (length buf))) _ _ e) refl),
        refl,
        fewer_Stands k c q h,
      )
      | inr e ↦
          let few = available_lem c h.stored h.queued in
          let c' : MemChannel = record c { operation_seq = next_seq c } in
          (
            c',
            put_sent c c' buf buff_limit (
                send_once c c' buf buff_limit h.queued.tries
                  (not_empty
                    ∙ if_false (leb big (mem_calc_node_num c (length buf))) _ _ e
                    ∙ if_true
                        (ltb (available (mem_fetch_operation_seq c).0)
                          (mem_calc_node_num c (length buf)))
                        _ _
                        (lt→ltb _ _
                          (omega (arith, available_same c, few, num, more, some_nodes buf h0))))
                  refl),
            refl,
            next_Stands k c q h,
          )
    ]

put_fits :
    (k : ℕ) (c : MemChannel) (q : Fifo) (buf : List ℕ)
    → k < 4294967294
    → Stands (suc k) c q
    → 0 < length buf
    → used q + nodes buf ≤ room c
    → Follows k (room c) (call c (put buf)) (q ++ buf ∷ [], (success, none, none))
unfolding Follows mem_fetch_operation_seq later
put_fits k c q buf hk h h0 fits =
    let s = h.stored in
    let more = ap used (sym h.holds) ∙ used-contents s in
    let least = some_nodes buf h0 in
    let one_more : nodes buf ≡ suc (nodes buf - 1) = omega arith in
    let lt : total s + suc (nodes buf - 1) < c.node_count - c.conf.protect_node_count =
      omega (arith, more) in
    let c' = sent c s buf (nodes buf - 1) h.queued one_more h0 lt in
    let (low, high) = seq_step_bounds c.operation_seq in
    (
      c',
      put_sent c c' buf success (sends c s buf (nodes buf - 1) h.queued one_more h0 lt),
      refl,
      record {
        stored = s ++ (next_seq c, buf) ∷ [];
        queued =
            sent-Queued c s buf (nodes buf - 1) h.queued one_more h0 lt (h.spare 0 (omega arith));
        holds = contents-append s (next_seq c) buf ∙ ap (λ q. q ++ buf ∷ []) h.holds;
        spare = λ i l.
            last-append (later i (next_seq c)) s (next_seq c) buf
              (later_differs i (next_seq c) low high (omega arith));
      },
    )

-- A message is sent as the queue takes it.
pub put_refines :
    (k : ℕ) (c : MemChannel) (q : Fifo) (buf : List ℕ)
    → k < 4294967294
    → Stands (suc k) c q
    → length buf < 2 ^ 63
    → Follows k (room c) (call c (put buf)) (Fifo.send (room c) q buf)
unfolding Fifo.send
put_refines k c q buf hk h hl = elim (Bool-cases (length buf == 0)) [
  | inl e ↦
      subst (λ s. Follows k (room c) (call c (put buf)) s) (sym (if_true (length buf == 0) _ _ e))
        (put_empty k c q buf h (ground (arith, e)))
  | inr e ↦ elim (Bool-cases (ltb (room c) (used q + nodes buf))) [
    | inl f ↦
        subst (λ s. Follows k (room c) (call c (put buf)) s)
          (sym
            (if_false (length buf == 0) _ _ e ∙ if_true (ltb (room c) (used q + nodes buf)) _ _ f))
          (put_full k c q buf h hl (ground (arith, e)) (ground (arith, f)))
    | inr f ↦
        subst (λ s. Follows k (room c) (call c (put buf)) s)
          (sym
            (if_false (length buf == 0) _ _ e ∙ if_false (ltb (room c) (used q + nodes buf)) _ _ f))
          (put_fits k c q buf hk h (ground (arith, e)) (ground (arith, f)))
  ]
]
