-- ===== src/Channel/Mem/Gets.antt =====
-- Receiving from a memory channel follows the queue of its messages.
use libatbus.Base.{
  ℕ, suc, ◌-◌, ◌≤◌, ◌<◌, ◌≡◌, refl, sym, ap, subst, ◌∙◌, inl, inr, true, Option, none, some, List,
  [], ◌∷◌, length, arith, ◌==◌, leb, ltb, not, ◌||◌, if_true, if_false, Bool-cases, lt→ltb, ==_iff,
}
use libatbus.Status.{Status, success, no_data, buff_limit, is_error}
use libatbus.Channel.Mem.{MemChannel}
use libatbus.Channel.Mem.Recv.{
  Received, Scan, Scanned, ended, scan_step, check_block, stop_at, keep, scan, deliver, advance,
  clear_nodes, mem_recv,
}
use libatbus.Channel.Mem.Reading.{Holds, behind, none_passed}
use libatbus.Channel.Mem.Blocks.{nodes, Stored}
use libatbus.Channel.Mem.Queue.{Queued, first-Holds, mem_recv_first}
use libatbus.Channel.Mem.Fifo
use libatbus.Channel.Mem.Fifo.{Op, put, get, Reply, Fifo, used}
use libatbus.Channel.Mem.Calls.{call, later}
use libatbus.Channel.Mem.Stands.{contents, room, Spare, last_rest, Stands, Follows, fewer_Stands}

abbrev start : MemChannel → Scan
start c = record { channel = c; read_begin_cur = c.read_cur; ret = success }

-- What the loop ends with when it finds no block to take.
abbrev left : MemChannel → Status → Option ℕ → Scanned
left c ret size = record {
  channel = c;
  read_begin_cur = c.read_cur;
  read_end_cur = c.read_cur;
  ret = ret;
  recv_size = size;
}

abbrev nothing : MemChannel → Status → Option ℕ → Received
nothing c ret size = record { channel = c; ret = ret; content = none; recv_size = size }

deliver-left :
    (c : MemChannel) (ret : Status) (size : Option ℕ)
    → is_error ret ≡ true
    → deliver c.read_cur (left c ret size) ≡ nothing c ret size
unfolding deliver advance clear_nodes
deliver-left c ret size e =
    if_true (is_error ret) _ _ e
    ∙ ap (λ is. nothing (record c { heads = clear_nodes is c.heads }) ret size)
        (none_passed c.node_count c.node_count c.read_cur)

mem_recv-left :
    (clock : ℕ → ℕ) (c : MemChannel) (len : ℕ) (ret : Status) (size : Option ℕ)
    → c.read_cur < c.node_count
    → is_error ret ≡ true
    → ((cnow : ℕ) → scan_step cnow len c.write_cur (start c) ≡ ended (left c ret size))
    → mem_recv clock c len ≡ some (nothing c ret size)
unfolding mem_recv
mem_recv-left clock c len ret size hr e f =
    let turns : scan clock len c.write_cur c.node_count (start c) ≡ some (left c ret size) =
      subst (λ n. scan clock len c.write_cur n (start c) ≡ some (left c ret size)) (one_more hr)
        (once (c.node_count - 1)) in
    rw (turns, mem_recv) (ap some (deliver-left c ret size e))
  where
    one_more : {r n : ℕ} → r < n → suc (n - 1) ≡ n
    one_more h = omega arith

    once : (t : ℕ) → scan clock len c.write_cur (suc t) (start c) ≡ some (left c ret size)
    once t = rw (f (clock t), scan) refl

-- Nothing stands between the cursors.
step_empty :
    (c : MemChannel) (cnow len : ℕ)
    → c.read_cur ≡ c.write_cur
    → scan_step cnow len c.write_cur (start c) ≡ ended (left c no_data none)
unfolding scan_step stop_at keep is_error
step_empty c cnow len e =
    if_true (c.read_cur == c.write_cur) _ _ ((==_iff c.read_cur c.write_cur).1 e)

-- The buffer is too small for the first block.
step_long :
    (c : MemChannel) (cnow k len : ℕ) (buf : List ℕ)
    → len < length buf
    → Holds c c.read_cur k buf
    → scan_step cnow len c.write_cur (start c) ≡ ended (left c buff_limit (some (length buf)))
unfolding scan_step check_block stop_at keep is_error
step_long c cnow k len buf hl h =
    let apart = h.apart in
    let some_bytes = h.some_bytes in
    let few_bytes = h.few_bytes in
    let limit = c.area_end_offset - c.area_data_offset - c.conf.protect_memory_size in
    if_false (c.read_cur == c.write_cur) _ _ (ground arith)
    ∙ if_false (not (c.heads c.read_cur).start) _ _ (ap not h.begins)
    ∙ if_false (not (c.heads c.read_cur).writen) _ _ (ap not h.whole)
    ∙ ap (check_block len c.write_cur (start c)) h.size
    ∙ if_false ((length buf == 0) || leb limit (length buf)) _ _ (ground arith)
    ∙ if_true (ltb len (length buf)) _ _ (lt→ltb len (length buf) hl)

get_left :
    (k : ℕ) (c : MemChannel) (q : Fifo) (clock : ℕ → ℕ) (len : ℕ) (ret : Status) (size : Option ℕ)
    → Stands (suc k) c q
    → mem_recv clock c len ≡ some (nothing c ret size)
    → Follows k (room c) (call c (get clock len)) (q, (ret, none, size))
unfolding Follows call
get_left k c q clock len ret size h e = (c, rw (e, call) refl, refl, fewer_Stands k c q h)

get_first :
    (k : ℕ) (c : MemChannel) (clock : ℕ → ℕ) (len s : ℕ) (buf : List ℕ) (q : Stored)
    → Queued c ((s, buf) ∷ q)
    → Spare (suc k) c.operation_seq ((s, buf) ∷ q)
    → length buf ≤ len
    → Follows k
        (room c)
        (call c (get clock len))
        (contents q, (success, some buf, some (length buf)))
unfolding Follows call
get_first k c clock len s buf q h spare hl =
    let (e, h') = mem_recv_first clock c len s buf q h hl in
    (
      behind c (nodes buf),
      rw (e, call) refl,
      refl,
      record {
        stored = q;
        queued = h';
        holds = refl;
        spare = λ i l. last_rest (later i c.operation_seq) s buf q (spare i (omega arith));
      },
    )

get_stored :
    (k : ℕ) (c : MemChannel) (clock : ℕ → ℕ) (len : ℕ) (s : Stored)
    → Queued c s
    → Spare (suc k) c.operation_seq s
    → Follows k (room c) (call c (get clock len)) (Fifo.receive len (contents s))
unfolding Fifo.receive is_error
get_stored k c clock len [] h spare =
    get_left k c [] clock len no_data none
      (record { stored = []; queued = h; holds = refl; spare = spare })
      (mem_recv-left clock c len no_data none h.sized.reads refl
        (λ cnow. step_empty c cnow len h.blocks))
get_stored k c clock len ((s, buf) ∷ q) h spare = elim (Bool-cases (ltb len (length buf))) [
  | inl e ↦
      subst (λ s. Follows k (room c) (call c (get clock len)) s)
        (sym (if_true (ltb len (length buf)) _ _ e))
        (get_left k c (buf ∷ contents q) clock len buff_limit (some (length buf))
          (record { stored = (s, buf) ∷ q; queued = h; holds = refl; spare = spare })
          (mem_recv-left clock c len buff_limit (some (length buf)) h.sized.reads refl (λ cnow.
            step_long c cnow (nodes buf) len buf (ground (arith, e)) (first-Holds c s buf q h))))
  | inr e ↦
      subst (λ s. Follows k (room c) (call c (get clock len)) s)
        (sym (if_false (ltb len (length buf)) _ _ e))
        (get_first k c clock len s buf q h spare (ground (arith, e)))
]

-- A message is received as the queue gives it.
pub get_refines :
    (k : ℕ) (c : MemChannel) (q : Fifo) (clock : ℕ → ℕ) (len : ℕ)
    → Stands (suc k) c q
    → Follows k (room c) (call c (get clock len)) (Fifo.receive len q)
get_refines k c q clock len h =
    subst (λ q. Follows k (room c) (call c (get clock len)) (Fifo.receive len q)) h.holds
      (get_stored k c clock len h.stored h.queued h.spare)
