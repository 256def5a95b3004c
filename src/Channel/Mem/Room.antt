-- ===== src/Channel/Mem/Room.antt =====
-- What a writer meets in a channel that holds a queue: the free nodes, and a first try that is the
-- last.
use libatbus.Base.{
  ℕ, zero, suc, ◌+◌, ◌-◌, ◌%◌, ◌<◌, ◌≡◌, refl, ap, ◌∙◌, inl, inr, false, some, List, [], ◌∷◌, ◌++◌,
  arith,
}
use native.Mathlib.Nat.{mod-eq_of_lt, mod-eq-sub-mod}
use libatbus.Status.{Status}
use libatbus.Channel.Mem.{NodeHead, MemChannel, mem_fetch_operation_seq}
use libatbus.Channel.Mem.Ring.{wrap, Apart, Fresh}
use libatbus.Channel.Mem.Heads.{Heads, AllSeq, ClearBut}
use libatbus.Channel.Mem.Send.{available, mem_send_real, try, is_conflict, mem_send}
use libatbus.Channel.Mem.Blocks.{area_of, nodes, Stored, total}
use libatbus.Channel.Mem.Frame.{Blocks-end}
use libatbus.Channel.Mem.Queue.{Queued}

-- The sequence that the next operation gets.
abbrev pub next_seq : MemChannel → ℕ
next_seq c = (mem_fetch_operation_seq c).1

-- The nodes that are free beside the protected ones and the one that stays empty.
pub available_lem :
    (c : MemChannel) (q : Stored)
    → Queued c q
    → available c ≡ c.node_count - 1 - total q - c.conf.protect_node_count
unfolding available
available_lem c q h =
    let t = total q in
    let z = h.sized in
    let meets = Blocks-end (area_of c) c.heads c.memory c.read_cur c.write_cur q z.reads h.blocks in
    let within = h.within in
    let free : (c.read_cur + c.node_count - c.write_cur - 1) % c.node_count ≡ c.node_count - 1 - t =
      elim (wrap c.node_count c.read_cur t z.reads (omega arith)) [
        | inl (e, l) ↦
            ap (λ x. x % c.node_count) (omega (arith, meets, e))
            ∙ mod-eq_of_lt {n = c.node_count - 1 - t} {m = c.node_count} (omega arith)
        | inr (e, l) ↦
            mod-eq-sub-mod {n = c.read_cur + c.node_count - c.write_cur - 1} {m = c.node_count}
              (omega (arith, meets, e, z.reads))
            ∙ ap (λ x. x % c.node_count) (omega (arith, meets, e, z.reads))
            ∙ mod-eq_of_lt {n = c.node_count - 1 - t} {m = c.node_count} (omega arith)
      ] in
    ground (arith, free)

-- Without a conflict the first try is the last.
pub send_once :
    (c c' : MemChannel) (buf : List ℕ) (ret : Status)
    → 0 < c.conf.write_retry_times
    → mem_send_real c buf ≡ (c', ret)
    → is_conflict ret ≡ false
    → mem_send (some c) buf ≡ (some c', ret)
unfolding mem_send
send_once c c' buf ret h e f =
    ap (λ (r : MemChannel × Status). (some r.0, r.1)) (first c.conf.write_retry_times h)
  where
    first : (tries : ℕ) → 0 < tries → try tries c buf ≡ (c', ret)
    first zero h = absurd (omega arith)
    first (suc t) h = rw (e, f, try) refl

pub available_same : (c : MemChannel) → available (mem_fetch_operation_seq c).0 ≡ available c
unfolding available mem_fetch_operation_seq
available_same c = refl

-- Heads outside the blocks have no sequence.
pub free-AllSeq : (is js : List ℕ) (hs : Heads) → ClearBut js hs → Apart is js → AllSeq 0 is hs
free-AllSeq [] js hs c a = tt
free-AllSeq (i ∷ is) js hs c (f, a) =
    (ap (λ (h : NodeHead). h.operation_seq) (c i f), free-AllSeq is js hs c a)

pub Fresh-both : (j : ℕ) (is js : List ℕ) → Fresh j (is ++ js) → Fresh j is × Fresh j js
Fresh-both j [] js f = (tt, f)
Fresh-both j (i ∷ is) js (ne, f) = let (fi, fj) = Fresh-both j is js f in ((ne, fi), fj)

pub total-append :
    (q : Stored) (s : ℕ) (buf : List ℕ) → total (q ++ (s, buf) ∷ []) ≡ total q + nodes buf
total-append [] s buf = omega arith
total-append ((t, b) ∷ q) s buf = omega (arith, total-append q s buf)
