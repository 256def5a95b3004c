-- ===== src/Channel/Mem/Refine.antt =====
-- A memory channel with one writer and one reader behaves as the queue of its messages.
use libatbus.Base.{
  ℕ, zero, suc, ◌^◌, ◌≤◌, ◌<◌, ◌≡◌, refl, ap, ◌∙◌, some, List, [], ◌∷◌, length, All, arith,
}
use libatbus.Channel.Mem.{MemChannel}
use libatbus.Channel.Mem.Fifo
use libatbus.Channel.Mem.Fifo.{Op, put, get, Reply, Fifo, used}
use libatbus.Channel.Mem.Calls.{call, run_calls}
use libatbus.Channel.Mem.Stands.{room, Stands, Follows}
use libatbus.Channel.Mem.Puts.{put_refines}
use libatbus.Channel.Mem.Gets.{get_refines}

-- The length of a message fits a signed size.
abbrev pub Small : Op → Type 0
Small (put buf) = length buf < 2 ^ 63
Small (get clock len) = Unit

step_refines :
    (k : ℕ) (c : MemChannel) (q : Fifo) (op : Op)
    → k < 4294967294
    → Stands (suc k) c q
    → Small op
    → Follows k (room c) (call c op) (Fifo.step (room c) q op)
unfolding Fifo.step
step_refines k c q (put buf) hk h hs = put_refines k c q buf hk h hs
step_refines k c q (get clock len) hk h hs = get_refines k c q clock len h

run_next :
    (c c' : MemChannel) (op : Op) (ops : List Op) (reply : Reply) (replies : List Reply)
    → call c op ≡ some (c', reply)
    → run_calls c' ops ≡ some replies
    → run_calls c (op ∷ ops) ≡ some (reply ∷ replies)
unfolding run_calls
run_next c c' op ops reply replies e f = rw (e, run_calls) (rw (f, run_calls) refl)

-- In a channel that stands for a queue of messages, where none of the next k operations, with k below
-- 2 ^ 32 - 1, would get the sequence of the last block, every list of at most k calls gives the replies
-- of the bounded first-in first-out queue: `mem_send` of fewer than 2 ^ 63 bytes appends the message
-- or refuses it for want of nodes, `mem_recv` returns the first message, whole and unchanged, or tells
-- that the buffer is too small or that there is none, and every call returns.
pub run_refines :
    (ops : List Op) (k : ℕ) (c : MemChannel) (q : Fifo)
    → All Small ops
    → length ops ≤ k
    → k < 4294967295
    → Stands k c q
    → run_calls c ops ≡ some (Fifo.run (room c) q ops)
unfolding run_calls Fifo.run Follows
run_refines [] k c q a hl hk h = refl
run_refines (op ∷ ops) zero c q (s, a) hl hk h = absurd (omega arith)
run_refines (op ∷ ops) (suc k) c q (s, a) hl hk h =
    let after = Fifo.step (room c) q op in
    let (c', e, same, h') = step_refines k c q op (omega arith) h s in
    let rest = run_refines ops k c' after.0 a (omega arith) (omega arith) h' in
    run_next c c' op ops after.1 (Fifo.run (room c) after.0 ops) e
      (rest ∙ ap (λ size. some (Fifo.run size after.0 ops)) same)
