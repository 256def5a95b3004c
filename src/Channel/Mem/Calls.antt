-- ===== src/Channel/Mem/Calls.antt =====
-- The calls of a user on a memory channel, with the sequences that the operations get.
use libatbus.Base.{
  ℕ, zero, suc, ◌+◌, ◌%◌, ◌^◌, ◌<◌, ◌≡◌, ◌≢◌, Option, none, some, List, [], ◌∷◌, arith, ◌==◌,
  if◌then◌else◌,
}
use libatbus.Status.{Status}
use libatbus.Channel.Mem.{MemChannel}
use libatbus.Channel.Mem.Send.{mem_send}
use libatbus.Channel.Mem.Recv.{mem_recv}
use libatbus.Channel.Mem.Fifo.{Op, put, get, Reply}

sent_to : MemChannel → Option MemChannel × Status → MemChannel × Reply
sent_to c (none, ret) = (c, (ret, none, none))
sent_to c (some c', ret) = (c', (ret, none, none))

-- None would be a call that does not return.
unfoldable pub call : MemChannel → Op → Option (MemChannel × Reply)
unfolding sent_to
call c (put buf) = some (sent_to c (mem_send (some c) buf))
call c (get clock len) = elim (mem_recv clock c len) [
  | none ↦ none
  | some r ↦ some (r.channel, (r.ret, r.content, r.recv_size))
]

unfoldable pub run_calls : MemChannel → List Op → Option (List Reply)
unfolding call
run_calls c [] = some []
run_calls c (op ∷ ops) = elim (call c op) [
  | none ↦ none
  | some (c', reply) ↦ elim (run_calls c' ops) [ none ↦ none | some rs ↦ some (reply ∷ rs) ]
]

-- The sequence behind `s`, and the one `i` operations later.
abbrev pub seq_step : ℕ → ℕ
seq_step s = let next = (s + 1) % 2 ^ 32 in if next == 0 then (s + 2) % 2 ^ 32 else next

unfoldable pub later : ℕ → ℕ → ℕ
later zero s = seq_step s
later (suc i) s = later i (seq_step s)

pub seq_step_bounds : (s : ℕ) → (0 < seq_step s) × (seq_step s < 2 ^ 32)
seq_step_bounds s = ground arith

seq_step_lem : (t : ℕ) → 0 < t → t < 2 ^ 32 → seq_step t ≡ t % 4294967295 + 1
seq_step_lem t h0 ht = ground arith

later_lem : (i t : ℕ) → 0 < t → t < 2 ^ 32 → later i t ≡ (t + i) % 4294967295 + 1
unfolding later
later_lem zero t h0 ht = ground arith
later_lem (suc i) t h0 ht =
    let (b0, b1) = seq_step_bounds t in
    omega (arith, later_lem i (seq_step t) b0 b1, seq_step_lem t h0 ht)

-- Within 2 ^ 32 - 2 operations no sequence comes twice.
pub later_differs : (i t : ℕ) → 0 < t → t < 2 ^ 32 → i + 1 < 4294967295 → later i t ≢ t
later_differs i t h0 ht hi = λ e. omega (arith, later_lem i t h0 ht)
