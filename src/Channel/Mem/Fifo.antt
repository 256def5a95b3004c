-- ===== src/Channel/Mem/Fifo.antt =====
-- What a memory channel promises: a queue of messages, first in, first out, in a number of nodes.
use libatbus.Base.{
  ℕ, ◌+◌, Option, none, some, List, [], ◌∷◌, ◌++◌, length, if◌then◌else◌, ◌==◌, ltb,
}
use libatbus.Status.{Status, success, no_data, buff_limit}
use libatbus.Channel.Mem.Blocks.{nodes}

-- What a user can ask: a message to send, or to receive into a buffer with so many bytes. The clock
-- that the receiver reads is the user's.
pub data Op : Type 0 where
  put : List ℕ → Op
  get : (ℕ → ℕ) → ℕ → Op

-- The status, the bytes received, and the size that the receiver is told.
abbrev pub Reply : Type 0
Reply = Status × Option (List ℕ) × Option ℕ

abbrev pub Fifo : Type 0
Fifo = List (List ℕ)

abbrev pub used : Fifo → ℕ
used [] = 0
used (buf ∷ q) = nodes buf + used q

-- An empty message is not sent.
unfoldable pub send : ℕ → Fifo → List ℕ → Fifo × Reply
send room q buf =
    if length buf == 0
    then (q, (success, none, none))
    else if ltb room (used q + nodes buf)
    then (q, (buff_limit, none, none))
    else (q ++ buf ∷ [], (success, none, none))

-- A message that is too long for the buffer stays.
unfoldable pub receive : ℕ → Fifo → Fifo × Reply
receive len [] = ([], (no_data, none, none))
receive len (buf ∷ q) =
    if ltb len (length buf)
    then (buf ∷ q, (buff_limit, none, some (length buf)))
    else (q, (success, some buf, some (length buf)))

unfoldable pub step : ℕ → Fifo → Op → Fifo × Reply
unfolding send receive
step room q (put buf) = send room q buf
step room q (get clock len) = receive len q

unfoldable pub run : ℕ → Fifo → List Op → List Reply
unfolding step
run room q [] = []
run room q (op ∷ ops) = let (q', reply) = step room q op in reply ∷ run room q' ops
