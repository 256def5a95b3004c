-- ===== src/Channel/Stream/Tests.antt =====
-- Three messages, one of them empty and one longer than the limit, in two reads.
use libatbus.Base.{ℕ, ◌≡◌, List, [], ◌∷◌, ◌++◌, take, drop, take-drop, arith}
use libatbus.Channel.Stream.{waits, on_head}
use libatbus.Channel.Stream.Frames.{frames, verdicts, on_head-frames}

abbrev messages : List (List ℕ)
messages = (1 ∷ 2 ∷ 3 ∷ []) ∷ [] ∷ (4 ∷ 5 ∷ 6 ∷ 7 ∷ []) ∷ []

abbrev received : List ℕ
received = frames messages ++ 9 ∷ 9 ∷ []

on_head-frames_example :
    on_head 3 (take 7 received) (drop 7 received)
    ≡ record { delivered = verdicts 3 messages; rest = 9 ∷ 9 ∷ []; last = waits }
on_head-frames_example =
    on_head-frames 3 (take 7 received) (drop 7 received) messages (9 ∷ 9 ∷ [])
      (take-drop 7 received) (omega arith, (omega arith, (omega arith, tt))) (omega arith)
