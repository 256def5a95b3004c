-- ===== src/Channel/Stream.antt =====
-- The frames of src/channel_io_stream.cpp: what io_stream_send writes behind its request, and the loop
-- over the head buffer in io_stream_on_recv_read_fn, up to a message that needs a buffer of its own.
-- Lengths are numbers of 64 bits, the checksum is stored with its lowest byte first. The source then
-- passes the length of a frame to libuv as an unsigned int, which cuts frames of 2 ^ 32 bytes or more;
-- libuv and what it sends are not modelled. Nor is the capacity of the head buffer, 512 bytes: that a
-- read brings no more than there is room for is asserted of libuv where the head stage begins.
pub mod Frames
mod Tests
use libatbus.Base.{
  ℕ, zero, suc, ◌+◌, ◌-◌, ◌%◌, ◌^◌, List, [], ◌∷◌, ◌++◌, take, drop, length, Bool, ◌&&◌,
  if◌then◌else◌, ◌==◌, leb, ltb,
}
use libatbus.Status.{Status, success, bad_data, invalid_size}
use libatbus.Buffer.Vint.{read_vint, write_vint}
use libatbus.Channel.Bytes.{bytes, value}
use libatbus.Crc.{crc32}

-- The checksum of a message, in a `uint32_t`.
abbrev pub checksum : List ℕ → ℕ
checksum buf = crc32 0 buf % 2 ^ 32

-- The bytes from `buff_start` on that `io_stream_send` has written behind its request.
unfoldable pub frame : List ℕ → List ℕ
frame buf = bytes 4 (checksum buf) ++ (write_vint (length buf) 16).1 ++ buf

-- `errcode` for a message that stands whole in the head buffer.
unfoldable pub errcode : ℕ → List ℕ → ℕ → Status
errcode limit msg expect_crc =
    if checksum msg == expect_crc
    then if ltb 0 limit && ltb limit (length msg) then invalid_size else success
    else bad_data

-- What a turn of the loop finds: too few bytes; a whole message with its status, and the bytes behind
-- it; the start of a longer message, with its checksum, its length and what has come of it; or a
-- length for which the sum wraps, so that the code reads behind the buffer.
pub data Turn : Type 0 where
  waits : Turn
  whole : Status → List ℕ → List ℕ → Turn
  long : List ℕ → ℕ → List ℕ → Turn
  overruns : Turn

unfoldable pub head_turn : ℕ → List ℕ → Turn
unfolding errcode
head_turn limit bs =
    let (msg_len, vint_len) = read_vint (drop 4 bs) in
    let behind = drop vint_len (drop 4 bs) in
    if leb (length bs) 4
    then waits
    else if vint_len == 0
    then waits
    else if leb ((4 + vint_len + msg_len) % 2 ^ 64) (length bs)
    then if ltb (length behind) msg_len
      then overruns
      else whole (errcode limit (take msg_len behind) (value (take 4 bs))) (take msg_len behind)
          (drop msg_len behind)
    else long (take 4 bs) msg_len behind

-- The end of the loop: the bytes that stay in the head buffer, or what ends it otherwise.
pub record Stopped : Type 0 where
  pub delivered : List (Status × List ℕ)
  pub rest : List ℕ
  pub last : Turn

-- The loop, with as many turns as there are bytes.
unfoldable pub head_loop : ℕ → ℕ → List ℕ → Stopped
unfolding head_turn
head_loop zero limit bs = record { delivered = []; rest = bs; last = waits }
head_loop (suc turns) limit bs = elim (head_turn limit bs) [
  | waits ↦ record { delivered = []; rest = bs; last = waits }
  | whole ret msg rest ↦
      let after = head_loop turns limit rest in
      record after { delivered = (ret, msg) ∷ after.delivered }
  | long crc msg_len start ↦ record { delivered = []; rest = []; last = long crc msg_len start }
  | overruns ↦ record { delivered = []; rest = bs; last = overruns }
]

-- The head stage of a read, behind the assertion that the new bytes fit: the buffer with the new bytes
-- behind the old ones.
unfoldable pub on_head : ℕ → List ℕ → List ℕ → Stopped
unfolding head_loop
on_head limit head new = head_loop (length (head ++ new)) limit (head ++ new)
