-- ===== src/Channel/Stream/Frames.antt =====
-- What is sent as frames is received as messages.
use libatbus.Base.{
  ℕ, zero, suc, ◌+◌, ◌%◌, ◌^◌, ◌≤◌, ◌<◌, ◌≡◌, ◌≢◌, refl, ap, subst, ◌∙◌, List, [], ◌∷◌, ◌++◌, take,
  drop, length, length-append, take-append, drop-append, All, arith, if◌then◌else◌, ◌==◌, leb, ltb,
  ◌&&◌, if_true, if_false, le→leb, ==_iff,
}
use libatbus.Status.{Status, success, invalid_size}
use libatbus.Buffer.Vint.{read_vint, write_vint}
use libatbus.Buffer.Vint.RoundTrip.{read-write_vint}
use libatbus.Buffer.Vint.Bounds.{write_vint_fits, write_vint_least}
use libatbus.Channel.Bytes.{bytes, value}
use libatbus.Channel.Stream.{checksum, frame, errcode, waits, whole, head_turn, head_loop, on_head}

append_assoc : (xs ys zs : List ℕ) → (xs ++ ys) ++ zs ≡ xs ++ (ys ++ zs)
append_assoc [] ys zs = refl
append_assoc (x ∷ xs) ys zs = ap (λ r. x ∷ r) (append_assoc xs ys zs)

-- The field of 32 bits that holds a checksum.
value-bytes : (v : ℕ) → v < 2 ^ 32 → value (bytes 4 v) ≡ v
unfolding value bytes
value-bytes v h = omega (arith, h)

drop_here : (k : ℕ) (xs ys : List ℕ) → length xs ≡ k → drop k (xs ++ ys) ≡ ys
drop_here k xs ys e = subst (λ k. drop k (xs ++ ys) ≡ ys) (omega (arith, e)) (drop-append xs ys 0)

module _ (limit v k : ℕ) (vs buf rest : List ℕ)
    (reads : read_vint (vs ++ (buf ++ rest)) ≡ (length buf, k)) (len : length vs ≡ k)
    (some_byte : 0 < k) (few : k ≤ 16) (short : length buf < 2 ^ 63) (small : v < 2 ^ 32) where
  abbrev bs : List ℕ
  bs = bytes 4 v ++ (vs ++ (buf ++ rest))

  length-bs : length bs ≡ 4 + k + length buf + length rest
  unfolding bytes
  length-bs = omega (arith, length-append vs (buf ++ rest), length-append buf rest, len)

  behind : drop k (drop 4 bs) ≡ buf ++ rest
  unfolding bytes
  behind = drop_here k vs (buf ++ rest) len

  crc_field : value (take 4 bs) ≡ v
  unfolding bytes
  crc_field = value-bytes v small

  reads_len : read_vint (drop 4 bs) ≡ (length buf, k)
  unfolding bytes
  reads_len = reads

  turn_whole : head_turn limit bs ≡ whole (errcode limit buf v) buf rest
  unfolding head_turn
  turn_whole =
      rw
        (
          reads_len,
          behind,
          crc_field,
          take-append buf rest,
          drop_here (length buf) buf rest refl,
          head_turn,
        )
        (if_false (leb (length bs) 4) _ _ (ground (arith, length-bs, some_byte))
          ∙ if_false (k == 0) _ _ (ground (arith, some_byte))
          ∙ if_true (leb ((4 + k + length buf) % 2 ^ 64) (length bs)) _ _
              (le→leb _ _ (omega (arith, length-bs, few, short)))
          ∙ if_false (ltb (length (buf ++ rest)) (length buf)) _ _
              (ground (arith, length-append buf rest)))

-- What the receiver is told of a whole message: that it came, or that it is longer than the limit.
abbrev pub verdict : ℕ → List ℕ → Status × List ℕ
verdict limit buf = (if ltb 0 limit && ltb limit (length buf) then invalid_size else success, buf)

abbrev pub verdicts : ℕ → List (List ℕ) → List (Status × List ℕ)
verdicts limit [] = []
verdicts limit (buf ∷ bufs) = verdict limit buf ∷ verdicts limit bufs

-- The frames of messages, one behind the other.
abbrev pub frames : List (List ℕ) → List ℕ
frames [] = []
frames (buf ∷ bufs) = frame buf ++ frames bufs

module _ (limit : ℕ) (buf rest : List ℕ) (short : length buf < 2 ^ 63) where
  abbrev vint : ℕ × List ℕ
  vint = write_vint (length buf) 16

  fits : vint.0 ≢ 0
  fits = (write_vint_fits (length buf) 15).1 (omega (arith, short))

  frame_bytes : frame buf ++ rest ≡ bytes 4 (checksum buf) ++ (vint.1 ++ (buf ++ rest))
  unfolding frame
  frame_bytes =
      append_assoc (bytes 4 (checksum buf) ++ vint.1) buf rest
      ∙ append_assoc (bytes 4 (checksum buf)) vint.1 (buf ++ rest)

  small_checksum : checksum buf < 2 ^ 32
  small_checksum = omega arith

  accepted : errcode limit buf (checksum buf) ≡ (verdict limit buf).0
  unfolding errcode
  accepted =
      if_true (checksum buf == checksum buf) _ _ ((==_iff (checksum buf) (checksum buf)).1 refl)

  head_turn-frame : head_turn limit (frame buf ++ rest) ≡ whole (verdict limit buf).0 buf rest
  head_turn-frame =
      let (reads, len) =
        read-write_vint (length buf) 16 (buf ++ rest) (omega (arith, short)) fits in
      let few = (write_vint_least (length buf) 16 fits).0 in
      ap (head_turn limit) frame_bytes
      ∙ turn_whole limit (checksum buf) vint.0 vint.1 buf rest reads len (omega (arith, fits)) few
          short small_checksum
      ∙ ap (λ ret. whole ret buf rest) accepted

  length-frame : length rest < length (frame buf ++ rest)
  length-frame =
      let (reads, len) =
        read-write_vint (length buf) 16 (buf ++ rest) (omega (arith, short)) fits in
      let few = (write_vint_least (length buf) 16 fits).0 in
      omega (
        arith,
        ap length frame_bytes,
        length-bs limit (checksum buf) vint.0 vint.1 buf rest reads len (omega (arith, fits)) few
            short small_checksum,
      )

abbrev pub Short : List ℕ → Type 0
Short buf = length buf < 2 ^ 63

waits_turn : (limit : ℕ) (tail : List ℕ) → length tail ≤ 4 → head_turn limit tail ≡ waits
unfolding head_turn
waits_turn limit tail h = if_true (leb (length tail) 4) _ _ (le→leb _ _ h)

head_loop-waits :
    (turns limit : ℕ) (tail : List ℕ)
    → length tail ≤ 4
    → head_loop turns limit tail ≡ record { delivered = []; rest = tail; last = waits }
unfolding head_loop
head_loop-waits zero limit tail h = refl
head_loop-waits (suc t) limit tail h = rw (waits_turn limit tail h, head_loop) refl

head_loop-frames :
    (turns limit : ℕ) (bufs : List (List ℕ)) (tail : List ℕ)
    → All Short bufs
    → length tail ≤ 4
    → length (frames bufs ++ tail) ≤ turns
    → head_loop turns limit (frames bufs ++ tail)
      ≡ record { delivered = verdicts limit bufs; rest = tail; last = waits }
unfolding head_loop
head_loop-frames turns limit [] tail hs ht hn = head_loop-waits turns limit tail ht
head_loop-frames zero limit (buf ∷ bufs) tail (h, hs) ht hn =
    let more = length-frame limit buf (frames bufs ++ tail) h in
    let same = ap length (append_assoc (frame buf) (frames bufs) tail) in
    absurd (omega (arith, more, same, hn))
head_loop-frames (suc t) limit (buf ∷ bufs) tail (h, hs) ht hn =
    let more = length-frame limit buf (frames bufs ++ tail) h in
    let same = append_assoc (frame buf) (frames bufs) tail in
    let rest = head_loop-frames t limit bufs tail hs ht (omega (arith, more, ap length same, hn)) in
    ap (head_loop (suc t) limit) same
    ∙ rw (head_turn-frame limit buf (frames bufs ++ tail) h, head_loop) (rw rest refl)

-- Where the bytes in the head buffer and those that are read behind them are the frames that
-- io_stream_send makes of messages with fewer than 2 ^ 63 bytes each, and at most four bytes more, the
-- receiver is given these messages, whole and in order, each with success or, where it is longer than
-- a limit that is set, with the status for that; the bytes behind the last frame stay.
pub on_head-frames :
    (limit : ℕ) (head new : List ℕ) (bufs : List (List ℕ)) (tail : List ℕ)
    → head ++ new ≡ frames bufs ++ tail
    → All Short bufs
    → length tail ≤ 4
    → on_head limit head new ≡ record { delivered = verdicts limit bufs; rest = tail; last = waits }
unfolding on_head
on_head-frames limit head new bufs tail e hs ht =
    ap (λ bs. head_loop (length bs) limit bs) e
    ∙ head_loop-frames (length (frames bufs ++ tail)) limit bufs tail hs ht (omega arith)
