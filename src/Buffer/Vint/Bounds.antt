-- ===== src/Buffer/Vint/Bounds.antt =====
-- How many bytes a number takes.
use Prim.Native.Nat.{bit_and, bit_or}
use native.Mathlib.Nat.{pow-suc, one-le-pow}
use native.Mathlib.Numerals.{sub-one}
use libatbus.Base.{
  ℕ, zero, suc, ◌+◌, ◌-◌, ◌*◌, ◌/◌, ◌^◌, ◌≤◌, ◌<◌, ◌≡◌, ◌≢◌, ◌↔◌, ◌⊎◌, inl, inr, refl, ap, List, [],
  ◌∷◌, arith, length, ◌==◌, Bool-cases,
}
use libatbus.Buffer.Vint.{write_loop, write_end, write_vint}

-- The loop ends with 0 left exactly where the number fits the room.
write_loop_fits : (room n : ℕ) (out : List ℕ) → ((write_loop room n out).0 ≡ 0) ↔ (n < 128 ^ room)
unfolding write_loop
write_loop_fits zero n out = (λ e. omega arith, λ h. omega arith)
write_loop_fits (suc room) n out = ground (
  arith,
  pow-suc 128 room,
  one-le-pow room 128,
  write_loop_fits room (n / 128) (bit_or 0x80 (bit_and 0x7f n) ∷ out),
)

-- The loop, ended with nothing left, has added `d` bytes, and no fewer would have held `n`.
abbrev Took : ℕ → List ℕ → List ℕ → Type 0
Took n out out' =
    (d : ℕ) × (length out' ≡ length out + d) × (n < 128 ^ d) × ((d ≡ 0) ⊎ (128 ^ d ≤ n * 128))

write_loop-Took :
    (room n : ℕ) (out : List ℕ)
    → (write_loop room n out).0 ≡ 0
    → Took n out (write_loop room n out).1
unfolding write_loop
write_loop-Took zero n out e = (0, omega arith, omega arith, inl refl)
write_loop-Took (suc room) n out e = elim (Bool-cases (n == 0)) [
  | inl z ↦ rw z (0, omega arith, ground arith, inl refl)
  | inr nz ↦
      let out' : List ℕ = bit_or 0x80 (bit_and 0x7f n) ∷ out in
      let (d, len, lt, least) = write_loop-Took room (n / 128) out' (rw nz at e) in
      rw nz (suc d, omega arith, omega (arith, pow-suc 128 d), inr (ground (arith, pow-suc 128 d)))
]

write_end-count :
    (m : ℕ) (out : List ℕ)
    → (write_end (m, out)).0 ≢ 0
    → (m ≡ 0) × (length out ≡ (write_end (m, out)).0)
unfolding write_end
write_end-count zero out ne = (refl, refl)
write_end-count (suc m) out ne = absurd (ne (ground arith))

write_loop-length :
    (room n : ℕ) (out : List ℕ)
    → (length out ≤ length (write_loop room n out).1)
      × (length (write_loop room n out).1 ≤ length out + room)
unfolding write_loop
write_loop-length zero n out = omega arith
write_loop-length (suc room) n out =
    ground (arith, write_loop-length room (n / 128) (bit_or 0x80 (bit_and 0x7f n) ∷ out))

write_end-ne : (m : ℕ) (out : List ℕ) → m ≡ 0 → 1 ≤ length out → (write_end (m, out)).0 ≢ 0
unfolding write_end
write_end-ne m out e h = ground arith

-- With a buffer of `suc s` bytes `write_vint` succeeds exactly on the integers below 128 ^ suc s.
pub write_vint_fits : (v s : ℕ) → ((write_vint v (suc s)).0 ≢ 0) ↔ (v < 128 ^ suc s)
unfolding write_vint
write_vint_fits v s = (
  λ ne. omega (arith, pow-suc 128 s, fits.0 (write_end-count m out ne).0),
  λ h. write_end-ne m out (fits.1 (omega (arith, pow-suc 128 s))) (omega (arith, long)),
)
  where
    first : List ℕ
    first = bit_and 0x7f v ∷ []

    m : ℕ
    m = (write_loop s (v / 128) first).0

    out : List ℕ
    out = (write_loop s (v / 128) first).1

    fits : (m ≡ 0) ↔ (v / 128 < 128 ^ s)
    fits = write_loop_fits s (v / 128) first

    long : length first ≤ length out
    long = (write_loop-length s (v / 128) first).0

least_groups :
    (v d n s : ℕ)
    → suc d ≡ n
    → d ≤ s
    → v / 128 < 128 ^ d
    → (d ≡ 0) ⊎ (128 ^ d ≤ v / 128 * 128)
    → (n ≤ suc s) × (v < 128 ^ n) × ((n ≡ 1) ⊎ (128 ^ (n - 1) ≤ v))
least_groups v d n s e le lt least =
    rw (← e) (
      omega arith,
      omega (arith, pow-suc 128 d),
      ground (arith, ap (λ (t : ℕ). 128 ^ t) (sub-one d)),
    )

-- Where `write_vint` succeeds it stays within its buffer and takes the fewest groups of seven bits
-- that hold the integer.
pub write_vint_least :
    (v s : ℕ)
    → (write_vint v s).0 ≢ 0
    → let n = (write_vint v s).0 in (n ≤ s) × (v < 128 ^ n) × ((n ≡ 1) ⊎ (128 ^ (n - 1) ≤ v))
unfolding write_vint
write_vint_least v zero ne = absurd (ne refl)
write_vint_least v (suc s) ne =
    let first : List ℕ = bit_and 0x7f v ∷ [] in
    let (m, out) = write_loop s (v / 128) first in
    let (done, count) = write_end-count m out ne in
    let (d, len, lt, least) = write_loop-Took s (v / 128) first done in
    let room = (write_loop-length s (v / 128) first).1 in
    least_groups v d _ s (omega (arith, count, len)) (omega (arith, len, room)) lt least
