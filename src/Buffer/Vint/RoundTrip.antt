-- ===== src/Buffer/Vint/RoundTrip.antt =====
-- Reading back what was written, and how many bytes a number takes.
use Prim.Native.Nat.{bit_and, bit_or}
use libatbus.Base.{
  ℕ, zero, suc, ◌+◌, ◌*◌, ◌/◌, ◌%◌, ◌^◌, ◌<◌, ◌≡◌, ◌≢◌, refl, inl, inr, Bool-cases, ◌==◌, List, [],
  ◌∷◌, ◌++◌, arith, length,
}
use libatbus.Base.Bits.{low_bits, top_bit, set_top_bit, bit_or_fields}
use libatbus.Buffer.Vint.{push_group, read_loop, read_vint, write_loop, write_end, write_vint}

-- The accumulator after one byte, where nothing is shifted out.
push_group_lem : (out b : ℕ) → out < 2 ^ 57 → push_group out b ≡ out * 128 + b % 128
unfolding push_group
push_group_lem out b h = ground (arith, low_bits b, bit_or_fields 7 out (b % 128))

-- The byte that `write_vint` puts over the low group of `n`.
pub inner_byte : (n : ℕ) → bit_or 0x80 (bit_and 0x7f n) ≡ n % 128 + 128
inner_byte n = rw low_bits (set_top_bit (n % 128) (omega arith))

-- Reading `out` takes the accumulator from `n` to `v`, and counts the bytes of `out`.
abbrev Reads : List ℕ → List ℕ → ℕ → ℕ → Type 0
Reads out rest n v = (used : ℕ) → read_loop (out ++ rest) n used ≡ (v, used + length out)

Reads-cons :
    (c : ℕ) (cs rest : List ℕ) (n v : ℕ)
    → n < 2 ^ 64
    → Reads (c ∷ cs) rest n v
    → Reads (bit_or 0x80 (bit_and 0x7f n) ∷ c ∷ cs) rest (n / 2 ^ 7) v
unfolding read_loop
Reads-cons c cs rest n v h r used = ground (
  arith,
  inner_byte n,
  top_bit (n % 128 + 128),
  push_group_lem (n / 128) (n % 128 + 128),
  r (used + 1),
)

write_loop-Reads :
    (room n c : ℕ) (cs rest : List ℕ) (v : ℕ)
    → n < 2 ^ 64
    → Reads (c ∷ cs) rest n v
    → let (m, out) = write_loop room n (c ∷ cs) in Reads out rest m v
unfolding write_loop
write_loop-Reads zero n c cs rest v h r = r
write_loop-Reads (suc room) n c cs rest v h r = elim (Bool-cases (n == 0)) [
  | inl e ↦ rw e r
  | inr e ↦ rw e (
      write_loop-Reads room (n / 128) _ (c ∷ cs) rest v (omega arith)
        (Reads-cons c cs rest n v h r))
]

module _ (v : ℕ) (rest : List ℕ) (h : v < 2 ^ 64) where
  last_byte-Reads : Reads (bit_and 0x7f v ∷ []) rest (v / 2 ^ 7) v
  unfolding read_loop
  last_byte-Reads used =
      elim rest as (λ r. read_loop (bit_and 0x7f v ∷ r) (v / 2 ^ 7) used ≡ (v, used + 1)) [
        | [] ↦ ground (arith, low_bits v, top_bit (v % 128), push_group_lem (v / 128) (v % 128))
        | c ∷ cs ↦ ground (arith, low_bits v, top_bit (v % 128), push_group_lem (v / 128) (v % 128))
      ]

write_end-Reads :
    (m : ℕ) (out rest : List ℕ) (v : ℕ)
    → Reads out rest m v
    → (write_end (m, out)).0 ≢ 0
    → (read_loop ((write_end (m, out)).1 ++ rest) 0 0 ≡ (v, (write_end (m, out)).0))
      × (length (write_end (m, out)).1 ≡ (write_end (m, out)).0)
unfolding write_end
write_end-Reads zero out rest v r ne = ground (arith, r 0)
write_end-Reads (suc m) out rest v r ne = absurd (ne (ground arith))

-- Where `write_vint` reports success for a 64-bit integer, `read_vint` reads the integer back from
-- the bytes written, whatever follows them, and takes exactly as many bytes as were reported.
pub read-write_vint :
    (v s : ℕ) (rest : List ℕ)
    → v < 2 ^ 64
    → (write_vint v s).0 ≢ 0
    → (read_vint ((write_vint v s).1 ++ rest) ≡ (v, (write_vint v s).0))
      × (length (write_vint v s).1 ≡ (write_vint v s).0)
unfolding write_vint read_vint
read-write_vint v zero rest h ne = absurd (ne refl)
read-write_vint v (suc s) rest h ne =
    let (m, out) = write_loop s (v / 2 ^ 7) (bit_and 0x7f v ∷ []) in
    write_end-Reads m out rest v
      (write_loop-Reads s (v / 2 ^ 7) _ [] rest v (omega arith) (last_byte-Reads v rest h)) ne
