-- ===== src/Buffer/Vint.antt =====
-- `fn::read_vint` and `fn::write_vint` of src/detail/buffer.cpp.
-- The `s` bytes at a pointer are a list of `s` numbers; a null pointer is the empty list.
pub mod RoundTrip
pub mod Bounds
pub mod AnyInput
mod Tests
use Prim.Native.Nat.{bit_and, bit_or}
use libatbus.Base.{
  ℕ, zero, suc, ◌+◌, ◌*◌, ◌/◌, ◌%◌, ◌^◌, List, [], ◌∷◌, ◌++◌, reverse, if◌then◌else◌, ◌==◌, length,
}

-- `out <<= 7; out |= 0x7F & *d;` on a `uint64_t`.
pub push_group : ℕ → ℕ → ℕ
push_group out b = bit_or (out * 2 ^ 7 % 2 ^ 64) (bit_and 0x7f b)

-- The loop of `read_vint`, with the bytes from `d` on and `s - left`.
pub read_loop : List ℕ → ℕ → ℕ → ℕ × ℕ
read_loop [] out used = (out, used)
read_loop (b ∷ []) out used = (push_group out b, if bit_and 0x80 b == 0 then used + 1 else 0)
read_loop (b ∷ c ∷ bs) out used =
    let rest = read_loop (c ∷ bs) (push_group out b) (used + 1) in
    if bit_and 0x80 b == 0 then (push_group out b, used + 1) else rest

-- The integer and the number of bytes that it took, 0 on failure.
unfoldable pub read_vint : List ℕ → ℕ × ℕ
unfolding read_loop push_group
read_vint src = read_loop src 0 0

-- The loop of `write_vint` with `s - used` bytes left: what is left of `in`, and the bytes written,
-- the last one first.
pub write_loop : ℕ → ℕ → List ℕ → ℕ × List ℕ
write_loop zero n out = (n, out)
write_loop (suc room) n out =
    if n == 0 then (n, out) else write_loop room (n / 2 ^ 7) (bit_or 0x80 (bit_and 0x7f n) ∷ out)

-- `if (in) return 0;`, and the bytes are turned round otherwise.
pub write_end : ℕ × List ℕ → ℕ × List ℕ
write_end (n, out) = if n == 0 then (length out, out) else (0, reverse out)

-- The number of bytes used, 0 on failure, and the bytes written in memory order.
unfoldable pub write_vint : ℕ → ℕ → ℕ × List ℕ
unfolding write_loop write_end
write_vint n zero = (0, [])
write_vint n (suc s) = write_end (write_loop s (n / 2 ^ 7) (bit_and 0x7f n ∷ []))
