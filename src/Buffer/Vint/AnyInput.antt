-- ===== src/Buffer/Vint/AnyInput.antt =====
-- What `read_vint` does on any bytes, well formed or not.
use Prim.Native.Nat.{bit_and}
use libatbus.Base.{ℕ, ◌+◌, ◌≤◌, ◌≡◌, ◌≢◌, ◌↔◌, refl, List, [], ◌∷◌, ◌++◌, arith, length, All}
use libatbus.Buffer.Vint.{push_group, read_loop, read_vint}

-- The first bit says that more bytes follow.
abbrev pub HasMore : ℕ → Type 0
HasMore b = bit_and 0x80 b ≢ 0

read_loop_fails :
    (b : ℕ) (bs : List ℕ) (out used : ℕ)
    → ((read_loop (b ∷ bs) out used).1 ≡ 0) ↔ All HasMore (b ∷ bs)
unfolding read_loop
read_loop_fails b [] out used = ground arith
read_loop_fails b (c ∷ bs) out used =
    ground (arith, read_loop_fails c bs (push_group out b) (used + 1))

-- `read_vint` fails exactly on the inputs in which every byte says that more follow, the empty
-- input included.
pub read_vint_fails : (src : List ℕ) → ((read_vint src).1 ≡ 0) ↔ All HasMore src
unfolding read_vint
read_vint_fails [] = (λ e. tt, λ h. refl)
read_vint_fails (b ∷ bs) = read_loop_fails b bs 0 0

read_loop-le : (src : List ℕ) (out used : ℕ) → (read_loop src out used).1 ≤ used + length src
unfolding read_loop
read_loop-le [] out used = omega arith
read_loop-le (b ∷ []) out used = ground arith
read_loop-le (b ∷ c ∷ bs) out used =
    ground (arith, read_loop-le (c ∷ bs) (push_group out b) (used + 1))

read_loop-append :
    (b : ℕ) (bs more : List ℕ) (out used : ℕ)
    → (read_loop (b ∷ bs) out used).1 ≢ 0
    → read_loop (b ∷ bs ++ more) out used ≡ read_loop (b ∷ bs) out used
unfolding read_loop
read_loop-append b [] [] out used ne = refl
read_loop-append b [] (m ∷ ms) out used ne = ground arith
read_loop-append b (c ∷ bs) more out used ne =
    ground (arith, read_loop-append c bs more (push_group out b) (used + 1))

-- Where `read_vint` succeeds it takes at most the bytes that there are, and neither the integer nor
-- the count depends on the bytes that follow.
pub read_vint_stable :
    (src more : List ℕ)
    → (read_vint src).1 ≢ 0
    → ((read_vint src).1 ≤ length src) × (read_vint (src ++ more) ≡ read_vint src)
unfolding read_vint
read_vint_stable [] more ne = absurd (ne refl)
read_vint_stable (b ∷ bs) more ne =
    (omega (arith, read_loop-le (b ∷ bs) 0 0), read_loop-append b bs more 0 0 ne)
