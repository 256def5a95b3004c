-- ===== src/Buffer/Manager/Counts.antt =====
-- The counters of the limit against the blocks in the list, in dynamic mode.
use libatbus.Base.{
  ℕ, ◌+◌, ◌^◌, ◌≤◌, ◌<◌, ◌≡◌, Bool, Option, none, some, List, [], ◌∷◌, ◌++◌, length, All, arith,
}
use libatbus.Buffer.Block.{Block, left_size, block_pop, malloc, create}
use libatbus.Buffer.Manager.{Limit, Manager, pop_block, clamp}

-- The bytes left in all the blocks.
abbrev pub total : List Block → ℕ
total [] = 0
total (b ∷ bs) = left_size b + total bs

abbrev pub InBounds : Block → Type 0
InBounds b = (b.used ≤ b.size) × (b.size < 2 ^ 64)

-- The counters are the number of blocks and the bytes left in them.
abbrev pub Counted : Limit → List Block → Type 0
Counted l bs =
    (l.cost_number ≡ length bs)
    × (l.cost_size ≡ total bs)
    × All InBounds bs
    × (length bs < 2 ^ 64)
    × (total bs < 2 ^ 64)

-- Neither limit is passed; a limit of 0 is none.
abbrev pub Limited : Limit → List Block → Type 0
Limited l bs =
    (0 < l.limit_number → length bs ≤ l.limit_number) × (0 < l.limit_size → total bs ≤ l.limit_size)

abbrev pub Sound : Manager → Type 0
Sound m = Counted m.limit m.dynamic_buffer × Limited m.limit m.dynamic_buffer

pub malloc-some :
    (ret : Option ℕ) (s : ℕ) {b : Block}
    → s < 2 ^ 64
    → malloc ret s ≡ some b
    → InBounds b × (left_size b ≡ s)
unfolding malloc create
malloc-some none s h e = ground arith
malloc-some (some r) s h e = ground arith

pub total-append : (xs ys : List Block) → total (xs ++ ys) ≡ total xs + total ys
total-append [] ys = omega arith
total-append (x ∷ xs) ys = omega (arith, total-append xs ys)

-- What a pop makes of its block: the bytes it takes are gone, and only a block without any is freed.
abbrev pub PoppedFrom : Block → ℕ → Option Block → Type 0
PoppedFrom t s none = left_size t ≡ s
PoppedFrom t s (some t') = InBounds t' × (left_size t' + s ≡ left_size t)

pub pop_block_lem :
    (t : Block) (s : ℕ) (free : Bool)
    → InBounds t
    → PoppedFrom t (clamp s t) (pop_block t (clamp s t) free)
unfolding pop_block block_pop
pop_block_lem t s free h = ground arith
