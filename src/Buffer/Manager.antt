-- ===== src/Buffer/Manager.antt =====
-- `buffer_manager` of src/detail/buffer.cpp in dynamic mode: each block is allocated by itself, and
-- they stand in a `std::list`. (`static_buffer_.buffer_` is null throughout.)
pub mod Counts
pub mod Push
pub mod Pop
pub mod Ends
mod Tests
use libatbus.Base.{
  ℕ, ◌+◌, ◌-◌, ◌%◌, ◌^◌, Bool, true, false, ◌&&◌, Option, none, some, List, [], ◌∷◌, ◌++◌,
  if◌then◌else◌, ◌==◌, ltb, leb,
}
use libatbus.Status.{Status, success, no_data, buff_limit, malloc_failed, is_error}
use libatbus.Buffer.Block.{Block, add_size, block_data, left_size, block_pop, malloc}

-- `buffer_manager::limit_t`
pub record Limit : Type 0 where
  pub cost_number : ℕ
  pub cost_size : ℕ
  pub limit_number : ℕ
  pub limit_size : ℕ

pub record Manager : Type 0 where
  pub dynamic_buffer : List Block
  pub limit : Limit

abbrev no_limit : Limit
no_limit = record { cost_number = 0; cost_size = 0; limit_number = 0; limit_size = 0 }

-- `reset`, and so the constructor.
pub reset : Manager → Manager
reset m = record { dynamic_buffer = []; limit = no_limit }

pub set_limit : Manager → ℕ → ℕ → Manager × Bool
set_limit m max_size max_number =
    (record m { limit = record m.limit { limit_number = max_number; limit_size = max_size } }, true)

-- The guards at the head of `push_back` and `push_front`.
pub over_limit : Limit → ℕ → Bool
over_limit l s =
    if ltb 0 l.limit_number && leb l.limit_number l.cost_number
    then true
    else ltb 0 l.limit_size && ltb l.limit_size (add_size l.cost_size s)

pub charge : Limit → ℕ → Limit
charge l s = record l { cost_number = add_size l.cost_number 1; cost_size = add_size l.cost_size s }

dynamic_push_back : List Block → Option Block → List Block × Status × Option ℕ
dynamic_push_back bs none = (bs, malloc_failed, none)
dynamic_push_back bs (some b) = (bs ++ b ∷ [], success, some (block_data b))

dynamic_push_front : List Block → Option Block → List Block × Status × Option ℕ
dynamic_push_front bs none = (bs, malloc_failed, none)
dynamic_push_front bs (some b) = (b ∷ bs, success, some (block_data b))

-- `if (res >= 0) { ++ limit_.cost_number_; limit_.cost_size_ += s; }`
pushed : Manager → ℕ → List Block × Status × Option ℕ → Manager × Status × Option ℕ
pushed m s (bs, res, pointer) =
    if is_error res
    then (record m { dynamic_buffer = bs }, res, pointer)
    else (record { dynamic_buffer = bs; limit = charge m.limit s }, res, pointer)

-- The new manager, the status and `pointer`. `ret` is what `::malloc` returns.
unfoldable pub push_back : Manager → ℕ → Option ℕ → Manager × Status × Option ℕ
unfolding over_limit charge pushed dynamic_push_back is_error
push_back m s ret =
    if over_limit m.limit s
    then (m, buff_limit, none)
    else pushed m s (dynamic_push_back m.dynamic_buffer (malloc ret s))

unfoldable pub push_front : Manager → ℕ → Option ℕ → Manager × Status × Option ℕ
unfolding over_limit charge pushed dynamic_push_front is_error
push_front m s ret =
    if over_limit m.limit s
    then (m, buff_limit, none)
    else pushed m s (dynamic_push_front m.dynamic_buffer (malloc ret s))

-- What becomes of the block that is popped from: `none` if it is freed.
pub pop_block : Block → ℕ → Bool → Option Block
pop_block t s free_unwritable =
    let t' = block_pop t s in if free_unwritable && left_size t' == 0 then none else some t'

-- The end of the two pop functions: `freed`, whether the list is empty now, and the bytes popped.
pub settle : Limit → Bool → Bool → ℕ → Limit
settle l freed true s = record l { cost_size = 0; cost_number = 0 }
settle l freed false s = record l {
  cost_number = if freed && ltb 0 l.cost_number then l.cost_number - 1 else l.cost_number;
  cost_size = if leb s l.cost_size then l.cost_size - s else 0;
}

unfoldable pub is_empty : List Block → Bool
is_empty [] = true
is_empty (b ∷ bs) = false

popped : Manager → List Block → Bool → ℕ → Manager × Status
popped m bs freed s =
    (record { dynamic_buffer = bs; limit = settle m.limit freed (is_empty bs) s }, success)

-- `if (s > t->size()) s = t->size();`
abbrev pub clamp : ℕ → Block → ℕ
clamp s t = if ltb (left_size t) s then left_size t else s

pop_front_at : Manager → List Block → ℕ → Bool → Manager × Status
pop_front_at m [] s free_unwritable = (m, no_data)
pop_front_at m (t ∷ bs) s free_unwritable = elim (pop_block t (clamp s t) free_unwritable) [
  | none ↦ popped m bs true (clamp s t)
  | some t' ↦ popped m (t' ∷ bs) false (clamp s t)
]

unfoldable pub pop_front : Manager → ℕ → Bool → Manager × Status
unfolding pop_front_at pop_block popped settle is_empty block_pop
pop_front m s free_unwritable = pop_front_at m m.dynamic_buffer s free_unwritable

-- The blocks before the last one, and the last one.
pub split_last : List Block → Option (List Block × Block)
split_last [] = none
split_last (b ∷ bs) = elim (split_last bs) [ none ↦ some ([], b) | some (i, t) ↦ some (b ∷ i, t) ]

pop_back_at : Manager → Option (List Block × Block) → ℕ → Bool → Manager × Status
pop_back_at m none s free_unwritable = (m, no_data)
pop_back_at m (some (bs, t)) s free_unwritable = elim (pop_block t (clamp s t) free_unwritable) [
  | none ↦ popped m bs true (clamp s t)
  | some t' ↦ popped m (bs ++ t' ∷ []) false (clamp s t)
]

unfoldable pub pop_back : Manager → ℕ → Bool → Manager × Status
unfolding pop_back_at pop_block popped settle is_empty block_pop split_last
pop_back m s free_unwritable = pop_back_at m (split_last m.dynamic_buffer) s free_unwritable

-- `front` and `back` with their three results: the status, then `pointer`, `nread` and `nwrite`.
view : Option Block → Status × Option ℕ × ℕ × ℕ
view none = (no_data, none, 0, 0)
view (some b) = (success, some (block_data b), b.size - left_size b, left_size b)

unfoldable pub front : Manager → Status × Option ℕ × ℕ × ℕ
unfolding view
front m = elim m.dynamic_buffer [ [] ↦ view none | b ∷ bs ↦ view (some b) ]

unfoldable pub back : Manager → Status × Option ℕ × ℕ × ℕ
unfolding view split_last
back m = elim (split_last m.dynamic_buffer) [ none ↦ view none | some (bs, b) ↦ view (some b) ]
