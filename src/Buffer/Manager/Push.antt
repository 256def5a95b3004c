-- ===== src/Buffer/Manager/Push.antt =====
-- Pushes in dynamic mode.
use libatbus.Base.{
  ℕ, ◌+◌, ◌^◌, ◌≤◌, ◌<◌, ◌≡◌, ◌↔◌, ◌⊎◌, ◌≢◌, false, Option, none, List, [], ◌∷◌, ◌++◌, length,
  length-append, All, All-append, arith, Bool-cases, Option-cases, inl, inr,
}
use libatbus.Status.{success}
use libatbus.Buffer.Block.{Block, left_size, malloc, create}
use libatbus.Buffer.Manager.{Limit, Manager, over_limit, charge, push_back, push_front}
use libatbus.Buffer.Manager.Counts.{
  total, total-append, InBounds, Counted, Limited, Sound, malloc-some,
}

-- There is room to count one more block of `s` bytes.
abbrev pub Room : Manager → ℕ → Type 0
Room m s = (length m.dynamic_buffer + 1 < 2 ^ 64) × (total m.dynamic_buffer + s < 2 ^ 64)

charge-Counted :
    (l : Limit) (bs bs' : List Block) (s : ℕ)
    → Counted l bs
    → (length bs' ≡ length bs + 1) × (total bs' ≡ total bs + s) × All InBounds bs'
    → length bs + 1 < 2 ^ 64
    → total bs + s < 2 ^ 64
    → Counted (charge l s) bs'
unfolding charge
charge-Counted l bs bs' s h e hn hs = ground arith

charge-Limited :
    (l : Limit) (bs bs' : List Block) (s : ℕ)
    → Counted l bs
    → Limited l bs
    → (length bs' ≡ length bs + 1) × (total bs' ≡ total bs + s)
    → total bs + s < 2 ^ 64
    → over_limit l s ≡ false
    → Limited (charge l s) bs'
unfolding charge over_limit
charge-Limited l bs bs' s h hl e hs ho = ground arith

-- `bs'` is `bs` and one more block, of `s` bytes.
OneMore : List Block → List Block → ℕ → Type 0
OneMore bs bs' s = (length bs' ≡ length bs + 1) × (total bs' ≡ total bs + s) × All InBounds bs'

appended :
    (bs : List Block) (b : Block) (s : ℕ)
    → All InBounds bs
    → InBounds b × (left_size b ≡ s)
    → OneMore bs (bs ++ b ∷ []) s
unfolding OneMore
appended bs b s h hb = (
  omega (arith, length-append bs (b ∷ [])),
  omega (arith, total-append bs (b ∷ [])),
  All-append InBounds bs (b ∷ []) h (hb.0, tt),
)

prepended :
    (bs : List Block) (b : Block) (s : ℕ)
    → All InBounds bs
    → InBounds b × (left_size b ≡ s)
    → OneMore bs (b ∷ bs) s
unfolding OneMore
prepended bs b s h hb = (omega arith, omega arith, (hb.0, h))

charged-Sound :
    (m : Manager) (bs' : List Block) (s : ℕ)
    → Sound m
    → Room m s
    → over_limit m.limit s ≡ false
    → OneMore m.dynamic_buffer bs' s
    → Sound record { dynamic_buffer = bs'; limit = charge m.limit s }
unfolding OneMore
charged-Sound m bs' s h room ok one = (
  charge-Counted m.limit m.dynamic_buffer bs' s h.0 one room.0 room.1,
  charge-Limited m.limit m.dynamic_buffer bs' s h.0 h.1 (one.0, one.1) room.1 ok,
)

-- `push_back` keeps the counters and the limits, whatever `::malloc` returns.
pub push_back-Sound :
    (m : Manager) (s : ℕ) (ret : Option ℕ) → Sound m → Room m s → Sound (push_back m s ret).0
unfolding push_back
push_back-Sound m s ret h room = elim (Bool-cases (over_limit m.limit s)) [
  | inl over ↦ rw over h
  | inr ok ↦ elim (Option-cases (malloc ret s)) [
    | inl null ↦ rw ok (rw null h)
    | inr (b, made) ↦ rw ok (
        rw made (
          charged-Sound m _ s h room ok
            (appended m.dynamic_buffer b s h.0.2 (malloc-some ret s (omega arith) made))))
  ]
]

-- `push_front` keeps the counters and the limits, whatever `::malloc` returns.
pub push_front-Sound :
    (m : Manager) (s : ℕ) (ret : Option ℕ) → Sound m → Room m s → Sound (push_front m s ret).0
unfolding push_front
push_front-Sound m s ret h room = elim (Bool-cases (over_limit m.limit s)) [
  | inl over ↦ rw over h
  | inr ok ↦ elim (Option-cases (malloc ret s)) [
    | inl null ↦ rw ok (rw null h)
    | inr (b, made) ↦ rw ok (
        rw made (
          charged-Sound m _ s h room ok
            (prepended m.dynamic_buffer b s h.0.2 (malloc-some ret s (omega arith) made))))
  ]
]

over_limit_iff :
    (m : Manager) (s : ℕ)
    → Sound m
    → Room m s
    → (over_limit m.limit s ≡ false) ↔ (
        ((m.limit.limit_number ≡ 0) ⊎ (length m.dynamic_buffer < m.limit.limit_number))
        × ((m.limit.limit_size ≡ 0) ⊎ (total m.dynamic_buffer + s ≤ m.limit.limit_size)))
unfolding over_limit
over_limit_iff m s h room = ground arith

malloc_iff : (ret : Option ℕ) (s : ℕ) → (malloc ret s ≢ none) ↔ (ret ≢ none)
unfolding malloc create
malloc_iff ret s = ground arith

push_back_res :
    (m : Manager) (s : ℕ) (ret : Option ℕ)
    → ((push_back m s ret).1 ≡ success) ↔ ((over_limit m.limit s ≡ false) × (malloc ret s ≢ none))
unfolding push_back
push_back_res m s ret = elim (Bool-cases (over_limit m.limit s)) [
  | inl over ↦ rw over (ground arith)
  | inr ok ↦ elim (Option-cases (malloc ret s)) [
    | inl null ↦ rw ok (rw null (ground arith))
    | inr (b, made) ↦ rw ok (rw made (ground arith))
  ]
]

-- In a sound manager, `push_back` succeeds exactly where both limits allow one more block of `s`
-- bytes and the allocation succeeds.
pub push_back_iff :
    (m : Manager) (s : ℕ) (ret : Option ℕ)
    → Sound m
    → Room m s
    → ((push_back m s ret).1 ≡ success) ↔ (
        ((m.limit.limit_number ≡ 0) ⊎ (length m.dynamic_buffer < m.limit.limit_number))
        × ((m.limit.limit_size ≡ 0) ⊎ (total m.dynamic_buffer + s ≤ m.limit.limit_size))
        × (ret ≢ none))
unfolding push_back
push_back_iff m s ret h room =
    ground (arith, push_back_res m s ret, over_limit_iff m s h room, malloc_iff ret s)
