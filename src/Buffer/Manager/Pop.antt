-- ===== src/Buffer/Manager/Pop.antt =====
-- Pops in dynamic mode.
use libatbus.Base.{
  ℕ, ◌+◌, ◌≡◌, refl, ap, Bool, true, false, Option, none, some, List, [], ◌∷◌, ◌++◌, length,
  length-append, All, All-append, arith, Option-cases, inl, inr, subst, if◌then◌else◌, ltb,
}
use libatbus.Buffer.Block.{Block, left_size}
use libatbus.Buffer.Manager.{
  Manager, pop_front_at, popped, pop_back_at, pop_block, clamp, settle, is_empty, split_last,
  pop_front, pop_back,
}
use libatbus.Buffer.Manager.Counts.{
  total, total-append, InBounds, Counted, Sound, PoppedFrom, pop_block_lem,
}

-- The list after a pop of `s` bytes: a block less where one is freed.
Fewer : List Block → List Block → Bool → ℕ → Type 0
Fewer bs bs' true s = (length bs ≡ length bs' + 1) × (total bs ≡ total bs' + s) × All InBounds bs'
Fewer bs bs' false s = (length bs ≡ length bs') × (total bs ≡ total bs' + s) × All InBounds bs'

settled-Sound :
    (m : Manager) (bs' : List Block) (freed : Bool) (s : ℕ)
    → Sound m
    → Fewer m.dynamic_buffer bs' freed s
    → Sound record { dynamic_buffer = bs'; limit = settle m.limit freed (is_empty bs') s }
unfolding Fewer settle is_empty
settled-Sound m [] true s h f = ground arith
settled-Sound m [] false s h f = ground arith
settled-Sound m (b ∷ bs) true s h f = ground arith
settled-Sound m (b ∷ bs) false s h f = ground arith

pop_front_at-Sound :
    (m : Manager) (bs : List Block) (s : ℕ) (free_unwritable : Bool)
    → m.dynamic_buffer ≡ bs
    → Sound m
    → Sound (pop_front_at m bs s free_unwritable).0
unfolding pop_front_at popped Fewer
pop_front_at-Sound m [] s free eq h = h
pop_front_at-Sound m (t ∷ bs) s free eq h =
    let h' = subst (Counted m.limit) eq h.0 in
    let deep = pop_block_lem t s free h'.2.0 in
    elim (Option-cases (pop_block t (clamp s t) free)) [
      | inl freed ↦
          let gone = subst (PoppedFrom t (clamp s t)) freed deep in
          rw (freed, pop_front_at)
            (settled-Sound m bs true (clamp s t) h (rw eq (omega arith, omega arith, h'.2.1)))
      | inr (t', kept) ↦
          let left = subst (PoppedFrom t (clamp s t)) kept deep in
          rw (kept, pop_front_at)
            (settled-Sound m (t' ∷ bs) false (clamp s t) h
              (rw eq (omega arith, omega arith, (left.0, h'.2.1))))
    ]

-- `pop_front` keeps the counters and the limits.
pub pop_front-Sound :
    (m : Manager) (s : ℕ) (free_unwritable : Bool)
    → Sound m
    → Sound (pop_front m s free_unwritable).0
unfolding pop_front
pop_front-Sound m s free h = pop_front_at-Sound m m.dynamic_buffer s free refl h

IsSplit : List Block → Option (List Block × Block) → Type 0
IsSplit bs none = bs ≡ []
IsSplit bs (some (i, t)) = bs ≡ i ++ t ∷ []

split_last_lem : (bs : List Block) → IsSplit bs (split_last bs)
unfolding split_last IsSplit
split_last_lem [] = refl
split_last_lem (b ∷ bs) = elim (Option-cases (split_last bs)) [
  | inl e ↦ rw e (ap (λ r. b ∷ r) (subst (IsSplit bs) e (split_last_lem bs)))
  | inr (it, e) ↦ rw e (ap (λ r. b ∷ r) (subst (IsSplit bs) e (split_last_lem bs)))
]

All-init :
    (bs : List Block) (t : Block) → All InBounds (bs ++ t ∷ []) → All InBounds bs × InBounds t
All-init [] t h = (tt, h.0)
All-init (b ∷ bs) t h = ground (arith, All-init bs t h.1)

pop_back_at-Sound :
    (m : Manager) (it : Option (List Block × Block)) (s : ℕ) (free_unwritable : Bool)
    → IsSplit m.dynamic_buffer it
    → Sound m
    → Sound (pop_back_at m it s free_unwritable).0
unfolding pop_back_at popped Fewer IsSplit
pop_back_at-Sound m none s free eq h = h
pop_back_at-Sound m (some (bs, t)) s free eq h =
    let h' = subst (Counted m.limit) eq h.0 in
    let deep = pop_block_lem t s free (All-init bs t h'.2).1 in
    elim (Option-cases (pop_block t (clamp s t) free)) [
      | inl freed ↦
          let gone = subst (PoppedFrom t (clamp s t)) freed deep in
          rw (freed, pop_back_at)
            (settled-Sound m bs true (clamp s t) h (
              rw eq (
                omega (arith, length-append bs (t ∷ [])),
                omega (arith, total-append bs (t ∷ [])),
                (All-init bs t h'.2).0,
              )))
      | inr (t', kept) ↦
          let left = subst (PoppedFrom t (clamp s t)) kept deep in
          rw (kept, pop_back_at)
            (settled-Sound m (bs ++ t' ∷ []) false (clamp s t) h (
              rw eq (
                omega (arith, length-append bs (t ∷ []), length-append bs (t' ∷ [])),
                omega (arith, total-append bs (t ∷ []), total-append bs (t' ∷ [])),
                All-append InBounds bs (t' ∷ []) (All-init bs t h'.2).0 (left.0, tt),
              )))
    ]

-- `pop_back` keeps the counters and the limits.
pop_back-Sound :
    (m : Manager) (s : ℕ) (free_unwritable : Bool)
    → Sound m
    → Sound (pop_back m s free_unwritable).0
unfolding pop_back
pop_back-Sound m s free h =
    pop_back_at-Sound m (split_last m.dynamic_buffer) s free (split_last_lem m.dynamic_buffer) h

-- Where the used part of the first block lies within its size, and the size below 2 ^ 64, `pop_front`
-- takes `s` bytes off what the blocks have left together, or all that the first block has left where
-- that is less.
pub pop_front-total :
    (m : Manager) (t : Block) (bs : List Block) (s : ℕ) (free_unwritable : Bool)
    → m.dynamic_buffer ≡ t ∷ bs
    → InBounds t
    → total (pop_front m s free_unwritable).0.dynamic_buffer
        + (if ltb (left_size t) s then left_size t else s)
      ≡ total m.dynamic_buffer
unfolding pop_front
pop_front-total m t bs s free eq h =
    let deep = pop_block_lem t s free h in
    elim (Option-cases (pop_block t (clamp s t) free)) [
      | inl freed ↦
          let gone = subst (PoppedFrom t (clamp s t)) freed deep in
          rw (eq, freed, pop_front_at) (omega arith)
      | inr (t', kept) ↦
          let left = subst (PoppedFrom t (clamp s t)) kept deep in
          rw (eq, kept, pop_front_at) (omega arith)
    ]
