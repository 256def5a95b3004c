-- ===== src/Buffer/Static/PopBack.antt =====
-- `static_pop_back` does what `dynamic_pop_back` does.
use libatbus.Base.{
  ℕ, ◌+◌, ◌-◌, ◌%◌, ◌≤◌, ◌<◌, ◌≡◌, ◌≢◌, refl, sym, ap, subst, ◌∙◌, inl, inr, Bool, true, false,
  none, some, List, [], ◌∷◌, ◌++◌, All, All-append, arith, length, length-append,
}
use native.Mathlib.Nat.{mod-eq_of_lt, mod-eq-sub-mod}
use libatbus.Status.{success, no_data}
use libatbus.Buffer.Block.{Block, block_pop}
use libatbus.Buffer.Manager
use libatbus.Buffer.Manager.{Manager, Limit, settle, is_empty, clamp}
use libatbus.Buffer.Manager.Ends.{pop_back_freed, pop_back_kept}
use libatbus.Buffer.Static.{
  StaticBuffer, StaticManager, set_at, buffer_end, pre_index, static_empty,
}
use libatbus.Buffer.Static.Shrink.{static_popped, freed_tail, pop_at, static_pop_back}
use libatbus.Buffer.Static.Layout.{Placed, Laid}
use libatbus.Buffer.Static.Less.{Laid-init, Laid-change}
use libatbus.Buffer.Static.Separate.{Fine, Laid-Separate}
use libatbus.Buffer.Static.Slots.{
  set_here, set_there, Slots, Slots-append, Slots-last, Slots-other, Slots-header, Place, Held,
}
use libatbus.Buffer.Static.Opened.{last_address, Place-append}
use libatbus.Buffer.Static.View.{
  as_dynamic, blocks_of, blocks_of-append, Agrees, empty_not, empty_so, popped_some, popped_none,
  block_pop-Fine, left_with, pop_at-Agrees,
}
use libatbus.Channel.Mem.Ring.{ring_lt, wrap, steps_away, step_behind}

-- Where the next block would begin.
Place-last :
    (o : StaticBuffer) (q : List Placed) (x : Placed)
    → Place o (q ++ x ∷ [])
    → (t : ℕ) × (o.circle_index o.tail ≡ some t) × Laid o.buffer (buffer_end o) (q ++ x ∷ []) t
Place-last o [] x h = h
Place-last o (y ∷ q) x h = h

All-last {ℓ κ} :
    {A : Type ℓ} (P : A → Type κ) (xs : List A) (x : A) → All P (xs ++ x ∷ []) → All P xs × P x
All-last P [] x (h, u) = (tt, h)
All-last P (y ∷ xs) x (h, hs) = let (more, l) = All-last P xs x hs in ((h, more), l)

before_next : (n i : ℕ) → i < n → 2 ≤ n → ((i + 1) % n + n - 1) % n ≡ i
before_next n i hi two = elim (wrap n i 1 hi (omega arith)) [
  | inl (e, l) ↦
      ap (λ k. k % n) (omega (arith, e))
      ∙ mod-eq-sub-mod {n = i + n} {m = n} (omega arith)
      ∙ ap (λ k. k % n) (omega arith)
      ∙ mod-eq_of_lt hi
  | inr (e, g) ↦ ap (λ k. k % n) (omega (arith, e, hi)) ∙ mod-eq_of_lt hi
]

module _ (m : StaticManager) (p : ℕ) (b : Block) (q : List Placed) (s : ℕ)
    (h : Held m.static_buffer (q ++ (p, b) ∷ [])) where
  abbrev o : StaticBuffer
  o = m.static_buffer

  abbrev n : ℕ
  n = o.circle_size

  abbrev after : Block
  after = block_pop b (clamp s b)

  abbrev headers : ℕ → Block
  headers = set_at p after o.headers

  longer : length (q ++ (p, b) ∷ []) ≡ length q + 1
  longer = length-append q ((p, b) ∷ [])

  tail_at : o.tail ≡ (o.head + (length q + 1)) % n
  tail_at = h.tail ∙ ap (λ k. (o.head + k) % n) longer

  fewer : length q + 1 < n
  fewer = omega (arith, longer, h.few)

  -- The last block stands before the tail.
  index_at : pre_index o o.tail ≡ (o.head + length q) % n
  index_at =
      ap (λ t. (t + n - 1) % n) (tail_at ∙ sym (step_behind n o.head (length q)))
      ∙ before_next n ((o.head + length q) % n)
          (ring_lt n (o.head + length q) (omega (arith, h.two))) h.two

  last_slot :
      Slots n o.circle_index o.headers o.head q
      × (o.circle_index ((o.head + length q) % n) ≡ some p)
      × (o.headers p ≡ b)
  last_slot = Slots-last n o.circle_index o.headers o.head q p b h.head h.slots

  elsewhere : All (λ y. p ≢ y.0) q
  elsewhere =
      let (t, e, laid) = Place-last o q (p, b) h.place in
      let (fines, fine) = All-last Fine q (p, b) h.fine in
      last_address q (p, b) fines fine
        (Laid-Separate o.buffer (buffer_end o) t (q ++ (p, b) ∷ []) laid)

  rest-Slots : Slots n o.circle_index headers o.head q
  rest-Slots = Slots-header n o.circle_index o.headers o.head p after q elsewhere last_slot.0

  kept-Held : Held (left_with m p b s) (q ++ (p, after) ∷ [])
  kept-Held =
      let (t, e, laid) = Place-last o q (p, b) h.place in
      let (fines, fine) = All-last Fine q (p, b) h.fine in
      let (fine', same) = block_pop-Fine p s b fine in
      let as_long : length (q ++ (p, after) ∷ []) ≡ length q + 1 =
        length-append q ((p, after) ∷ []) in
      record {
        two = h.two;
        few = omega (arith, as_long, fewer);
        head = h.head;
        tail = tail_at ∙ ap (λ k. (o.head + k) % n) (sym as_long);
        slots =
            Slots-append n o.circle_index headers o.head q p after h.head rest-Slots last_slot.1
              (set_here p after o.headers);
        fine = All-append Fine q ((p, after) ∷ []) fines (fine', tt);
        place =
            Place-append (left_with m p b s) q (p, after) t e
              (Laid-change o.buffer (buffer_end o) t q [] p b after same laid);
      }

freed-Held :
    (m : StaticManager) (p : ℕ) (b : Block) (x : Placed) (q : List Placed) (s : ℕ)
    → Held m.static_buffer (x ∷ q ++ (p, b) ∷ [])
    → Held (freed_tail (pre_index m.static_buffer m.static_buffer.tail) (left_with m p b s)) (x ∷ q)
unfolding freed_tail
freed-Held m p b x q s h =
    let o = m.static_buffer in
    let n = o.circle_size in
    let (t, e, laid) = Place-last o (x ∷ q) (p, b) h.place in
    let (fines, fine) = All-last Fine (x ∷ q) (p, b) h.fine in
    let index = index_at m p b (x ∷ q) s h in
    let short = fewer m p b (x ∷ q) s h in
    let (rest, at_index, header) = last_slot m p b (x ∷ q) s h in
    record {
      two = h.two;
      few = omega (arith, short);
      head = h.head;
      tail = index;
      slots =
          subst
            (λ i. Slots n (set_at i none o.circle_index) (headers m p b (x ∷ q) s h) o.head (x ∷ q))
            (sym (tail_at m p b (x ∷ q) s h))
            (Slots-other n o.circle_index (headers m p b (x ∷ q) s h) o.head (length (x ∷ q) + 1)
              none (x ∷ q) h.head (omega arith) short (rest-Slots m p b (x ∷ q) s h));
      fine = fines;
      place = (
        p,
        set_there o.tail (pre_index o o.tail) none o.circle_index (λ same.
              steps_away n ((o.head + length (x ∷ q)) % n) 1
                (ring_lt n (o.head + length (x ∷ q)) (omega (arith, h.two))) (omega arith)
                (omega (arith, h.two))
                (step_behind n o.head (length (x ∷ q))
                  ∙ sym (tail_at m p b (x ∷ q) s h)
                  ∙ same
                  ∙ index))
            ∙ ap o.circle_index index
            ∙ at_index,
        Laid-init o.buffer (buffer_end o) t x q p b laid,
      );
    }

-- The block is freed, and others are left or not.
freed_back :
    (m : StaticManager) (p : ℕ) (b : Block) (q : List Placed) (s : ℕ)
    → Held m.static_buffer (q ++ (p, b) ∷ [])
    → Agrees
        (some (
          static_popped m true
            (freed_tail (pre_index m.static_buffer m.static_buffer.tail) (left_with m p b s))
            (clamp s b)))
        (
          record {
            dynamic_buffer = blocks_of q;
            limit = settle m.limit true (is_empty (blocks_of q)) (clamp s b);
          },
          success,
        )
unfolding freed_tail is_empty
freed_back m p b [] s h =
    popped_none m true
      (freed_tail (pre_index m.static_buffer m.static_buffer.tail) (left_with m p b s)) (clamp s b)
      h.two h.head (index_at m p b [] s h)
freed_back m p b (x ∷ q) s h =
    popped_some m true
      (freed_tail (pre_index m.static_buffer m.static_buffer.tail) (left_with m p b s)) x q
      (clamp s b) (freed-Held m p b x q s h)

-- The block stays.
kept_back :
    (m : StaticManager) (p : ℕ) (b : Block) (q : List Placed) (s : ℕ)
    → Held m.static_buffer (q ++ (p, b) ∷ [])
    → Agrees (some (static_popped m false (left_with m p b s) (clamp s b))) (
      record {
        dynamic_buffer = blocks_of q ++ block_pop b (clamp s b) ∷ [];
        limit = settle m.limit false false (clamp s b);
      },
      success,
    )
kept_back m p b [] s h =
    popped_some m false (left_with m p b s) (p, block_pop b (clamp s b)) [] (clamp s b)
      (kept-Held m p b [] s h)
kept_back m p b (x ∷ q) s h =
    subst
      (λ bs. Agrees (some (static_popped m false (left_with m p b s) (clamp s b))) (
        record { dynamic_buffer = x.1 ∷ bs; limit = settle m.limit false false (clamp s b) },
        success,
      ))
      (blocks_of-append q ((p, block_pop b (clamp s b)) ∷ []))
      (popped_some m false (left_with m p b s) x (q ++ (p, block_pop b (clamp s b)) ∷ [])
        (clamp s b) (kept-Held m p b (x ∷ q) s h))

-- Seen from its end.
snoc : (x : Placed) (q : List Placed) → (i : List Placed) × (y : Placed) × (x ∷ q ≡ i ++ y ∷ [])
snoc x [] = ([], x, refl)
snoc x (y ∷ q) = let (i, z, e) = snoc y q in (x ∷ i, z, ap (λ r. x ∷ r) e)

pop_back_end :
    (m : StaticManager) (p : ℕ) (b : Block) (q : List Placed) (s : ℕ) (f : Bool)
    → Held m.static_buffer (q ++ (p, b) ∷ [])
    → static_empty m.static_buffer ≡ false
    → Agrees
        (static_pop_back m s f)
        (Manager.pop_back (record { dynamic_buffer = blocks_of q ++ b ∷ []; limit = m.limit }) s f)
unfolding static_pop_back
pop_back_end m p b q s f h some_block =
    let index = pre_index m.static_buffer m.static_buffer.tail in
    let d : Manager = record { dynamic_buffer = blocks_of q ++ b ∷ []; limit = m.limit } in
    let (rest, at_index, header) = last_slot m p b q s h in
    let at_end : m.static_buffer.circle_index index ≡ some p =
      ap m.static_buffer.circle_index (index_at m p b q s h) ∙ at_index in
    let followed : static_pop_back m s f ≡ some (pop_at m (freed_tail index) p s f) =
      rw (some_block, static_pop_back) (rw (at_end, static_pop_back) refl) in
    subst (λ r. Agrees r (Manager.pop_back d s f)) (sym followed)
      (pop_at-Agrees m (freed_tail index) p b s f header _ _ _
        (pop_back_freed m.limit b (blocks_of q) s f) (pop_back_kept m.limit b (blocks_of q) s f)
        (freed_back m p b q s h) (kept_back m p b q s h))

-- In static mode `pop_back` gives what it gives in dynamic mode, and the blocks stay in order.
pub static_pop_back-Agrees :
    (m : StaticManager) (q : List Placed) (s : ℕ) (f : Bool)
    → Held m.static_buffer q
    → Agrees (static_pop_back m s f) (Manager.pop_back (as_dynamic m q) s f)
unfolding static_pop_back Manager.pop_back Agrees
static_pop_back-Agrees m [] s f h =
    (m, [], no_data, rw (empty_so m.static_buffer h.head h.tail, static_pop_back) refl, h, refl)
static_pop_back-Agrees m (x ∷ q) s f h =
    let (i, y, e) = snoc x q in
    let as_blocks : blocks_of (x ∷ q) ≡ blocks_of i ++ y.1 ∷ [] =
      ap blocks_of e ∙ blocks_of-append i (y ∷ []) in
    subst
      (λ bs.
        Agrees (static_pop_back m s f)
          (Manager.pop_back (record { dynamic_buffer = bs; limit = m.limit }) s f))
      (sym as_blocks)
      (pop_back_end m y.0 y.1 i s f (subst (Held m.static_buffer) e h)
        (empty_not m.static_buffer x q h))
