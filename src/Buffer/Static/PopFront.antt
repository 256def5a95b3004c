-- ===== src/Buffer/Static/PopFront.antt =====
-- `static_pop_front` does what `dynamic_pop_front` does.
use libatbus.Base.{
  ℕ, suc, ◌+◌, ◌-◌, ◌%◌, ◌<◌, ◌≡◌, refl, sym, ap, subst, ◌∙◌, Bool, true, false, none, some, List,
  [], ◌∷◌, arith, length,
}
use native.Mathlib.Nat.{mod-eq_of_lt, mod-eq-sub-mod}
use libatbus.Status.{success, no_data}
use libatbus.Buffer.Block.{Block, block_pop}
use libatbus.Buffer.Manager
use libatbus.Buffer.Manager.{Manager, Limit, settle, is_empty, clamp}
use libatbus.Buffer.Manager.Ends.{pop_front_freed, pop_front_kept}
use libatbus.Buffer.Static.{StaticBuffer, StaticManager, set_at, buffer_end}
use libatbus.Buffer.Static.Shrink.{static_popped, freed_head, pop_at, static_pop_front}
use libatbus.Buffer.Static.Layout.{Placed}
use libatbus.Buffer.Static.Less.{Laid-tail, Laid-change}
use libatbus.Buffer.Static.Separate.{Laid-Separate}
use libatbus.Buffer.Static.Slots.{set_here, set_there, Slots, Slots-other, Slots-header, Held}
use libatbus.Buffer.Static.Opened.{other_addresses}
use libatbus.Buffer.Static.View.{
  as_dynamic, blocks_of, Agrees, empty_not, empty_so, popped_some, popped_none, block_pop-Fine,
  left_with, pop_at-Agrees,
}
use libatbus.Channel.Mem.Ring.{ring_lt, steps_away, step_more}

module _ (m : StaticManager) (p : ℕ) (b : Block) (q : List Placed) (s : ℕ)
    (h : Held m.static_buffer ((p, b) ∷ q)) where
  abbrev o : StaticBuffer
  o = m.static_buffer

  abbrev n : ℕ
  n = o.circle_size

  abbrev after : Block
  after = block_pop b (clamp s b)

  abbrev headers : ℕ → Block
  headers = set_at p after o.headers

  abbrev popped : StaticBuffer
  popped = record o { headers = headers }

  rest-Slots : Slots n o.circle_index headers ((o.head + 1) % n) q
  rest-Slots =
      let (t, e, laid) = h.place in
      let (apart, others) = Laid-Separate o.buffer (buffer_end o) t ((p, b) ∷ q) laid in
      Slots-header n o.circle_index o.headers ((o.head + 1) % n) p after q
        (other_addresses (p, b) q h.fine.0 h.fine.1 apart) h.slots.2

  kept-Held : Held popped ((p, after) ∷ q)
  kept-Held =
      let (t, e, laid) = h.place in
      let (fine, same) = block_pop-Fine p s b h.fine.0 in
      record {
        two = h.two;
        few = h.few;
        head = h.head;
        tail = h.tail;
        slots = (h.slots.0, set_here p after o.headers, rest-Slots);
        fine = (fine, h.fine.1);
        place = (t, e, Laid-change o.buffer (buffer_end o) t [] q p b after same laid);
      }

  next_lt : (o.head + 1) % n < n
  next_lt = ring_lt n (o.head + 1) (omega (arith, h.two))

  next_tail : o.tail ≡ ((o.head + 1) % n + length q) % n
  next_tail = h.tail ∙ sym (step_more n o.head (length q))

  -- The head lies behind all the others.
  around : ((o.head + 1) % n + (n - 1)) % n ≡ o.head
  around =
      step_more n o.head (n - 1)
      ∙ ap (λ k. (o.head + k) % n) (omega (arith, h.two))
      ∙ mod-eq-sub-mod {n = o.head + n} {m = n} (omega arith)
      ∙ ap (λ k. k % n) (omega arith)
      ∙ mod-eq_of_lt h.head

freed-Held :
    (m : StaticManager) (p : ℕ) (b : Block) (x : Placed) (q : List Placed) (s : ℕ)
    → Held m.static_buffer ((p, b) ∷ x ∷ q)
    → Held (freed_head (left_with m p b s)) (x ∷ q)
unfolding freed_head
freed-Held m p b x q s h =
    let o = m.static_buffer in
    let n = o.circle_size in
    let (t, e, laid) = h.place in
    let tail = next_tail m p b (x ∷ q) s h in
    record {
      two = h.two;
      few = omega (arith, h.few);
      head = next_lt m p b (x ∷ q) s h;
      tail = tail;
      slots =
          subst
            (λ i.
              Slots n (set_at i none o.circle_index) (headers m p b (x ∷ q) s h) ((o.head + 1) % n)
                (x ∷ q))
            (around m p b (x ∷ q) s h)
            (Slots-other n o.circle_index (headers m p b (x ∷ q) s h) ((o.head + 1) % n) (n - 1)
              none (x ∷ q) (next_lt m p b (x ∷ q) s h) (omega (arith, h.few)) (omega (arith, h.two))
              (rest-Slots m p b (x ∷ q) s h));
      fine = h.fine.1;
      place = (
        t,
        set_there o.head o.tail none o.circle_index (λ same.
              steps_away n o.head (suc (suc (length q))) h.head (omega arith) h.few
                (sym h.tail ∙ sym same))
            ∙ e,
        Laid-tail o.buffer (buffer_end o) t (p, b) x q laid,
      );
    }

-- The block is freed, and others are left or not.
freed_front :
    (m : StaticManager) (p : ℕ) (b : Block) (q : List Placed) (s : ℕ)
    → Held m.static_buffer ((p, b) ∷ q)
    → Agrees (some (static_popped m true (freed_head (left_with m p b s)) (clamp s b))) (
      record {
        dynamic_buffer = blocks_of q;
        limit = settle m.limit true (is_empty (blocks_of q)) (clamp s b);
      },
      success,
    )
unfolding freed_head is_empty
freed_front m p b [] s h =
    popped_none m true (freed_head (left_with m p b s)) (clamp s b) h.two (next_lt m p b [] s h)
      (next_tail m p b [] s h)
freed_front m p b (x ∷ q) s h =
    popped_some m true (freed_head (left_with m p b s)) x q (clamp s b) (freed-Held m p b x q s h)

-- In static mode `pop_front` gives what it gives in dynamic mode, and the blocks stay in order.
pub static_pop_front-Agrees :
    (m : StaticManager) (q : List Placed) (s : ℕ) (f : Bool)
    → Held m.static_buffer q
    → Agrees (static_pop_front m s f) (Manager.pop_front (as_dynamic m q) s f)
unfolding static_pop_front Manager.pop_front Agrees
static_pop_front-Agrees m [] s f h =
    (m, [], no_data, rw (empty_so m.static_buffer h.head h.tail, static_pop_front) refl, h, refl)
static_pop_front-Agrees m ((p, b) ∷ q) s f h =
    let followed : static_pop_front m s f ≡ some (pop_at m freed_head p s f) =
      rw (empty_not m.static_buffer (p, b) q h, static_pop_front)
        (rw (h.slots.0, static_pop_front) refl) in
    subst (λ r. Agrees r (Manager.pop_front (as_dynamic m ((p, b) ∷ q)) s f)) (sym followed)
      (pop_at-Agrees m freed_head p b s f h.slots.1 _ _ _
        (pop_front_freed m.limit b (blocks_of q) s f) (pop_front_kept m.limit b (blocks_of q) s f)
        (freed_front m p b q s h)
        (popped_some m false (left_with m p b s) (p, block_pop b (clamp s b)) q (clamp s b)
          (kept-Held m p b q s h)))
