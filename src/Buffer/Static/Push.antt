-- ===== src/Buffer/Static/Push.antt =====
-- `static_push_back` on a buffer that holds blocks.
use libatbus.Base.{
  ℕ, ◌+◌, ◌-◌, ◌%◌, ◌^◌, ◌≤◌, ◌<◌, ◌≡◌, refl, sym, ap, subst, ◌∙◌, ◌⊎◌, inl, inr, Option, none,
  some, List, [], ◌∷◌, ◌++◌, arith, length, true, false, if◌then◌else◌, ◌==◌, leb, on_test,
}
use native.Mathlib.Nat.{mod-eq_of_lt, mod-eq-sub-mod}
use native.Mathlib.Decide.{dec_lt}
use libatbus.Status.{Status, buff_limit}
use libatbus.Buffer.Block.{full_size}
use libatbus.Buffer.Static.{StaticBuffer, set_at, buffer_offset, buffer_end, next_index}
use libatbus.Buffer.Static.Grow.{place_back, grow_back, static_push_back}
use libatbus.Buffer.Static.Layout.{Placed, first, Laid-bounds, Laid-end, Laid-turn, Laid-gap}
use libatbus.Buffer.Static.Slots.{set_here, Slots, Slots-other, Held}
use libatbus.Buffer.Static.Opened.{Opened, ends_open, fresh}
use libatbus.Buffer.Static.Pushed.{PlacedAt, place_back-Held}
use libatbus.Channel.Mem.Ring.{steps_away, step_behind}

-- The blocks stay, for a reason, or a new one stands at some address in the list that `with_new`
-- makes.
unfoldable pub Pushes :
    Type 0 → List Placed → (ℕ → List Placed) → StaticBuffer × Status × Option ℕ → Type 0
Pushes why q with_new r =
    ((b : StaticBuffer) × (r ≡ (b, buff_limit, none)) × Held b q × why)
    ⊎ ((start : ℕ) × PlacedAt start (with_new start) r)

-- Why a block can be refused at the back: there are others, or the memory is too small.
abbrev pub NoneBack : List Placed → ℕ → ℕ → Type 0
NoneBack q size s = (0 < length q) ⊎ (size < full_size s)

abbrev pub at_back : List Placed → ℕ → ℕ → List Placed
at_back q s start = q ++ (start, fresh start s) ∷ []

pub offset_up : (l r : ℕ) → l ≤ r → buffer_offset l r ≡ r - l
offset_up l r h = ground arith

pub offset_down : (l r : ℕ) → r ≤ l → buffer_offset l r ≡ l - r
offset_down l r h = ground arith

-- Where the next index is not the head, one more block finds a slot.
pub not_full :
    (b : StaticBuffer) (q : List Placed)
    → Held b q
    → (next_index b b.tail == b.head) ≡ false
    → length q + 1 < b.circle_size
not_full b q h e = elim (dec_lt (length q + 1) b.circle_size) [
  | yes l ↦ l
  | no g ↦
      let full : length q + 1 ≡ b.circle_size = omega (arith, h.few) in
      let back : next_index b b.tail ≡ b.head =
        ap (λ t. (t + 1) % b.circle_size) h.tail
        ∙ step_behind b.circle_size b.head (length q)
        ∙ ap (λ k. (b.head + k) % b.circle_size) full
        ∙ mod-eq-sub-mod {n = b.head + b.circle_size} {m = b.circle_size} (omega arith)
        ∙ ap (λ k. k % b.circle_size) (omega arith)
        ∙ mod-eq_of_lt h.head in
      ground (arith, back, e)
]

pub full_not_empty :
    (b : StaticBuffer) (q : List Placed)
    → Held b q
    → (next_index b b.tail == b.head) ≡ true
    → 0 < length q
full_not_empty b [] h e =
    let away = steps_away b.circle_size b.head 1 h.head (omega arith) h.two in
    let back : (b.head + 1) % b.circle_size ≡ next_index b b.tail =
      sym (ap (λ t. (t + 1) % b.circle_size) h.tail ∙ step_behind b.circle_size b.head 0) in
    absurd (ground (arith, away, back, e))
full_not_empty b (x ∷ q) h e = omega arith

pub at_ends : {h t : ℕ} (q : List Placed) → h ≡ first q t → length q ≡ 0 → t ≡ h
at_ends [] e z = sym e
at_ends (x ∷ q) e z = absurd (omega arith)

module _ (o : StaticBuffer) (q : List Placed) (h t s : ℕ) (a : Opened o q h t)
    (small : s + 32 ≤ 2 ^ 64) (more : length q + 1 < o.circle_size) where
  abbrev lo : ℕ
  lo = o.buffer

  abbrev hi : ℕ
  hi = buffer_end o

  bounds : (lo ≤ t) × (t ≤ hi) × (lo ≤ h) × (h ≤ hi)
  bounds =
      subst (λ x. (lo ≤ t) × (t ≤ hi) × (lo ≤ x) × (x ≤ hi)) (sym a.at_first)
        (Laid-bounds lo hi t q a.laid)

  -- The tail goes to the start of the memory.
  turned : Slots o.circle_size (set_at o.tail (some lo) o.circle_index) o.headers o.head q
  turned =
      subst (λ i. Slots o.circle_size (set_at i (some lo) o.circle_index) o.headers o.head q)
        (sym a.held.tail)
        (Slots-other o.circle_size o.circle_index o.headers o.head (length q) (some lo) q
          a.held.head (omega arith) a.held.few a.held.slots)

  some_block : lo < h → 0 < length q
  some_block l = elim (dec_lt 0 (length q)) [
    | yes p ↦ p
    | no p ↦ let same = a.empty (omega arith) in absurd (omega arith)
  ]

  stays : NoneBack q o.size s → Pushes (NoneBack q o.size s) q (at_back q s) (o, buff_limit, none)
  unfolding Pushes
  stays why = inl (o, refl, a.held, why)

  -- Without a block both ends are the start of the memory.
  alone : (length q ≡ 0 → hi - t < full_size s) → NoneBack q o.size s
  alone f = elim (dec_lt 0 (length q)) [
    | yes p ↦ inl p
    | no p ↦
        let none_left : length q ≡ 0 = omega arith in
        let low = a.empty none_left in
        let less = f none_left in
        let meet : t ≡ h = at_ends q a.at_first none_left in inr (omega arith)
  ]

  flat_back :
      h ≤ t
      → Pushes (NoneBack q o.size s) q (at_back q s) (
          if leb (full_size s) (buffer_offset t hi)
          then place_back o o.circle_index t (buffer_offset t hi) s
          else if leb (buffer_offset lo h) (full_size s)
          then (o, buff_limit, none)
          else place_back o (set_at o.tail (some lo) o.circle_index) lo (buffer_offset lo h) s)
  unfolding Pushes
  flat_back flat =
      let (b0, b1, b2, b3) = bounds in
      let up = offset_up t hi b1 in
      let up' = offset_up lo h b2 in
      let flat' : first q t ≤ t = subst (λ x. x ≤ t) a.at_first flat in
      on_test (Pushes (NoneBack q o.size s) q (at_back q s))
        (leb (full_size s) (buffer_offset t hi))
        (λ e. inr (
          t,
          place_back-Held o q t s a.held small more o.circle_index (buffer_offset t hi)
              (ground (arith, e)) a.at_tail a.held.slots
              (Laid-end lo hi t q (fresh t s) a.laid flat' (ground (arith, e, up))),
        ))
        (λ e.
          on_test (Pushes (NoneBack q o.size s) q (at_back q s))
            (leb (buffer_offset lo h) (full_size s))
            (λ f. stays (alone (λ z. ground (arith, e, up))))
            (λ f.
              let low : lo + full_size s < h = ground (arith, f, up') in
              inr (
                lo,
                place_back-Held o q lo s a.held small more (set_at o.tail (some lo) o.circle_index)
                    (buffer_offset lo h) (ground (arith, f))
                    (set_here o.tail (some lo) o.circle_index) turned
                    (Laid-turn lo hi t q (fresh lo s) a.laid flat' (some_block (omega (arith, low)))
                      (subst (λ x. lo + full_size s < x) a.at_first low)),
              )))

  grown_back : Pushes (NoneBack q o.size s) q (at_back q s) (grow_back o h t s)
  unfolding grow_back Pushes
  grown_back =
      on_test (Pushes (NoneBack q o.size s) q (at_back q s)) (leb h t)
        (λ e. flat_back (ground (arith, e)))
        (λ e.
          on_test (Pushes (NoneBack q o.size s) q (at_back q s))
            (leb (buffer_offset t h) (full_size s))
            (λ f. stays (
              alone (λ z. let meet : t ≡ h = at_ends q a.at_first z in absurd (ground (arith, e)))))
            (λ f.
              let up = offset_up t h (ground (arith, e)) in
              let gap : t + full_size s < h = ground (arith, e, f, up) in
              inr (
                t,
                place_back-Held o q t s a.held small more o.circle_index (buffer_offset t h)
                    (ground (arith, f)) a.at_tail a.held.slots
                    (Laid-gap lo hi t q (fresh t s) a.laid
                      (subst (λ x. t + full_size s < x) a.at_first gap)),
              )))

pub static_push_back_lem :
    (b : StaticBuffer) (q : List Placed) (s : ℕ)
    → Held b q
    → s + 32 ≤ 2 ^ 64
    → Pushes (NoneBack q b.size s) q (at_back q s) (static_push_back b s)
unfolding static_push_back Pushes
static_push_back_lem b q s held small =
    let (o, h, t, e, a, ring) = ends_open b q held in
    rw (e, static_push_back)
      (on_test (Pushes (NoneBack q b.size s) q (at_back q s)) (next_index b b.tail == b.head)
        (λ full. inl (b, refl, held, inl (full_not_empty b q held full)))
        (λ room.
          subst (λ size. Pushes (NoneBack q size s) q (at_back q s) (grow_back o h t s)) ring.memory
            (grown_back o q h t s a small
              (subst (λ n. length q + 1 < n) (sym ring.size) (not_full b q held room)))))
