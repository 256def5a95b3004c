-- ===== src/Buffer/Static/PushFront.antt =====
-- `static_push_front` on a buffer that holds blocks.
use libatbus.Base.{
  ℕ, ◌+◌, ◌-◌, ◌^◌, ◌≤◌, ◌<◌, ◌≡◌, refl, sym, subst, ◌∙◌, ◌⊎◌, inl, inr, none, List, ◌∷◌, arith,
  length, if◌then◌else◌, ◌==◌, leb, on_test,
}
use native.Mathlib.Decide.{dec_lt}
use libatbus.Status.{buff_limit}
use libatbus.Buffer.Block.{full_size}
use libatbus.Buffer.Static.{StaticBuffer, buffer_offset, buffer_end, next_index}
use libatbus.Buffer.Static.Grow.{place_front, grow_front, static_push_front}
use libatbus.Buffer.Static.Layout.{
  Placed, Laid, first, Laid-bounds, Laid-start, Laid-back, Laid-between,
}
use libatbus.Buffer.Static.Slots.{Held}
use libatbus.Buffer.Static.Opened.{Opened, ends_open, fresh}
use libatbus.Buffer.Static.Push.{Pushes, full_not_empty, at_ends, offset_up, offset_down, not_full}
use libatbus.Buffer.Static.Pushed.{place_front-Held}

-- Why a block can be refused at the front; one as long as the memory always is.
abbrev pub NoneFront : List Placed → ℕ → ℕ → Type 0
NoneFront q size s = (0 < length q) ⊎ (size ≤ full_size s)

abbrev pub at_front : List Placed → ℕ → ℕ → List Placed
at_front q s start = (start, fresh start s) ∷ q

module _ (o : StaticBuffer) (q : List Placed) (h t s : ℕ) (a : Opened o q h t)
    (small : s + 32 ≤ 2 ^ 64) (more : length q + 1 < o.circle_size) where
  abbrev lo : ℕ
  lo = o.buffer

  abbrev hi : ℕ
  hi = buffer_end o

  bounds : (lo ≤ t) × (t ≤ hi) × (lo ≤ h) × (h ≤ hi)
  bounds =
      subst (λ x. (lo ≤ t) × (t ≤ hi) × (lo ≤ x) × (x ≤ hi)) (sym a.at_first)
        (Laid-bounds lo hi t q a.laid)

  stays :
      NoneFront q o.size s → Pushes (NoneFront q o.size s) q (at_front q s) (o, buff_limit, none)
  unfolding Pushes
  stays why = inl (o, refl, a.held, why)

  alone : (length q ≡ 0 → hi - t ≤ full_size s) → NoneFront q o.size s
  alone f = elim (dec_lt 0 (length q)) [
    | yes p ↦ inl p
    | no p ↦
        let none_left : length q ≡ 0 = omega arith in
        let low = a.empty none_left in
        let less = f none_left in
        let meet : t ≡ h = at_ends q a.at_first none_left in inr (omega arith)
  ]

  -- The new block at an address where it is laid.
  put :
      (start : ℕ)
      → Laid lo hi ((start, fresh start s) ∷ q) t
      → Pushes (NoneFront q o.size s) q (at_front q s) (place_front o start s)
  unfolding Pushes
  put start laid = inr (start, place_front-Held o q start s a.held small more t a.at_tail laid)

  flat_front :
      h ≤ t
      → Pushes (NoneFront q o.size s) q (at_front q s) (
          if leb (full_size s) (buffer_offset h lo)
          then place_front o (lo + (buffer_offset h lo - full_size s)) s
          else if leb (buffer_offset t hi) (full_size s)
          then (o, buff_limit, none)
          else place_front o (t + (buffer_offset t hi - full_size s)) s)
  flat_front flat =
      let (b0, b1, b2, b3) = bounds in
      let down = offset_down h lo b2 in
      let up = offset_up t hi b1 in
      let flat' : first q t ≤ t = subst (λ x. x ≤ t) a.at_first flat in
      on_test (Pushes (NoneFront q o.size s) q (at_front q s))
        (leb (full_size s) (buffer_offset h lo))
        (λ e. put (lo + (buffer_offset h lo - full_size s)) (
          Laid-start lo hi t (lo + (buffer_offset h lo - full_size s)) q
            (fresh (lo + (buffer_offset h lo - full_size s)) s) a.laid flat' (omega arith)
            (let meets : lo + (buffer_offset h lo - full_size s) + full_size s ≡ h =
                ground (arith, e, down) in
              meets ∙ a.at_first)))
        (λ e.
          on_test (Pushes (NoneFront q o.size s) q (at_front q s))
            (leb (buffer_offset t hi) (full_size s))
            (λ f. stays (alone (λ z. ground (arith, f, up))))
            (λ f. put (t + (buffer_offset t hi - full_size s)) (
              Laid-back lo hi t (t + (buffer_offset t hi - full_size s)) q
                (fresh (t + (buffer_offset t hi - full_size s)) s) a.laid flat' (ground (arith, f))
                (ground (arith, f, up)))))

  grown_front : Pushes (NoneFront q o.size s) q (at_front q s) (grow_front o h t s)
  unfolding grow_front
  grown_front =
      on_test (Pushes (NoneFront q o.size s) q (at_front q s)) (leb h t)
        (λ e. flat_front (ground (arith, e)))
        (λ e.
          on_test (Pushes (NoneFront q o.size s) q (at_front q s))
            (leb (buffer_offset t h) (full_size s))
            (λ f. stays (
              alone (λ z. let meet : t ≡ h = at_ends q a.at_first z in absurd (ground (arith, e)))))
            (λ f.
              let up = offset_up t h (ground (arith, e)) in
              put (t + (buffer_offset t h - full_size s)) (
                Laid-between lo hi t (t + (buffer_offset t h - full_size s)) q
                  (fresh (t + (buffer_offset t h - full_size s)) s) a.laid (ground (arith, f))
                  (let meets : t + (buffer_offset t h - full_size s) + full_size s ≡ h =
                      ground (arith, e, f, up) in
                    meets ∙ a.at_first))))

pub static_push_front_lem :
    (b : StaticBuffer) (q : List Placed) (s : ℕ)
    → Held b q
    → s + 32 ≤ 2 ^ 64
    → Pushes (NoneFront q b.size s) q (at_front q s) (static_push_front b s)
unfolding static_push_front Pushes
static_push_front_lem b q s held small =
    let (o, h, t, e, a, ring) = ends_open b q held in
    rw (e, static_push_front)
      (on_test (Pushes (NoneFront q b.size s) q (at_front q s)) (next_index b b.tail == b.head)
        (λ full. inl (b, refl, held, inl (full_not_empty b q held full)))
        (λ room.
          subst (λ size. Pushes (NoneFront q size s) q (at_front q s) (grow_front o h t s))
            ring.memory
            (grown_front o q h t s a small
              (subst (λ n. length q + 1 < n) (sym ring.size) (not_full b q held room)))))
