-- ===== src/Buffer/Static/Pushed.antt =====
-- A block that is placed behind or before the others.
use libatbus.Base.{
  ℕ, suc, ◌+◌, ◌-◌, ◌%◌, ◌^◌, ◌≤◌, ◌<◌, ◌≡◌, ◌≢◌, sym, ap, subst, ◌∙◌, Option, some, List, [], ◌∷◌,
  ◌++◌, All-append, arith, length, length-append,
}
use native.Mathlib.Nat.{mod-eq_of_lt, mod-add-mod, mod-eq-sub-mod}
use libatbus.Status.{Status, success}
use libatbus.Buffer.Block.{Block, full_size, block_data}
use libatbus.Buffer.Static.{StaticBuffer, set_at, buffer_end, next_index, pre_index}
use libatbus.Buffer.Static.Grow.{pointer_at, place_back, place_front}
use libatbus.Buffer.Static.Layout.{Placed, Laid}
use libatbus.Buffer.Static.Separate.{Fine, Laid-Separate}
use libatbus.Buffer.Static.Slots.{
  set_here, set_there, Slots, Slots-append, Slots-other, Slots-header, Held,
}
use libatbus.Buffer.Static.Opened.{
  fresh, create-fresh, fresh-Fine, other_addresses, last_address, Place-append,
}
use libatbus.Channel.Mem.Ring.{ring_lt, steps_away, step_more, step_behind}

-- What has placed a block: the new buffer, and the pointer to the data.
abbrev pub PlacedAt : ℕ → List Placed → StaticBuffer × Status × Option ℕ → Type 0
PlacedAt start q r = (b : StaticBuffer) × (r ≡ (b, success, some (start + 24))) × Held b q

pointer_at-fresh :
    (b : StaticBuffer) (i start s : ℕ)
    → b.circle_index i ≡ some start
    → b.headers start ≡ fresh start s
    → pointer_at b i ≡ some (start + 24)
unfolding pointer_at block_data
pointer_at-fresh b i start s e f =
    rw (e, pointer_at) (ap (λ d. some (block_data d)) f ∙ ap some (omega arith))

module _ (o : StaticBuffer) (q : List Placed) (start s : ℕ) (h : Held o q) (small : s + 32 ≤ 2 ^ 64)
    (more : length q + 1 < o.circle_size) where
  abbrev block : Block
  block = fresh start s

  abbrev headers : ℕ → Block
  headers = set_at start block o.headers

  n_pos : 0 < o.circle_size
  n_pos = omega (arith, h.two)

  next_tail : next_index o o.tail ≡ (o.head + (length q + 1)) % o.circle_size
  next_tail = ap (λ t. (t + 1) % o.circle_size) h.tail ∙ step_behind o.circle_size o.head (length q)

  tail_moves : next_index o o.tail ≢ o.tail
  tail_moves =
      steps_away o.circle_size o.tail 1
        (subst (λ t. t < o.circle_size) (sym h.tail) (ring_lt o.circle_size _ n_pos)) (omega arith)
        (omega (arith, h.two))

  -- The slots as `place_back` assigns them, with `start` at the tail.
  pub place_back-Held :
      (slots : ℕ → Option ℕ) (room : ℕ)
      → full_size s ≤ room
      → slots o.tail ≡ some start
      → Slots o.circle_size slots o.headers o.head q
      → Laid o.buffer (buffer_end o) (q ++ (start, block) ∷ []) (start + full_size s)
      → PlacedAt start (q ++ (start, block) ∷ []) (place_back o slots start room s)
  unfolding place_back
  place_back-Held slots room fits e rest laid =
      let n = o.circle_size in
      let tail = next_index o o.tail in
      let slots' = set_at tail (some (start + full_size s)) slots in
      let elsewhere =
        last_address q (start, block) h.fine (fresh-Fine start s small)
          (Laid-Separate o.buffer (buffer_end o) (start + full_size s) (q ++ (start, block) ∷ [])
            laid) in
      let longer : length (q ++ (start, block) ∷ []) ≡ length q + 1 =
        length-append q ((start, block) ∷ []) in
      let made : StaticBuffer = record o {
        headers = headers;
        tail = tail;
        circle_index = slots';
      } in
      (
        made,
        rw (create-fresh start room s fits, place_back)
            (ap (λ pointer. (made, success, pointer))
              (pointer_at-fresh (record o { headers = headers; circle_index = slots }) o.tail start
                s e (set_here start block o.headers))),
        record {
          two = h.two;
          few = omega (arith, longer);
          head = h.head;
          tail = next_tail ∙ ap (λ k. (o.head + k) % n) (sym longer);
          slots =
              Slots-append n slots' headers o.head q start block h.head
                (Slots-header n slots' o.headers o.head start block q elsewhere (
                  subst
                    (λ t. Slots n (set_at t (some (start + full_size s)) slots) o.headers o.head q)
                    (sym next_tail)
                    (Slots-other n slots o.headers o.head (length q + 1)
                      (some (start + full_size s)) q h.head (omega arith) more rest)))
                (subst (λ t. slots' t ≡ some start) h.tail
                  (set_there tail o.tail (some (start + full_size s)) slots tail_moves ∙ e))
                (set_here start block o.headers);
          fine = All-append Fine q ((start, block) ∷ []) h.fine (fresh-Fine start s small, tt);
          place =
              Place-append made q (start, block) (start + full_size s)
                (set_here tail (some (start + full_size s)) slots) laid;
        },
      )

  previous_next : ((pre_index o o.head) + 1) % o.circle_size ≡ o.head
  previous_next = rw mod-add-mod (
      ap (λ k. k % o.circle_size) (omega (arith, h.two))
      ∙ mod-eq-sub-mod {n = o.head + o.circle_size} {m = o.circle_size} (omega arith)
      ∙ ap (λ k. k % o.circle_size) (omega arith)
      ∙ mod-eq_of_lt h.head)

  previous_lt : pre_index o o.head < o.circle_size
  previous_lt = ring_lt o.circle_size (o.head + o.circle_size - 1) n_pos

  -- The slot before the head lies behind the tail.
  previous_behind : pre_index o o.head ≡ (o.head + (o.circle_size - 1)) % o.circle_size
  previous_behind = ap (λ k. k % o.circle_size) (omega (arith, h.two))

  pub place_front-Held :
      (t : ℕ)
      → o.circle_index o.tail ≡ some t
      → Laid o.buffer (buffer_end o) ((start, block) ∷ q) t
      → PlacedAt start ((start, block) ∷ q) (place_front o start s)
  unfolding place_front
  place_front-Held t e laid =
      let n = o.circle_size in
      let head = pre_index o o.head in
      let slots' = set_at head (some start) o.circle_index in
      let made : StaticBuffer = record o {
        headers = headers;
        head = head;
        circle_index = slots';
      } in
      let (apart, others) = Laid-Separate o.buffer (buffer_end o) t ((start, block) ∷ q) laid in
      let elsewhere = other_addresses (start, block) q (fresh-Fine start s small) h.fine apart in
      let same_tail : o.tail ≡ (head + suc (length q)) % n =
        h.tail ∙ ap (λ k. (k + length q) % n) (sym previous_next) ∙ step_more n head (length q) in
      (
        made,
        rw (create-fresh start (full_size s) s (omega arith), place_front)
            (ap (λ pointer. (made, success, pointer))
              (pointer_at-fresh made head start s (set_here head (some start) o.circle_index)
                (set_here start block o.headers))),
        record {
          two = h.two;
          few = omega arith;
          head = previous_lt;
          tail = same_tail;
          slots = (
            set_here head (some start) o.circle_index,
            set_here start block o.headers,
            subst (λ i. Slots n slots' headers i q) (sym previous_next)
                (Slots-header n slots' o.headers o.head start block q elsewhere (
                  subst (λ j. Slots n (set_at j (some start) o.circle_index) o.headers o.head q)
                    (sym previous_behind)
                    (Slots-other n o.circle_index o.headers o.head (n - 1) (some start) q h.head
                      (omega arith) (omega (arith, h.two)) h.slots))),
          );
          fine = (fresh-Fine start s small, h.fine);
          place = (
            t,
            set_there head o.tail (some start) o.circle_index (λ same.
                  steps_away n head (suc (length q)) previous_lt (omega arith) (omega arith)
                    (sym same_tail ∙ sym same))
                ∙ e,
            laid,
          );
        },
      )
