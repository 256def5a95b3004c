-- ===== src/Buffer/Static/Memory.antt =====
-- No operation of the static mode moves the memory.
use libatbus.Base.{
  ℕ, ◌≡◌, refl, ◌∙◌, inl, inr, Bool, true, false, Option, none, some, on_either, Option-cases,
}
use libatbus.Status.{Status}
use libatbus.Buffer.Block.{create, full_size, block_pop}
use libatbus.Buffer.Manager.{over_limit, clamp}
use libatbus.Buffer.Static.{StaticBuffer, StaticManager, set_at, ends, pre_index, static_empty}
use libatbus.Buffer.Static.Grow.{
  place_back, place_front, grow_back, grow_front, static_push_back, static_push_front,
  static_pushed, limited_push_back, limited_push_front,
}
use libatbus.Buffer.Static.Shrink.{
  refresh, freed_tail, freed_head, static_popped, pop_at, static_pop_back, static_pop_front,
}

-- The start of the memory, and how much it is.
abbrev pub extent : StaticBuffer → ℕ × ℕ
extent b = (b.buffer, b.size)

Keeps : StaticBuffer → StaticBuffer × Status × Option ℕ → Type 0
Keeps b r = extent r.0 ≡ extent b

ends-Keeps : (b : StaticBuffer) → extent (ends b).0 ≡ extent b
unfolding ends
ends-Keeps b = elim (Option-cases (b.circle_index b.head)) [
  | inl e ↦ rw (e, ends) refl
  | inr (h, e) ↦ elim (Option-cases (b.circle_index b.tail)) [
    | inl f ↦ rw (e, f, ends) refl
    | inr (t, f) ↦ rw (e, f, ends) refl
  ]
]

place_back-Keeps :
    (b : StaticBuffer) (slots : ℕ → Option ℕ) (start room s : ℕ)
    → Keeps b (place_back b slots start room s)
unfolding Keeps place_back
place_back-Keeps b slots start room s = elim (Option-cases (create start room s)) [
  | inl e ↦ rw (e, place_back) refl
  | inr (made, e) ↦ rw (e, place_back) refl
]

place_front-Keeps : (b : StaticBuffer) (start s : ℕ) → Keeps b (place_front b start s)
unfolding Keeps place_front
place_front-Keeps b start s = elim (Option-cases (create start (full_size s) s)) [
  | inl e ↦ rw (e, place_front) refl
  | inr (made, e) ↦ rw (e, place_front) refl
]

stays-Keeps : (b : StaticBuffer) (ret : Status) → Keeps b (b, ret, none)
unfolding Keeps
stays-Keeps b ret = refl

grow_back-Keeps : (b : StaticBuffer) (h t s : ℕ) → Keeps b (grow_back b h t s)
unfolding grow_back
grow_back-Keeps b h t s =
    on_either (Keeps b)
      (on_either (Keeps b) (place_back-Keeps b _ _ _ s)
        (on_either (Keeps b) (stays-Keeps b _) (place_back-Keeps b _ _ _ s) _) _)
      (on_either (Keeps b) (stays-Keeps b _) (place_back-Keeps b _ _ _ s) _) _

grow_front-Keeps : (b : StaticBuffer) (h t s : ℕ) → Keeps b (grow_front b h t s)
unfolding grow_front
grow_front-Keeps b h t s =
    on_either (Keeps b)
      (on_either (Keeps b) (place_front-Keeps b _ s)
        (on_either (Keeps b) (stays-Keeps b _) (place_front-Keeps b _ s) _) _)
      (on_either (Keeps b) (stays-Keeps b _) (place_front-Keeps b _ s) _) _

opened-Keeps :
    (b : StaticBuffer) (r : StaticBuffer × Status × Option ℕ) → Keeps (ends b).0 r → Keeps b r
unfolding Keeps
opened-Keeps b r k = k ∙ ends-Keeps b

static_push_back-Keeps : (b : StaticBuffer) (s : ℕ) → Keeps b (static_push_back b s)
unfolding static_push_back
static_push_back-Keeps b s =
    on_either (Keeps b) (stays-Keeps b _)
      (opened-Keeps b (grow_back (ends b).0 (ends b).1 (ends b).2 s)
        (grow_back-Keeps (ends b).0 (ends b).1 (ends b).2 s))
      _

static_push_front-Keeps : (b : StaticBuffer) (s : ℕ) → Keeps b (static_push_front b s)
unfolding static_push_front
static_push_front-Keeps b s =
    on_either (Keeps b) (stays-Keeps b _)
      (opened-Keeps b (grow_front (ends b).0 (ends b).1 (ends b).2 s)
        (grow_front-Keeps (ends b).0 (ends b).1 (ends b).2 s))
      _

-- The memory of a manager after an operation.
abbrev pub Stays : StaticManager → StaticManager → Type 0
Stays m m' = extent m'.static_buffer ≡ extent m.static_buffer

StaysAfter : StaticManager → StaticManager × Status × Option ℕ → Type 0
StaysAfter m r = Stays m r.0

unfoldable pub StaysPopped : StaticManager → StaticManager × Status → Type 0
StaysPopped m r = Stays m r.0

static_pushed-Stays :
    (m : StaticManager) (s : ℕ) (r : StaticBuffer × Status × Option ℕ)
    → Keeps m.static_buffer r
    → StaysAfter m (static_pushed m s r)
unfolding static_pushed StaysAfter Keeps
static_pushed-Stays m s r k = on_either (StaysAfter m) k k _

pub limited_push_back-Stays : (m : StaticManager) (s : ℕ) → Stays m (limited_push_back m s).0
unfolding limited_push_back StaysAfter
limited_push_back-Stays m s =
    on_either (StaysAfter m) refl
      (static_pushed-Stays m s _ (static_push_back-Keeps m.static_buffer s)) (over_limit m.limit s)

pub limited_push_front-Stays : (m : StaticManager) (s : ℕ) → Stays m (limited_push_front m s).0
unfolding limited_push_front StaysAfter
limited_push_front-Stays m s =
    on_either (StaysAfter m) refl
      (static_pushed-Stays m s _ (static_push_front-Keeps m.static_buffer s)) (over_limit m.limit s)

Same : StaticBuffer → StaticBuffer → Type 0
Same b b' = extent b' ≡ extent b

static_popped-Stays :
    (m : StaticManager) (freed : Bool) (b : StaticBuffer) (s : ℕ)
    → extent b ≡ extent m.static_buffer
    → StaysPopped m (static_popped m freed b s)
unfolding static_popped refresh StaysPopped Same
static_popped-Stays m freed b s e = on_either (Same m.static_buffer) e e _

pop_at-Stays :
    (m : StaticManager) (free_end : StaticBuffer → StaticBuffer) (p s : ℕ) (f : Bool)
    → ((b : StaticBuffer) → extent (free_end b) ≡ extent b)
    → StaysPopped m (pop_at m free_end p s f)
unfolding pop_at
pop_at-Stays m free_end p s f e =
    let b = m.static_buffer in
    let t = b.headers p in
    let b' : StaticBuffer = record b { headers = set_at p (block_pop t (clamp s t)) b.headers } in
    on_either (StaysPopped m) (static_popped-Stays m true (free_end b') (clamp s t) (e b'))
      (static_popped-Stays m false b' (clamp s t) refl) _

unfoldable pub StaysIf : StaticManager → Option (StaticManager × Status) → Type 0
StaysIf m none = Unit
StaysIf m (some r) = StaysPopped m r

left-Stays : (m : StaticManager) (ret : Status) → StaysIf m (some (m, ret))
unfolding StaysIf StaysPopped
left-Stays m ret = refl

followed-Stays :
    (m : StaticManager) (g : StaticBuffer → StaticBuffer) (s : ℕ) (f : Bool) (o : Option ℕ)
    → ((b : StaticBuffer) → extent (g b) ≡ extent b)
    → StaysIf m (elim o [ none ↦ none | some p ↦ some (pop_at m g p s f) ])
unfolding StaysIf
followed-Stays m g s f none k = tt
followed-Stays m g s f (some p) k = pop_at-Stays m g p s f k

extent-freed_tail : (i : ℕ) (b : StaticBuffer) → extent (freed_tail i b) ≡ extent b
unfolding freed_tail
extent-freed_tail i b = refl

extent-freed_head : (b : StaticBuffer) → extent (freed_head b) ≡ extent b
unfolding freed_head
extent-freed_head b = refl

pub pop_back-StaysIf : (m : StaticManager) (s : ℕ) (f : Bool) → StaysIf m (static_pop_back m s f)
unfolding static_pop_back
pop_back-StaysIf m s f =
    let index = pre_index m.static_buffer m.static_buffer.tail in
    on_either (StaysIf m) (left-Stays m _)
      (followed-Stays m (freed_tail index) s f (m.static_buffer.circle_index index)
        (extent-freed_tail index))
      (static_empty m.static_buffer)

pub pop_front-StaysIf : (m : StaticManager) (s : ℕ) (f : Bool) → StaysIf m (static_pop_front m s f)
unfolding static_pop_front
pop_front-StaysIf m s f =
    on_either (StaysIf m) (left-Stays m _)
      (followed-Stays m freed_head s f (m.static_buffer.circle_index m.static_buffer.head)
        extent-freed_head)
      (static_empty m.static_buffer)
