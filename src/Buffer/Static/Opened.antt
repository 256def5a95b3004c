-- ===== src/Buffer/Static/Opened.antt =====
-- The ends of a static buffer, and a block that is put behind or before the others.
use libatbus.Base.{
  ℕ, ◌+◌, ◌%◌, ◌^◌, ◌≤◌, ◌≡◌, ◌≢◌, refl, sym, ap, subst, ◌∙◌, inl, inr, none, some, List, [], ◌∷◌,
  ◌++◌, All, arith, length, if_false, ltb, le→ltb-false,
}
use native.Mathlib.Nat.{mod-eq_of_lt}
use libatbus.Buffer.Block.{Block, full_size, create}
use libatbus.Buffer.Static.{StaticBuffer, set_at, buffer_end, ends}
use libatbus.Buffer.Static.Layout.{Placed, Laid, first}
use libatbus.Buffer.Static.Separate.{Fine, Apart, Separate, Apart-address}
use libatbus.Buffer.Static.Slots.{set_here, Place, Held}

-- The pointers at both ends are set, to `h` and `t`.
pub record Opened (o : StaticBuffer) (q : List Placed) (h t : ℕ) : Type 0 where
  pub held : Held o q
  pub at_head : o.circle_index o.head ≡ some h
  pub at_tail : o.circle_index o.tail ≡ some t
  pub laid : Laid o.buffer (buffer_end o) q t
  pub at_first : h ≡ first q t
  pub empty : length q ≡ 0 → h ≡ o.buffer

-- The same ring, with the same indices.
pub record SameRing (b o : StaticBuffer) : Type 0 where
  pub size : o.circle_size ≡ b.circle_size
  pub memory : o.size ≡ b.size
  pub head : o.head ≡ b.head
  pub tail : o.tail ≡ b.tail

start_index : (n h : ℕ) → 2 ≤ n → h ≡ 0 → (h + 0) % n ≡ 0
start_index n h l e =
    ap (λ k. k % n) (omega (arith, e)) ∙ mod-eq_of_lt {n = 0} {m = n} (omega arith)

pub restart-Held :
    (b : StaticBuffer)
    → 2 ≤ b.circle_size
    → Held
        (record b { head = 0; tail = 0; circle_index = set_at 0 (some b.buffer) b.circle_index })
        []
restart-Held b two = record {
  two = two;
  few = omega arith;
  head = omega arith;
  tail = sym (start_index b.circle_size 0 two refl);
  slots = tt;
  fine = tt;
  place = (refl, inr (set_here 0 (some b.buffer) b.circle_index));
}

pub ends_open :
    (b : StaticBuffer) (q : List Placed)
    → Held b q
    → (o : StaticBuffer) × (h : ℕ) × (t : ℕ) × (ends b ≡ (o, h, t)) × Opened o q h t × SameRing b o
unfolding ends
ends_open b [] held = elim held.place.1 [
  | inl e ↦
      let at_start = held.place.0 in
      let at_tail = held.tail ∙ start_index b.circle_size b.head held.two at_start in
      let at_head : b.circle_index b.head ≡ none =
        subst (λ i. b.circle_index i ≡ none) (sym at_start) e in
      (
        _,
        b.buffer,
        b.buffer,
        rw (at_head, ends) refl,
        record {
          held = restart-Held b held.two;
          at_head = set_here 0 (some b.buffer) b.circle_index;
          at_tail = set_here 0 (some b.buffer) b.circle_index;
          laid = inl (omega arith, omega arith);
          at_first = refl;
          empty = λ z. refl;
        },
        record { size = refl; memory = refl; head = sym at_start; tail = sym at_tail },
      )
  | inr e ↦
      let at_start = held.place.0 in
      let tail_start = held.tail ∙ start_index b.circle_size b.head held.two at_start in
      let at_head : b.circle_index b.head ≡ some b.buffer =
        subst (λ i. b.circle_index i ≡ some b.buffer) (sym at_start) e in
      let at_tail : b.circle_index b.tail ≡ some b.buffer =
        subst (λ i. b.circle_index i ≡ some b.buffer) (sym tail_start) e in
      (
        b,
        b.buffer,
        b.buffer,
        rw (at_head, at_tail, ends) refl,
        record {
          held = held;
          at_head = at_head;
          at_tail = at_tail;
          laid = inl (omega arith, omega arith);
          at_first = refl;
          empty = λ z. refl;
        },
        record { size = refl; memory = refl; head = refl; tail = refl },
      )
]
ends_open b ((p, d) ∷ q) held =
    let (t, at_tail, laid) = held.place in
    let at_head = held.slots.0 in
    (
      b,
      p,
      t,
      rw (at_head, at_tail, ends) refl,
      record {
        held = held;
        at_head = at_head;
        at_tail = at_tail;
        laid = laid;
        at_first = refl;
        empty = λ z. absurd (omega arith);
      },
      record { size = refl; memory = refl; head = refl; tail = refl },
    )

-- A new block at an address.
abbrev pub fresh : ℕ → ℕ → Block
fresh start s = record { size = s; used = 0; pointer = start + 24 }

pub create-fresh :
    (start room s : ℕ)
    → full_size s ≤ room
    → create start room s ≡ some (fresh start s, start + full_size s)
unfolding create
create-fresh start room s h =
    if_false (ltb room (full_size s)) _ _ (le→ltb-false room (full_size s) h)

pub fresh-Fine : (start s : ℕ) → s + 32 ≤ 2 ^ 64 → Fine (start, fresh start s)
fresh-Fine start s h = (refl, omega arith, h)

-- What is apart from all others begins elsewhere.
pub other_addresses :
    (x : Placed) (q : List Placed) → Fine x → All Fine q → All (Apart x) q → All (λ y. x.0 ≢ y.0) q
other_addresses x [] f fs a = tt
other_addresses x (y ∷ q) f (g, fs) (a, more) =
    (Apart-address x y f g a, other_addresses x q f fs more)

pub last_address :
    (q : List Placed) (x : Placed)
    → All Fine q
    → Fine x
    → Separate (q ++ x ∷ [])
    → All (λ y. x.0 ≢ y.0) q
last_address [] x fs f s = tt
last_address (y ∷ q) x (g, fs) f (a, s) =
    (λ e. Apart-address y x g f (at_last q a) (sym e), last_address q x fs f s)
  where
    at_last : (q : List Placed) → All (Apart y) (q ++ x ∷ []) → Apart y x
    at_last [] (a, h) = a
    at_last (z ∷ q) (a, h) = at_last q h

pub Place-append :
    (b : StaticBuffer) (q : List Placed) (x : Placed) (t : ℕ)
    → b.circle_index b.tail ≡ some t
    → Laid b.buffer (buffer_end b) (q ++ x ∷ []) t
    → Place b (q ++ x ∷ [])
Place-append b [] x t e l = (t, e, l)
Place-append b (y ∷ q) x t e l = (t, e, l)
