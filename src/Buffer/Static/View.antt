-- ===== src/Buffer/Static/View.antt =====
-- The manager in dynamic mode that a manager in static mode stands for.
use libatbus.Base.{
  ℕ, suc, ◌+◌, ◌%◌, ◌≤◌, ◌<◌, ◌≡◌, ◌≢◌, refl, sym, ap, subst, ◌∙◌, Bool, true, false, Option, some,
  List, [], ◌∷◌, ◌++◌, arith, length, on_test, if◌then◌else◌,
}
use native.Mathlib.Nat.{mod-eq_of_lt}
use libatbus.Status.{Status, success}
use libatbus.Buffer.Block.{Block, block_pop}
use libatbus.Buffer.Manager.{Manager, settle, clamp}
use libatbus.Buffer.Manager.Ends.{frees}
use libatbus.Buffer.Static.{StaticBuffer, StaticManager, set_at, static_empty}
use libatbus.Buffer.Static.Shrink.{refresh, static_popped, pop_at}
use libatbus.Buffer.Static.Layout.{Placed}
use libatbus.Buffer.Static.Separate.{Fine}
use libatbus.Buffer.Static.Slots.{Held}
use libatbus.Buffer.Static.Opened.{restart-Held}
use libatbus.Channel.Mem.Ring.{steps_away}

abbrev pub blocks_of : List Placed → List Block
blocks_of [] = []
blocks_of ((p, b) ∷ q) = b ∷ blocks_of q

pub blocks_of-append : (q r : List Placed) → blocks_of (q ++ r) ≡ blocks_of q ++ blocks_of r
blocks_of-append [] r = refl
blocks_of-append ((p, b) ∷ q) r = ap (λ bs. b ∷ bs) (blocks_of-append q r)

abbrev pub as_dynamic : StaticManager → List Placed → Manager
as_dynamic m q = record { dynamic_buffer = blocks_of q; limit = m.limit }

-- A result in static mode that is the one in dynamic mode.
unfoldable pub Agrees : Option (StaticManager × Status) → Manager × Status → Type 0
Agrees r d =
    (m : StaticManager) × (q : List Placed) × (ret : Status) × (r ≡ some (m, ret))
    × Held m.static_buffer q
    × ((as_dynamic m q, ret) ≡ d)

pub empty_not :
    (b : StaticBuffer) (x : Placed) (q : List Placed) → Held b (x ∷ q) → static_empty b ≡ false
unfolding static_empty
empty_not b x q h =
    let apart : b.head ≢ b.tail = λ e.
      steps_away b.circle_size b.head (suc (length q)) h.head (omega arith) h.few
        (sym h.tail ∙ sym e) in
    ground (arith, apart)

pub empty_so :
    (b : StaticBuffer)
    → b.head < b.circle_size
    → b.tail ≡ (b.head + 0) % b.circle_size
    → static_empty b ≡ true
unfolding static_empty
empty_so b l e =
    let same : b.head ≡ b.tail =
      sym (e ∙ ap (λ k. k % b.circle_size) (omega arith) ∙ mod-eq_of_lt l) in
    ground (arith, same)

-- The end of a pop that leaves blocks.
pub popped_some :
    (m : StaticManager) (freed : Bool) (b : StaticBuffer) (x : Placed) (q : List Placed) (s : ℕ)
    → Held b (x ∷ q)
    → Agrees (some (static_popped m freed b s)) (
      record { dynamic_buffer = blocks_of (x ∷ q); limit = settle m.limit freed false s },
      success,
    )
unfolding Agrees static_popped refresh
popped_some m freed b x q s h =
    let no' = empty_not b x q h in
    (
      record { static_buffer = b; limit = settle m.limit freed false s },
      x ∷ q,
      success,
      rw (no', static_popped, refresh) refl,
      h,
      refl,
    )

-- The end of a pop that frees the last block.
pub popped_none :
    (m : StaticManager) (freed : Bool) (b : StaticBuffer) (s : ℕ)
    → 2 ≤ b.circle_size
    → b.head < b.circle_size
    → b.tail ≡ (b.head + 0) % b.circle_size
    → Agrees
        (some (static_popped m freed b s))
        (record { dynamic_buffer = []; limit = settle m.limit freed true s }, success)
unfolding Agrees static_popped refresh
popped_none m freed b s two l e =
    let yes' = empty_so b l e in
    (
      record {
        static_buffer = record b {
          head = 0;
          tail = 0;
          circle_index = set_at 0 (some b.buffer) b.circle_index;
        };
        limit = settle m.limit freed true s;
      },
      [],
      success,
      rw (yes', static_popped, refresh) refl,
      restart-Held b two,
      refl,
    )

-- What a pop leaves of a block.
pub block_pop-Fine :
    (p s : ℕ) (b : Block)
    → Fine (p, b)
    → Fine (p, block_pop b (clamp s b)) × ((block_pop b (clamp s b)).size ≡ b.size)
unfolding block_pop
block_pop-Fine p s b (e, u, k) = ground (arith, e, u, k)

-- The manager's buffer when the block at `p` is popped from.
abbrev pub left_with : StaticManager → ℕ → Block → ℕ → StaticBuffer
left_with m p b s = record m.static_buffer {
  headers = set_at p (block_pop b (clamp s b)) m.static_buffer.headers;
}

pub pop_at_lem :
    (m : StaticManager) (free_end : StaticBuffer → StaticBuffer) (p : ℕ) (b : Block) (s : ℕ)
    (f : Bool)
    → m.static_buffer.headers p ≡ b
    → pop_at m free_end p s f ≡ (
        if frees b s f
        then static_popped m true (free_end (left_with m p b s)) (clamp s b)
        else static_popped m false (left_with m p b s) (clamp s b))
unfolding pop_at
pop_at_lem m free_end p b s f e = rw (e, pop_at) refl

-- Both branches of a pop against what the dynamic mode does in them.
pub pop_at-Agrees :
    (m : StaticManager) (free_end : StaticBuffer → StaticBuffer) (p : ℕ) (b : Block) (s : ℕ)
    (f : Bool)
    → m.static_buffer.headers p ≡ b
    → (d freed kept : Manager × Status) → (frees b s f ≡ true → d ≡ freed)
    → (frees b s f ≡ false → d ≡ kept)
    → Agrees (some (static_popped m true (free_end (left_with m p b s)) (clamp s b))) freed
    → Agrees (some (static_popped m false (left_with m p b s) (clamp s b))) kept
    → Agrees (some (pop_at m free_end p s f)) d
pop_at-Agrees m free_end p b s f e d freed kept ef ek hf hk =
    subst (λ r. Agrees (some r) d) (sym (pop_at_lem m free_end p b s f e))
      (on_test (λ r. Agrees (some r) d) (frees b s f)
        (λ t.
          subst (Agrees (some (static_popped m true (free_end (left_with m p b s)) (clamp s b))))
            (sym (ef t)) hf)
        (λ t.
          subst (Agrees (some (static_popped m false (left_with m p b s) (clamp s b)))) (sym (ek t))
            hk))
