-- ===== src/Buffer/Static/Slots.antt =====
-- The pointers of the ring of a static buffer, and what leaves them as they are.
use libatbus.Base.{
  ℕ, zero, suc, ◌+◌, ◌%◌, ◌≤◌, ◌<◌, ◌≡◌, ◌≢◌, sym, subst, ◌∙◌, ◌⊎◌, Option, none, some, List, [],
  ◌∷◌, ◌++◌, All, arith, length, if_true, if_false, ◌==◌,
}
use native.Mathlib.Nat.{mod-eq_of_lt}
use libatbus.Buffer.Block.{Block}
use libatbus.Buffer.Static.{StaticBuffer, set_at, buffer_end}
use libatbus.Buffer.Static.Layout.{Placed, Laid}
use libatbus.Buffer.Static.Separate.{Fine}
use libatbus.Channel.Mem.Ring.{ring_lt, steps_away, step_more}

pub set_here {ℓ} : {A : Type ℓ} (i : ℕ) (v : A) (f : ℕ → A) → set_at i v f i ≡ v
unfolding set_at
set_here i v f = if_true (i == i) _ _ (ground arith)

pub set_there {ℓ} : {A : Type ℓ} (i j : ℕ) (v : A) (f : ℕ → A) → i ≢ j → set_at i v f j ≡ f j
unfolding set_at
set_there i j v f h = if_false (i == j) _ _ (ground (arith, h))

-- From the index `i` on the ring points at the blocks.
abbrev pub Slots : ℕ → (ℕ → Option ℕ) → (ℕ → Block) → ℕ → List Placed → Type 0
Slots n c hs i [] = Unit
Slots n c hs i ((p, b) ∷ q) = (c i ≡ some p) × (hs p ≡ b) × Slots n c hs ((i + 1) % n) q

module _ (n : ℕ) (c : ℕ → Option ℕ) (hs : ℕ → Block) where
  pub Slots-append :
      (i : ℕ) (q : List Placed) (p : ℕ) (b : Block)
      → i < n
      → Slots n c hs i q
      → c ((i + length q) % n) ≡ some p
      → hs p ≡ b
      → Slots n c hs i (q ++ (p, b) ∷ [])
  Slots-append i [] p b hi s e f =
      let at_i : (i + 0) % n ≡ i = omega (arith, mod-eq_of_lt {n = i + 0} {m = n} (omega arith)) in
      (subst (λ j. c j ≡ some p) at_i e, f, tt)
  Slots-append i ((r, d) ∷ q) p b hi (e', f', s) e f = (
    e',
    f',
    Slots-append ((i + 1) % n) q p b (ring_lt n (i + 1) (omega arith)) s
        (subst (λ j. c j ≡ some p) (sym (step_more n i (length q))) e) f,
  )

  pub Slots-last :
      (i : ℕ) (q : List Placed) (p : ℕ) (b : Block)
      → i < n
      → Slots n c hs i (q ++ (p, b) ∷ [])
      → Slots n c hs i q × (c ((i + length q) % n) ≡ some p) × (hs p ≡ b)
  Slots-last i [] p b hi (e, f, s) =
      let at_i : (i + 0) % n ≡ i = omega (arith, mod-eq_of_lt {n = i + 0} {m = n} (omega arith)) in
      (tt, subst (λ j. c j ≡ some p) (sym at_i) e, f)
  Slots-last i ((r, d) ∷ q) p b hi (e', f', s) =
      let (s', e, f) = Slots-last ((i + 1) % n) q p b (ring_lt n (i + 1) (omega arith)) s in
      ((e', f', s'), subst (λ j. c j ≡ some p) (step_more n i (length q)) e, f)

  -- A pointer that is set outside the indices of the blocks.
  pub Slots-other :
      (i d : ℕ) (v : Option ℕ) (q : List Placed)
      → i < n
      → length q ≤ d
      → d < n
      → Slots n c hs i q
      → Slots n (set_at ((i + d) % n) v c) hs i q
  Slots-other i d v [] hi hd hn s = tt
  Slots-other i zero v ((p, b) ∷ q) hi hd hn (e, f, s) = absurd (omega arith)
  Slots-other i (suc d) v ((p, b) ∷ q) hi hd hn (e, f, s) = (
    set_there ((i + suc d) % n) i v c (steps_away n i (suc d) hi (omega arith) hn) ∙ e,
    f,
    subst (λ j. Slots n (set_at j v c) hs ((i + 1) % n) q) (step_more n i d)
        (Slots-other ((i + 1) % n) d v q (ring_lt n (i + 1) (omega arith)) (omega arith)
          (omega arith) s),
  )

  -- A header that is written elsewhere.
  pub Slots-header :
      (i p : ℕ) (b : Block) (q : List Placed)
      → All (λ x. p ≢ x.0) q
      → Slots n c hs i q
      → Slots n c (set_at p b hs) i q
  Slots-header i p b [] a s = tt
  Slots-header i p b ((r, d) ∷ q) (ne, a) (e, f, s) =
      (e, set_there p r b hs ne ∙ f, Slots-header ((i + 1) % n) p b q a s)

-- Nothing, or where the next block begins.
abbrev pub Place : StaticBuffer → List Placed → Type 0
Place b [] = (b.head ≡ 0) × ((b.circle_index 0 ≡ none) ⊎ (b.circle_index 0 ≡ some b.buffer))
Place b (x ∷ q) =
    (t : ℕ) × (b.circle_index b.tail ≡ some t) × Laid b.buffer (buffer_end b) (x ∷ q) t

-- The buffer holds the blocks `q`, from its head to its tail.
pub record Held (b : StaticBuffer) (q : List Placed) : Type 0 where
  pub two : 2 ≤ b.circle_size
  pub few : length q < b.circle_size
  pub head : b.head < b.circle_size
  pub tail : b.tail ≡ (b.head + length q) % b.circle_size
  pub slots : Slots b.circle_size b.circle_index b.headers b.head q
  pub fine : All Fine q
  pub place : Place b q
