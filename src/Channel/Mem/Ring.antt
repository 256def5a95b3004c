-- ===== src/Channel/Mem/Ring.antt =====
-- The indices that the loops over the nodes of a block run through.
use libatbus.Base.{
  ℕ, zero, suc, ◌+◌, ◌-◌, ◌%◌, ◌≤◌, ◌<◌, ◌≡◌, ◌≢◌, refl, sym, ap, subst, ◌∙◌, ◌⊎◌, inl, inr, List,
  [], ◌∷◌, ◌++◌, All, arith, ◌==◌, if◌then◌else◌,
}
use native.Mathlib.Nat.{mod-add-mod, mod-eq_of_lt, mod-eq-sub-mod, mod-lt}
use native.Mathlib.Decide.{dec_lt}
use libatbus.Channel.Mem.{span}

-- A step of at most the whole ring goes past its end once, or not at all.
pub wrap :
    (n h k : ℕ)
    → h < n
    → k ≤ n
    → (((h + k) % n ≡ h + k) × (h + k < n)) ⊎ (((h + k) % n ≡ h + k - n) × (n ≤ h + k))
wrap n h k hh hk = elim (dec_lt (h + k) n) [
  | yes p ↦ inl (mod-eq_of_lt p, p)
  | no p ↦ elim (dec_lt (h + k - n) n) [
    | yes q ↦ inr (mod-eq-sub-mod {n = h + k} {m = n} (omega arith) ∙ mod-eq_of_lt q, omega arith)
    | no q ↦ absurd (omega arith)
  ]
]

pub ring_lt : (n i : ℕ) → 0 < n → i % n < n
ring_lt n i h = mod-lt i h

-- Fewer than `n` steps do not come back.
pub steps_away : (n h k : ℕ) → h < n → 0 < k → k < n → ((h + k) % n) ≢ h
steps_away n h k hh h0 hk =
    λ e. elim (wrap n h k hh (omega arith)) [ inl (p, q) ↦ omega arith | inr (p, q) ↦ omega arith ]

-- `d` indices from `i` on, going round at `n`.
abbrev pub ring : ℕ → ℕ → ℕ → List ℕ
ring n i zero = []
ring n i (suc d) = i ∷ ring n ((i + 1) % n) d

pub step_more : (n i d : ℕ) → ((i + 1) % n + d) % n ≡ (i + suc d) % n
step_more n i d = rw mod-add-mod (ap (λ k. k % n) (omega arith))

if_eq : (a b : ℕ) (x y : List ℕ) → a ≡ b → (if a == b then y else x) ≡ y
if_eq a b x y h = ground arith

if_ne : (a b : ℕ) (x y : List ℕ) → a ≢ b → (if a == b then y else x) ≡ x
if_ne a b x y h = ground arith

-- The loop runs through the indices up to its end and stops, if it has that many turns.
pub span-ring :
    (fuel n i d : ℕ) → i < n → d < n → d ≤ fuel → span fuel n i ((i + d) % n) ≡ ring n i d
unfolding span
span-ring zero n i zero hi hd hf = refl
span-ring zero n i (suc d) hi hd hf = absurd (omega arith)
span-ring (suc f) n i zero hi hd hf =
    if_eq i ((i + 0) % n) _ [] (omega (arith, mod-eq_of_lt {n = i + 0} {m = n} (omega arith)))
span-ring (suc f) n i (suc d) hi hd hf =
    if_ne i ((i + suc d) % n) _ [] (λ e. steps_away n i (suc d) hi (omega arith) hd (sym e))
    ∙ ap (λ is. i ∷ is)
        (subst (λ e. span f n ((i + 1) % n) e ≡ ring n ((i + 1) % n) d) (step_more n i d)
          (span-ring f n ((i + 1) % n) d (ring_lt n (i + 1) (omega arith)) (omega arith)
            (omega arith)))

pub step_behind : (n i a : ℕ) → ((i + a) % n + 1) % n ≡ (i + (a + 1)) % n
step_behind n i a = rw mod-add-mod (ap (λ k. k % n) (omega arith))

abbrev pub Fresh : ℕ → List ℕ → Type 0
Fresh i is = All (λ j. i ≢ j) is

pub ring-Fresh : (n i a d : ℕ) → i < n → 0 < a → a + d ≤ n → Fresh i (ring n ((i + a) % n) d)
ring-Fresh n i a zero hi ha h = tt
ring-Fresh n i a (suc d) hi ha h = (
  λ e. steps_away n i a hi ha (omega arith) (sym e),
  subst (λ j. Fresh i (ring n j d)) (sym (step_behind n i a))
      (ring-Fresh n i (a + 1) d hi (omega arith) (omega arith)),
)

pub ring-append : (n i a b : ℕ) → i < n → ring n i (a + b) ≡ ring n i a ++ ring n ((i + a) % n) b
ring-append n i zero b hi =
    let at_i : (i + 0) % n ≡ i = omega (arith, mod-eq_of_lt {n = i + 0} {m = n} (omega arith)) in
    let none_more : 0 + b ≡ b = omega arith in
    ap (ring n i) none_more ∙ ap (λ j. ring n j b) (sym at_i)
ring-append n i (suc a) b hi =
    let one_more : suc a + b ≡ suc (a + b) = omega arith in
    ap (ring n i) one_more
    ∙ ap (λ is. i ∷ is)
        (ring-append n ((i + 1) % n) a b (ring_lt n (i + 1) (omega arith))
          ∙ ap (λ j. ring n ((i + 1) % n) a ++ ring n j b) (step_more n i a))

-- Two lists without a common index.
abbrev pub Apart : List ℕ → List ℕ → Type 0
Apart is js = All (λ i. Fresh i js) is

-- Two stretches of the ring have no index in common, where the second begins behind the first and
-- ends before it.
pub ring-Apart :
    (n i k a d : ℕ) → i < n → k ≤ a → a + d ≤ n → Apart (ring n i k) (ring n ((i + a) % n) d)
ring-Apart n i zero a d hi ha hd = tt
ring-Apart n i (suc k) zero d hi ha hd = absurd (omega arith)
ring-Apart n i (suc k) (suc a) d hi ha hd = (
  ring-Fresh n i (suc a) d hi (omega arith) hd,
  subst (λ j. Apart (ring n ((i + 1) % n) k) (ring n j d)) (step_more n i a)
      (ring-Apart n ((i + 1) % n) k a d (ring_lt n (i + 1) (omega arith)) (omega arith)
        (omega arith)),
)
