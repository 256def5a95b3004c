-- ===== src/Buffer/Static/Separate.antt =====
-- The blocks of a static buffer do not overlap, and lie in its memory.
use libatbus.Base.{ℕ, ◌+◌, ◌^◌, ◌≤◌, ◌<◌, ◌≡◌, ◌≢◌, ◌⊎◌, inl, inr, List, [], ◌∷◌, All, arith}
use libatbus.Buffer.Block.Sizes.{full_size_bounds}
use libatbus.Buffer.Static.Layout.{
  Placed, behind, Chain, Around, Laid, Chain-le, Around-low, Around-high,
}

-- The header and the data of a block lie in its place.
abbrev pub Fine : Placed → Type 0
Fine (p, b) = (b.pointer ≡ p + 24) × (b.used ≤ b.size) × (b.size + 32 ≤ 2 ^ 64)

pub Inside : ℕ → ℕ → Placed → Type 0
Inside lo hi x = (lo ≤ x.0) × (behind x ≤ hi)

pub Apart : Placed → Placed → Type 0
Apart x y = (behind x ≤ y.0) ⊎ (behind y ≤ x.0)

abbrev pub Separate : List Placed → Type 0
Separate [] = Unit
Separate (x ∷ q) = All (Apart x) q × Separate q

-- What holds of each element holds of each that follows from it.
All-map {ℓ κ μ} :
    {A : Type ℓ} {P : A → Type κ} {Q : A → Type μ}
    → ((x : A) → P x → Q x)
    → (xs : List A) → All P xs
    → All Q xs
All-map f [] h = tt
All-map f (x ∷ xs) (h, hs) = (f x h, All-map f xs hs)

Chain-Inside : (a t : ℕ) (q : List Placed) → Chain a q t → All (Inside a t) q
unfolding Inside
Chain-Inside a t [] c = tt
Chain-Inside a t ((p, b) ∷ q) (l, c) = (
  (l, Chain-le (behind (p, b)) t q c),
  All-map (λ x i. (let low = i.0 in omega arith, i.1)) q (Chain-Inside (behind (p, b)) t q c),
)

-- What an upper block may meet: the upper ones behind it, and the lower ones.
Met : ℕ → ℕ → ℕ → ℕ → Placed → Type 0
Met lo hi t a x = ((a ≤ x.0) × (behind x ≤ hi)) ⊎ ((lo ≤ x.0) × (behind x ≤ t))

Around-Met : (lo hi t a : ℕ) (q : List Placed) → Around lo hi t a q → All (Met lo hi t a) q
unfolding Met Inside
Around-Met lo hi t a [] h = tt
Around-Met lo hi t a ((p, b) ∷ q) (inl (l, c)) =
    All-map (λ x i. inr i) ((p, b) ∷ q) (Chain-Inside lo t ((p, b) ∷ q) c)
Around-Met lo hi t a ((p, b) ∷ q) (inr (l, c)) = (
  inl (l, Around-high lo hi t (behind (p, b)) q c),
  All-map (λ x i. elim i [ inl (m, n) ↦ inl (omega arith, n) | inr m ↦ inr m ]) q
      (Around-Met lo hi t (behind (p, b)) q c),
)

Chain-Separate : (a t : ℕ) (q : List Placed) → Chain a q t → Separate q
unfolding Inside Apart
Chain-Separate a t [] c = tt
Chain-Separate a t ((p, b) ∷ q) (l, c) = (
  All-map (λ x i. inl i.0) q (Chain-Inside (behind (p, b)) t q c),
  Chain-Separate (behind (p, b)) t q c,
)

Around-Separate : (lo hi t a : ℕ) (q : List Placed) → Around lo hi t a q → t < a → Separate q
unfolding Met Apart
Around-Separate lo hi t a [] h l = tt
Around-Separate lo hi t a ((p, b) ∷ q) (inl (k, c)) l = Chain-Separate lo t ((p, b) ∷ q) c
Around-Separate lo hi t a ((p, b) ∷ q) (inr (k, c)) l = (
  All-map (λ x i. elim i [ inl (m, n) ↦ inl m | inr (m, n) ↦ inr (omega arith) ]) q
      (Around-Met lo hi t (behind (p, b)) q c),
  Around-Separate lo hi t (behind (p, b)) q c (omega arith),
)

pub Laid-Separate : (lo hi t : ℕ) (q : List Placed) → Laid lo hi q t → Separate q
unfolding Met Apart
Laid-Separate lo hi t q (inl (c, h)) = Chain-Separate lo t q c
Laid-Separate lo hi t [] (inr w) = absurd w
Laid-Separate lo hi t ((p, b) ∷ q) (inr (w, a)) = (
  All-map (λ x i. elim i [ inl (m, n) ↦ inl m | inr (m, n) ↦ inr (omega arith) ]) q
      (Around-Met lo hi t (behind (p, b)) q a),
  Around-Separate lo hi t (behind (p, b)) q a (omega arith),
)

pub Laid-Inside : (lo hi t : ℕ) (q : List Placed) → Laid lo hi q t → All (Inside lo hi) q
unfolding Met Inside
Laid-Inside lo hi t q (inl (c, h)) =
    All-map (λ x i. (i.0, let high = i.1 in omega arith)) q (Chain-Inside lo t q c)
Laid-Inside lo hi t [] (inr w) = absurd w
Laid-Inside lo hi t ((p, b) ∷ q) (inr (w, a)) =
    let low = Around-low lo hi t (behind (p, b)) q a in
    let high = Around-high lo hi t (behind (p, b)) q a in
    (
      (omega arith, high),
      All-map (λ x i. elim i [ inl (m, n) ↦ (omega arith, n) | inr (m, n) ↦ (m, omega arith) ]) q
          (Around-Met lo hi t (behind (p, b)) q a),
    )

-- No other block begins where one begins.
pub Apart-address : (x y : Placed) → Fine x → Fine y → Apart x y → x.0 ≢ y.0
unfolding Apart
Apart-address (p, b) (r, d) (e, u, k) (e', u', k') h =
    let x = full_size_bounds b.size k in
    let y = full_size_bounds d.size k' in
    λ same. elim h [ inl l ↦ omega arith | inr l ↦ omega arith ]
