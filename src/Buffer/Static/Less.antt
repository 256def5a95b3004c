-- ===== src/Buffer/Static/Less.antt =====
-- What stays in its place when the blocks of a static buffer become fewer, or one changes.
use libatbus.Base.{ℕ, ◌+◌, ◌≤◌, ◌≡◌, sym, subst, ◌⊎◌, inl, inr, List, [], ◌∷◌, ◌++◌, arith}
use libatbus.Buffer.Block.{Block, full_size}
use libatbus.Buffer.Static.Layout.{Placed, behind, Chain, Around, Laid, Around-low}

-- Without the first block.
pub Laid-tail :
    (lo hi t : ℕ) (x y : Placed) (q : List Placed) → Laid lo hi (x ∷ y ∷ q) t → Laid lo hi (y ∷ q) t
Laid-tail lo hi t (p, b) (p', b') q (inl ((k, (l, c)), h)) = inl ((omega arith, c), h)
Laid-tail lo hi t (p, b) (p', b') q (inr (w, inl (l, c))) = inl (c, omega arith)
Laid-tail lo hi t (p, b) (p', b') q (inr (w, inr (l, c))) = inr (omega arith, c)

Chain-init :
    (a t : ℕ) (q : List Placed) (p : ℕ) (b : Block)
    → Chain a (q ++ (p, b) ∷ []) t
    → Chain a q p × behind (p, b) ≤ t
Chain-init a t [] p b (l, c) = (l, c)
Chain-init a t ((r, d) ∷ q) p b (l, c) =
    let (e, m) = Chain-init (behind (r, d)) t q p b c in ((l, e), m)

Around-init :
    (lo hi t a : ℕ) (q : List Placed) (p : ℕ) (b : Block)
    → Around lo hi t a (q ++ (p, b) ∷ [])
    → (Around lo hi p a q × p ≤ t) ⊎ (Chain a q p × p ≤ hi)
Around-init lo hi t a [] p b (inl (l, (m, c))) = inl ((l, m), omega arith)
Around-init lo hi t a [] p b (inr (l, (m, c))) = inr (l, omega arith)
Around-init lo hi t a ((r, d) ∷ q) p b (inl (l, c)) =
    let (e, m) = Chain-init lo t ((r, d) ∷ q) p b c in inl (inl (l, e), omega arith)
Around-init lo hi t a ((r, d) ∷ q) p b (inr (l, c)) =
    elim (Around-init lo hi t (behind (r, d)) q p b c) [
      | inl (e, m) ↦ inl (inr (l, e), m)
      | inr (e, m) ↦ inr ((l, e), m)
    ]

-- Without the last block.
pub Laid-init :
    (lo hi t : ℕ) (x : Placed) (q : List Placed) (p : ℕ) (b : Block)
    → Laid lo hi (x ∷ q ++ (p, b) ∷ []) t
    → Laid lo hi (x ∷ q) p
Laid-init lo hi t x q p b (inl (c, h)) =
    let (e, m) = Chain-init lo t (x ∷ q) p b c in inl (e, omega arith)
Laid-init lo hi t (r, d) q p b (inr (w, a)) = elim (Around-init lo hi t (behind (r, d)) q p b a) [
  | inl (e, m) ↦ inr (omega arith, e)
  | inr (e, m) ↦
      inl ((let low = Around-low lo hi t (behind (r, d)) (q ++ (p, b) ∷ []) a in omega arith, e), m)
]

-- A block can change within its size.
Chain-change :
    (a t : ℕ) (q r : List Placed) (p : ℕ) (b b' : Block)
    → b'.size ≡ b.size
    → Chain a (q ++ (p, b) ∷ r) t
    → Chain a (q ++ (p, b') ∷ r) t
Chain-change a t [] r p b b' e (l, c) = (l, subst (λ n. Chain (p + full_size n) r t) (sym e) c)
Chain-change a t ((x, d) ∷ q) r p b b' e (l, c) = (l, Chain-change (behind (x, d)) t q r p b b' e c)

Around-change :
    (lo hi t a : ℕ) (q r : List Placed) (p : ℕ) (b b' : Block)
    → b'.size ≡ b.size
    → Around lo hi t a (q ++ (p, b) ∷ r)
    → Around lo hi t a (q ++ (p, b') ∷ r)
Around-change lo hi t a [] r p b b' e (inl (l, c)) = inl (l, Chain-change lo t [] r p b b' e c)
Around-change lo hi t a [] r p b b' e (inr (l, c)) =
    inr (l, subst (λ n. Around lo hi t (p + full_size n) r) (sym e) c)
Around-change lo hi t a ((x, d) ∷ q) r p b b' e (inl (l, c)) =
    inl (l, Chain-change lo t ((x, d) ∷ q) r p b b' e c)
Around-change lo hi t a ((x, d) ∷ q) r p b b' e (inr (l, c)) =
    inr (l, Around-change lo hi t (behind (x, d)) q r p b b' e c)

pub Laid-change :
    (lo hi t : ℕ) (q r : List Placed) (p : ℕ) (b b' : Block)
    → b'.size ≡ b.size
    → Laid lo hi (q ++ (p, b) ∷ r) t
    → Laid lo hi (q ++ (p, b') ∷ r) t
Laid-change lo hi t q r p b b' e (inl (c, h)) = inl (Chain-change lo t q r p b b' e c, h)
Laid-change lo hi t [] r p b b' e (inr (w, a)) =
    inr (w, subst (λ n. Around lo hi t (p + full_size n) r) (sym e) a)
Laid-change lo hi t ((x, d) ∷ q) r p b b' e (inr (w, a)) =
    inr (w, Around-change lo hi t (behind (x, d)) q r p b b' e a)
