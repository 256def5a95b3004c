-- ===== src/Buffer/Static/Layout.antt =====
-- Where the blocks of a static buffer lie: one behind the other, going round at most once.
use libatbus.Base.{ℕ, ◌+◌, ◌≤◌, ◌<◌, ◌≡◌, ◌⊎◌, inl, inr, List, [], ◌∷◌, ◌++◌, arith, length}
use libatbus.Buffer.Block.{Block, full_size}

-- The address of a block, and its header.
abbrev pub Placed : Type 0
Placed = ℕ × Block

abbrev pub behind : Placed → ℕ
behind (p, b) = p + full_size b.size

-- From `a` to `t`, without overlap.
abbrev pub Chain : ℕ → List Placed → ℕ → Type 0
Chain a [] t = a ≤ t
Chain a ((p, b) ∷ q) t = (a ≤ p) × Chain (behind (p, b)) q t

-- From `a` up to `hi`, and from there on between `lo` and `t`.
abbrev pub Around : ℕ → ℕ → ℕ → ℕ → List Placed → Type 0
Around lo hi t a [] = (a ≤ hi) × (lo ≤ t)
Around lo hi t a ((p, b) ∷ q) =
    ((a ≤ hi) × Chain lo ((p, b) ∷ q) t) ⊎ ((a ≤ p) × Around lo hi t (behind (p, b)) q)

-- Behind the tail, and round.
abbrev pub Wrapped : ℕ → ℕ → List Placed → ℕ → Type 0
Wrapped lo hi [] t = ⊥
Wrapped lo hi ((p, b) ∷ q) t = (t < p) × Around lo hi t (behind (p, b)) q

-- The blocks `q` in the memory from `lo` to `hi`, where the next one would begin at `t`.
abbrev pub Laid : ℕ → ℕ → List Placed → ℕ → Type 0
Laid lo hi q t = (Chain lo q t × t ≤ hi) ⊎ Wrapped lo hi q t

-- Where the first block begins.
abbrev pub first : List Placed → ℕ → ℕ
first [] t = t
first ((p, b) ∷ q) t = p

pub Chain-le : (a t : ℕ) (q : List Placed) → Chain a q t → a ≤ t
Chain-le a t [] c = c
Chain-le a t ((p, b) ∷ q) (l, c) = let rest = Chain-le (behind (p, b)) t q c in omega arith

pub Chain-first : (a t : ℕ) (q : List Placed) → Chain a q t → (a ≤ first q t) × (first q t ≤ t)
Chain-first a t [] c = (c, omega arith)
Chain-first a t ((p, b) ∷ q) (l, c) = let rest = Chain-le (behind (p, b)) t q c in (l, omega arith)

pub Around-low : (lo hi t a : ℕ) (q : List Placed) → Around lo hi t a q → lo ≤ t
Around-low lo hi t a [] (l, h) = h
Around-low lo hi t a ((p, b) ∷ q) (inl (l, c)) = Chain-le lo t ((p, b) ∷ q) c
Around-low lo hi t a ((p, b) ∷ q) (inr (l, c)) = Around-low lo hi t (behind (p, b)) q c

pub Around-high : (lo hi t a : ℕ) (q : List Placed) → Around lo hi t a q → a ≤ hi
Around-high lo hi t a [] (l, h) = l
Around-high lo hi t a ((p, b) ∷ q) (inl (l, c)) = l
Around-high lo hi t a ((p, b) ∷ q) (inr (l, c)) =
    let rest = Around-high lo hi t (behind (p, b)) q c in omega arith

Around-Chain : (lo hi t a : ℕ) (q : List Placed) → a ≤ hi → Chain lo q t → Around lo hi t a q
Around-Chain lo hi t a [] l c = (l, c)
Around-Chain lo hi t a ((p, b) ∷ q) l c = inl (l, c)

pub Chain-append :
    (a t : ℕ) (q : List Placed) (b : Block)
    → Chain a q t
    → Chain a (q ++ (t, b) ∷ []) (behind (t, b))
Chain-append a t [] b c = (c, omega arith)
Chain-append a t ((p, d) ∷ q) b (l, c) = (l, Chain-append (behind (p, d)) t q b c)

Around-append :
    (lo hi t a : ℕ) (q : List Placed) (b : Block)
    → Around lo hi t a q
    → Around lo hi (behind (t, b)) a (q ++ (t, b) ∷ [])
Around-append lo hi t a [] b (l, h) = inl (l, (h, omega arith))
Around-append lo hi t a ((p, d) ∷ q) b (inl (l, c)) = inl (l, Chain-append lo t ((p, d) ∷ q) b c)
Around-append lo hi t a ((p, d) ∷ q) b (inr (l, c)) =
    inr (l, Around-append lo hi t (behind (p, d)) q b c)

turn :
    (lo hi t a : ℕ) (q : List Placed) (b : Block)
    → Chain a q t
    → t ≤ hi
    → Around lo hi (behind (lo, b)) a (q ++ (lo, b) ∷ [])
turn lo hi t a [] b c h = inl (omega arith, (omega arith, omega arith))
turn lo hi t a ((p, d) ∷ q) b (l, c) h = inr (l, turn lo hi t (behind (p, d)) q b c h)

-- A block behind the others, before the end of the memory.
pub Laid-end :
    (lo hi t : ℕ) (q : List Placed) (b : Block)
    → Laid lo hi q t
    → first q t ≤ t
    → behind (t, b) ≤ hi
    → Laid lo hi (q ++ (t, b) ∷ []) (behind (t, b))
Laid-end lo hi t q b (inl (c, h)) l m = inl (Chain-append lo t q b c, m)
Laid-end lo hi t [] b (inr w) l m = absurd w
Laid-end lo hi t ((p, d) ∷ q) b (inr (w, a)) l m = absurd (omega arith)

-- A block at the start of the memory, before the first one.
pub Laid-turn :
    (lo hi t : ℕ) (q : List Placed) (b : Block)
    → Laid lo hi q t
    → first q t ≤ t
    → 0 < length q
    → behind (lo, b) < first q t
    → Laid lo hi (q ++ (lo, b) ∷ []) (behind (lo, b))
Laid-turn lo hi t [] b w l n m = absurd (omega arith)
Laid-turn lo hi t ((p, d) ∷ q) b (inl ((k, c), h)) l n m =
    inr (m, turn lo hi t (behind (p, d)) q b c h)
Laid-turn lo hi t ((p, d) ∷ q) b (inr (w, a)) l n m = absurd (omega arith)

-- A block behind the last one, before the first.
pub Laid-gap :
    (lo hi t : ℕ) (q : List Placed) (b : Block)
    → Laid lo hi q t
    → behind (t, b) < first q t
    → Laid lo hi (q ++ (t, b) ∷ []) (behind (t, b))
Laid-gap lo hi t q b (inl (c, h)) m = let (k, l) = Chain-first lo t q c in absurd (omega arith)
Laid-gap lo hi t [] b (inr w) m = absurd w
Laid-gap lo hi t ((p, d) ∷ q) b (inr (w, a)) m =
    inr (m, Around-append lo hi t (behind (p, d)) q b a)

-- A block before the first one.
pub Laid-start :
    (lo hi t x : ℕ) (q : List Placed) (b : Block)
    → Laid lo hi q t
    → first q t ≤ t
    → lo ≤ x
    → behind (x, b) ≡ first q t
    → Laid lo hi ((x, b) ∷ q) t
Laid-start lo hi t x [] b (inl (c, h)) l m e = inl ((m, omega arith), h)
Laid-start lo hi t x ((p, d) ∷ q) b (inl ((k, c), h)) l m e = inl ((m, (omega arith, c)), h)
Laid-start lo hi t x [] b (inr w) l m e = absurd w
Laid-start lo hi t x ((p, d) ∷ q) b (inr (w, a)) l m e = absurd (omega arith)

-- A first block at the end of the memory.
pub Laid-back :
    (lo hi t x : ℕ) (q : List Placed) (b : Block)
    → Laid lo hi q t
    → first q t ≤ t
    → t < x
    → behind (x, b) ≤ hi
    → Laid lo hi ((x, b) ∷ q) t
Laid-back lo hi t x q b (inl (c, h)) l m e = inr (m, Around-Chain lo hi t (behind (x, b)) q e c)
Laid-back lo hi t x [] b (inr w) l m e = absurd w
Laid-back lo hi t x ((p, d) ∷ q) b (inr (w, a)) l m e = absurd (omega arith)

-- A block before the first one, behind the last.
pub Laid-between :
    (lo hi t x : ℕ) (q : List Placed) (b : Block)
    → Laid lo hi q t
    → t < x
    → behind (x, b) ≡ first q t
    → Laid lo hi ((x, b) ∷ q) t
Laid-between lo hi t x q b (inl (c, h)) m e =
    let (k, l) = Chain-first lo t q c in absurd (omega arith)
Laid-between lo hi t x [] b (inr w) m e = absurd w
Laid-between lo hi t x ((p, d) ∷ q) b (inr (w, a)) m e = inr (m, inr (omega arith, a))

-- Everything lies in the memory.
pub Laid-bounds :
    (lo hi t : ℕ) (q : List Placed)
    → Laid lo hi q t
    → (lo ≤ t) × (t ≤ hi) × (lo ≤ first q t) × (first q t ≤ hi)
Laid-bounds lo hi t q (inl (c, h)) =
    let (l, m) = Chain-first lo t q c in (omega arith, h, l, omega arith)
Laid-bounds lo hi t [] (inr w) = absurd w
Laid-bounds lo hi t ((p, b) ∷ q) (inr (w, a)) =
    let low = Around-low lo hi t (behind (p, b)) q a in
    let high = Around-high lo hi t (behind (p, b)) q a in
    (low, omega arith, omega arith, omega arith)
