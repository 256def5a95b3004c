-- ===== src/Channel/Bytes/Laws.antt =====
-- What is read after a memcpy.
use libatbus.Base.{
  ℕ, zero, suc, ◌+◌, ◌/◌, ◌^◌, ◌≤◌, ◌<◌, ◌≡◌, refl, ap, ap₂, ◌∙◌, ◌⊎◌, inl, inr, List, [], ◌∷◌,
  arith, length,
}
use libatbus.Channel.Bytes.{Memory, memcpy, read, bytes, value, store64, load64}

-- `x` lies apart from the `n` cells at `dst`.
abbrev pub Outside : ℕ → ℕ → ℕ → Type 0
Outside x dst n = (x < dst) ⊎ (dst + n ≤ x)

pub memcpy-Outside :
    (dst : ℕ) (bs : List ℕ) (m : Memory) (x : ℕ)
    → Outside x dst (length bs)
    → memcpy dst bs m x ≡ m x
unfolding memcpy
memcpy-Outside dst [] m x h = refl
memcpy-Outside dst (b ∷ bs) m x h =
    memcpy-Outside (dst + 1) bs _ x
      (elim h [ inl p ↦ inl (omega arith) | inr q ↦ inr (omega arith) ])
    ∙ elim h [ inl p ↦ ground arith | inr q ↦ ground arith ]

-- The `k` cells at `src` and the `n` at `dst` have none in common.
abbrev pub Disjoint : ℕ → ℕ → ℕ → ℕ → Type 0
Disjoint src k dst n = (src + k ≤ dst) ⊎ (dst + n ≤ src)

pub read-Disjoint :
    (src k dst : ℕ) (bs : List ℕ) (m : Memory)
    → Disjoint src k dst (length bs)
    → read src k (memcpy dst bs m) ≡ read src k m
unfolding read
read-Disjoint src zero dst bs m h = refl
read-Disjoint src (suc k) dst bs m h =
    ap₂ ◌∷◌
      (memcpy-Outside dst bs m src
        (elim h [ inl p ↦ inl (omega arith) | inr q ↦ inr (omega arith) ]))
      (read-Disjoint (src + 1) k dst bs m
        (elim h [ inl p ↦ inl (omega arith) | inr q ↦ inr (omega arith) ]))

pub read-memcpy : (dst : ℕ) (bs : List ℕ) (m : Memory) → read dst (length bs) (memcpy dst bs m) ≡ bs
unfolding read memcpy
read-memcpy dst [] m = refl
read-memcpy dst (b ∷ bs) m =
    ap₂ ◌∷◌ (memcpy-Outside (dst + 1) bs _ dst (inl (omega arith)) ∙ ground arith)
      (read-memcpy (dst + 1) bs _)

pub length-bytes : (n v : ℕ) → length (bytes n v) ≡ n
unfolding bytes
length-bytes zero v = refl
length-bytes (suc n) v = ap suc (length-bytes n (v / 256))

pub load-store : (dst v : ℕ) (m : Memory) → v < 2 ^ 64 → load64 dst (store64 dst v m) ≡ v
unfolding value bytes
load-store dst v m h = ap value (read-memcpy dst (bytes 8 v) m) ∙ omega arith

pub load-Disjoint :
    (src dst : ℕ) (bs : List ℕ) (m : Memory)
    → Disjoint src 8 dst (length bs)
    → load64 src (memcpy dst bs m) ≡ load64 src m
load-Disjoint src dst bs m h = ap value (read-Disjoint src 8 dst bs m h)

-- What is read depends on the cells that are read.
pub read_same :
    (src n : ℕ) (m m' : Memory)
    → ((x : ℕ) → src ≤ x → x < src + n → m' x ≡ m x)
    → read src n m' ≡ read src n m
unfolding read
read_same src zero m m' h = refl
read_same src (suc n) m m' h =
    ap₂ ◌∷◌ (h src (omega arith) (omega arith))
      (read_same (src + 1) n m m' (λ x l u. h x (omega arith) (omega arith)))
