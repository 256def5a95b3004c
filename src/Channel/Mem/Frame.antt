-- ===== src/Channel/Mem/Frame.antt =====
-- A change of some nodes leaves the blocks in the others as they are.
use libatbus.Base.{
  ℕ, ◌+◌, ◌-◌, ◌*◌, ◌%◌, ◌≤◌, ◌<◌, ◌≡◌, sym, ap, ap₂, subst, ◌∙◌, inl, inr, List, [], ◌∷◌, ◌++◌,
  length, arith, leb, Bool-cases, if_true, if_false,
}
use native.Mathlib.Nat.{mod-add-mod, mod-eq_of_lt}
use libatbus.Channel.Bytes.{Memory, read, load64, value}
use libatbus.Channel.Bytes.Laws.{read_same}
use libatbus.Channel.Mem.{NodeHead}
use libatbus.Channel.Mem.Ring.{ring, ring_lt, wrap, Fresh, Apart, ring-Fresh, ring-Apart}
use libatbus.Channel.Mem.Heads.{Heads, AllSeq}
use libatbus.Channel.Mem.Blocks.{
  Area, nodes, nodes_bounds, data_at, Block, Blocks, Stored, total, LastDiffers, InNodes,
}

AllSeq-same :
    (seq : ℕ) (is js : List ℕ) (hs hs' : Heads)
    → ((j : ℕ) → Fresh j js → hs' j ≡ hs j)
    → Apart is js
    → AllSeq seq is hs
    → AllSeq seq is hs'
AllSeq-same seq [] js hs hs' same ap' h = tt
AllSeq-same seq (i ∷ is) js hs hs' same (f, ap') (e, h) =
    (ap (λ (h : NodeHead). h.operation_seq) (same i f) ∙ e, AllSeq-same seq is js hs hs' same ap' h)

step_on : (n r k g : ℕ) → k ≤ g → ((r + k) % n + (g - k)) % n ≡ (r + g) % n
step_on n r k g h = rw mod-add-mod (ap (λ x. x % n) (omega arith))

-- The heads and the cells change only in the `d` nodes from `z` on.
module _ (a : Area) (hs hs' : Heads) (m m' : Memory) (z d : ℕ)
    (heads_same : (j : ℕ) → Fresh j (ring a.count z d) → hs' j ≡ hs j)
    (cells_same : (x : ℕ) → ¬ (InNodes a z d x) → m' x ≡ m x) where
  -- The block of `k` nodes at `r` ends before them, and they end before it.
  module _ (r k g : ℕ) (hr : r < a.count) (hk : k ≤ g) (hg : g + d ≤ a.count)
      (hz : z ≡ (r + g) % a.count) where
    outside : (x : ℕ) → InNodes a r k x → ¬ (InNodes a z d x)
    outside x i o = elim (wrap a.count r g hr (omega arith)) [
      | inl (e, l) ↦ elim i [
        | inl p ↦ elim o [ inl q ↦ omega (arith, e) | inr q ↦ omega (arith, e) ]
        | inr p ↦ omega (arith, e)
      ]
      | inr (e, l) ↦ elim i [
        | inl p ↦ elim o [ inl q ↦ omega (arith, e) | inr q ↦ omega (arith, e) ]
        | inr p ↦ elim o [ inl q ↦ omega (arith, e) | inr q ↦ omega (arith, e) ]
      ]
    ]

    cell : (x : ℕ) → InNodes a r k x → m' x ≡ m x
    cell x i = cells_same x (outside x i)

    load_same :
        (src : ℕ)
        → a.start + r * 128 ≤ src
        → src + 8 ≤ a.start + r * 128 + 16
        → 0 < k
        → load64 src m' ≡ load64 src m
    load_same src hl hu h0 =
        ap value
          (read_same src 8 m m' (λ x l u. cell x (inl (omega arith, omega arith, omega arith))))

    data_same : (size : ℕ) → size + 16 ≤ 128 * k → data_at a m' r size ≡ data_at a m r size
    unfolding data_at
    data_same size fits = elim (Bool-cases (leb size room)) [
      | inl e ↦
          let flat : read (base + 16) size m' ≡ read (base + 16) size m =
            read_same (base + 16) size m m'
              (λ x l u. cell x (inl (omega arith, omega arith, ground arith))) in
          if_true (leb size room) _ _ e ∙ flat ∙ sym (if_true (leb size room) _ _ e)
      | inr e ↦
          let over : room < size = ground arith in
          let high : read (base + 16) room m' ≡ read (base + 16) room m =
            read_same (base + 16) room m m'
              (λ x l u. cell x (inl (omega arith, omega arith, omega arith))) in
          let low : read (a.start + 0 * 128) (size - room) m'
              ≡ read (a.start + 0 * 128) (size - room) m =
            read_same (a.start + 0 * 128) (size - room) m m'
              (λ x l u. cell x (inr (omega arith, omega arith))) in
          if_false (leb size room) _ _ e ∙ ap₂ ◌++◌ high low ∙ sym (if_false (leb size room) _ _ e)
    ]
      where
        base : ℕ
        base = a.start + r * 128

        room : ℕ
        room = a.start + a.count * 128 - (a.start + r * 128 + 16)

  pub Block-same :
      (r seq g : ℕ) (buf : List ℕ)
      → r < a.count
      → nodes buf ≤ g
      → g + d ≤ a.count
      → z ≡ (r + g) % a.count
      → Block a hs m r seq buf
      → Block a hs' m' r seq buf
  Block-same r seq g buf hr hk hg hz b =
      let (lo, hi) = nodes_bounds buf in
      let least : 0 < nodes buf = omega arith in
      let head : hs' r ≡ hs r = heads_same r (
        subst (λ z. Fresh r (ring a.count z d)) (sym hz)
          (ring-Fresh a.count r g d hr (omega arith) hg)) in
      let load = load_same r (nodes buf) g hr hk hg hz in
      record {
        begins = ap (λ (h : NodeHead). h.start) head ∙ b.begins;
        whole = ap (λ (h : NodeHead). h.writen) head ∙ b.whole;
        seqs =
            AllSeq-same seq (ring a.count r (nodes buf)) (ring a.count z d) hs hs' heads_same
              (subst (λ z. Apart (ring a.count r (nodes buf)) (ring a.count z d)) (sym hz)
                (ring-Apart a.count r (nodes buf) g d hr hk hg))
              b.seqs;
        size = load (a.start + r * 128) (omega arith) (omega arith) least ∙ b.size;
        bytes = data_same r (nodes buf) g hr hk hg hz (length buf) lo ∙ b.bytes;
        check = load (a.start + r * 128 + 8) (omega arith) (omega arith) least ∙ b.check;
        some_bytes = b.some_bytes;
        few = b.few;
      }

  pub Blocks-same :
      (r w g : ℕ) (q : Stored)
      → r < a.count
      → total q ≤ g
      → g + d ≤ a.count
      → z ≡ (r + g) % a.count
      → Blocks a hs m r w q
      → Blocks a hs' m' r w q
  Blocks-same r w g [] hr ht hg hz b = b
  Blocks-same r w g ((s, buf) ∷ q) hr ht hg hz (b, n, bs) = (
    Block-same r s g buf hr (omega arith) hg hz b,
    n,
    Blocks-same ((r + nodes buf) % a.count) w (g - nodes buf) q
        (ring_lt a.count (r + nodes buf) (omega arith)) (omega arith) (omega arith)
        (hz ∙ sym (step_on a.count r (nodes buf) g (omega arith))) bs,
  )

-- A block behind the last one.
pub Blocks-append :
    (a : Area) (hs : Heads) (m : Memory) (r w s : ℕ) (q : Stored) (buf : List ℕ)
    → Blocks a hs m r w q
    → LastDiffers s q
    → Block a hs m w s buf
    → Blocks a hs m r ((w + nodes buf) % a.count) (q ++ (s, buf) ∷ [])
Blocks-append a hs m r w s [] buf e d b =
    (subst (λ r. Block a hs m r s buf) (sym e) b, tt, ap (λ r. (r + nodes buf) % a.count) e)
Blocks-append a hs m r w s ((t, buf') ∷ []) buf (b', n, bs) d b =
    (b', d, Blocks-append a hs m ((r + nodes buf') % a.count) w s [] buf bs tt b)
Blocks-append a hs m r w s ((t, buf') ∷ (u, x) ∷ q) buf (b', n, bs) d b =
    (b', n, Blocks-append a hs m ((r + nodes buf') % a.count) w s ((u, x) ∷ q) buf bs d b)

-- The write cursor stands behind the blocks.
pub Blocks-end :
    (a : Area) (hs : Heads) (m : Memory) (r w : ℕ) (q : Stored)
    → r < a.count
    → Blocks a hs m r w q
    → w ≡ (r + total q) % a.count
Blocks-end a hs m r w [] hr e =
    sym e ∙ omega (arith, mod-eq_of_lt {n = r + 0} {m = a.count} (omega arith))
Blocks-end a hs m r w ((s, buf) ∷ q) hr (b, n, bs) =
    Blocks-end a hs m ((r + nodes buf) % a.count) w q
      (ring_lt a.count (r + nodes buf) (omega arith)) bs
    ∙ rw mod-add-mod (ap (λ x. x % a.count) (omega arith))
