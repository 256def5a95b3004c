-- ===== src/Channel/Mem/Blocks.antt =====
-- The blocks in the ring of a memory channel, and what leaves them as they are.
use libatbus.Base.{
  ℕ, ◌+◌, ◌-◌, ◌*◌, ◌/◌, ◌%◌, ◌≤◌, ◌<◌, ◌≡◌, ◌≢◌, ◌⊎◌, true, List, [], ◌∷◌, ◌++◌, length, arith,
  if◌then◌else◌, leb,
}
use libatbus.Channel.Bytes.{Memory, read, load64}
use libatbus.Channel.Mem.{MemChannel, mem_fast_check}
use libatbus.Channel.Mem.Ring.{ring}
use libatbus.Channel.Mem.Heads.{Heads, AllSeq}

-- Where the nodes of a channel lie: its data, the number of nodes and that of the protected ones.
pub record Area : Type 0 where
  pub start : ℕ
  pub count : ℕ
  pub kept : ℕ

abbrev pub area_of : MemChannel → Area
area_of c = record {
  start = c.area_data_offset;
  count = c.node_count;
  kept = c.conf.protect_node_count;
}

-- The nodes that a block with these bytes takes.
unfoldable pub nodes : List ℕ → ℕ
nodes buf = (length buf + 143) / 128

-- The bytes of a block, behind the end of the area from the first node on.
unfoldable pub data_at : Area → Memory → ℕ → ℕ → List ℕ
data_at a m r size =
    let room = a.start + a.count * 128 - (a.start + r * 128 + 16) in
    if leb size room
    then read (a.start + r * 128 + 16) size m
    else read (a.start + r * 128 + 16) room m ++ read (a.start + 0 * 128) (size - room) m

-- A whole block at the node `r`.
pub record Block (a : Area) (hs : Heads) (m : Memory) (r seq : ℕ) (buf : List ℕ) : Type 0 where
  pub begins : (hs r).start ≡ true
  pub whole : (hs r).writen ≡ true
  pub seqs : AllSeq seq (ring a.count r (nodes buf)) hs
  pub size : load64 (a.start + r * 128) m ≡ length buf
  pub bytes : data_at a m r (length buf) ≡ buf
  pub check : load64 (a.start + r * 128 + 8) m ≡ mem_fast_check buf
  pub some_bytes : 0 < length buf
  pub few : nodes buf < a.count - a.kept

-- The blocks that are stored, each with its sequence.
abbrev pub Stored : Type 0
Stored = List (ℕ × List ℕ)

abbrev pub total : Stored → ℕ
total [] = 0
total ((s, buf) ∷ q) = nodes buf + total q

-- The block behind has another sequence.
abbrev pub NextDiffers : ℕ → Stored → Type 0
NextDiffers s [] = Unit
NextDiffers s ((t, buf) ∷ q) = t ≢ s

abbrev pub LastDiffers : ℕ → Stored → Type 0
LastDiffers s [] = Unit
LastDiffers s ((t, buf) ∷ []) = s ≢ t
LastDiffers s ((t, buf) ∷ (u, buf') ∷ q) = LastDiffers s ((u, buf') ∷ q)

-- The blocks from the node `r` on, up to the node `w`.
abbrev pub Blocks : Area → Heads → Memory → ℕ → ℕ → Stored → Type 0
Blocks a hs m r w [] = r ≡ w
Blocks a hs m r w ((s, buf) ∷ q) =
    Block a hs m r s buf × NextDiffers s q × Blocks a hs m ((r + nodes buf) % a.count) w q

-- The cells of `k` nodes from `r` on.
abbrev pub InNodes : Area → ℕ → ℕ → ℕ → Type 0
InNodes a r k x =
    ((a.start + r * 128 ≤ x) × (x < a.start + (r + k) * 128) × (x < a.start + a.count * 128))
    ⊎ ((a.start ≤ x) × (x + a.count * 128 < a.start + (r + k) * 128))

pub nodes_bounds :
    (buf : List ℕ) → (length buf + 16 ≤ 128 * nodes buf) × (128 * nodes buf < length buf + 144)
unfolding nodes
nodes_bounds buf = (omega arith, omega arith)
