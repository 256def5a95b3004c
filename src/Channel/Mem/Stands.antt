-- ===== src/Channel/Mem/Stands.antt =====
-- What it means that a memory channel holds a queue of messages.
use libatbus.Base.{
  ℕ, suc, ◌+◌, ◌-◌, ◌<◌, ◌≡◌, ◌≢◌, refl, ap, Option, some, List, [], ◌∷◌, ◌++◌, arith,
}
use libatbus.Channel.Mem.{MemChannel, mem_fetch_operation_seq}
use libatbus.Channel.Mem.Blocks.{nodes, Stored, total, LastDiffers}
use libatbus.Channel.Mem.Queue.{Queued}
use libatbus.Channel.Mem.Room.{next_seq}
use libatbus.Channel.Mem.Fifo.{Reply, Fifo, used}
use libatbus.Channel.Mem.Calls.{later}

abbrev pub contents : Stored → Fifo
contents [] = []
contents ((s, buf) ∷ q) = buf ∷ contents q

-- The nodes that messages may take.
abbrev pub room : MemChannel → ℕ
room c = c.node_count - c.conf.protect_node_count - 1

-- The next `k` sequences differ from that of the last block.
abbrev pub Spare : ℕ → ℕ → Stored → Type 0
Spare k s q = (i : ℕ) → i < k → LastDiffers (later i s) q

pub used-contents : (q : Stored) → used (contents q) ≡ total q
used-contents [] = refl
used-contents ((s, buf) ∷ q) = ap (λ k. nodes buf + k) (used-contents q)

pub contents-append :
    (q : Stored) (s : ℕ) (buf : List ℕ) → contents (q ++ (s, buf) ∷ []) ≡ contents q ++ buf ∷ []
contents-append [] s buf = refl
contents-append ((t, b) ∷ q) s buf = ap (λ q. b ∷ q) (contents-append q s buf)

pub last-append :
    (t : ℕ) (q : Stored) (s : ℕ) (buf : List ℕ) → t ≢ s → LastDiffers t (q ++ (s, buf) ∷ [])
last-append t [] s buf h = h
last-append t ((u, b) ∷ []) s buf h = h
last-append t ((u, b) ∷ (v, b') ∷ q) s buf h = last-append t ((v, b') ∷ q) s buf h

pub last_rest :
    (t s : ℕ) (buf : List ℕ) (q : Stored) → LastDiffers t ((s, buf) ∷ q) → LastDiffers t q
last_rest t s buf [] h = tt
last_rest t s buf ((u, b) ∷ q) h = h

-- The channel `c` holds the queue of `q`, and `k` operations more get new sequences.
pub record Stands (k : ℕ) (c : MemChannel) (q : Fifo) : Type 0 where
  pub stored : Stored
  pub queued : Queued c stored
  pub holds : contents stored ≡ q
  pub spare : Spare k c.operation_seq stored

-- After a call: the reply and the queue of the specification, and what may follow.
unfoldable pub Follows : ℕ → ℕ → Option (MemChannel × Reply) → Fifo × Reply → Type 0
Follows k size o s = (c : MemChannel) × (o ≡ some (c, s.1)) × (room c ≡ size) × Stands k c s.0

Queued-seq :
    (c : MemChannel) (q : Stored) (s : ℕ) → Queued c q → Queued (record c { operation_seq = s }) q
Queued-seq c q s h = record {
  sized = record {
    node_size = h.sized.node_size;
    bin_power = h.sized.bin_power;
    area_end = h.sized.area_end;
    protected = h.sized.protected;
    count = h.sized.count;
    protects = h.sized.protects;
    reads = h.sized.reads;
    writes = h.sized.writes;
  };
  tries = h.tries;
  within = h.within;
  blocks = h.blocks;
  free = h.free;
}

pub fewer_Stands : (k : ℕ) (c : MemChannel) (q : Fifo) → Stands (suc k) c q → Stands k c q
fewer_Stands k c q h = record {
  stored = h.stored;
  queued = h.queued;
  holds = h.holds;
  spare = λ i l. h.spare i (omega arith);
}

-- An operation that only takes a sequence.
pub next_Stands :
    (k : ℕ) (c : MemChannel) (q : Fifo)
    → Stands (suc k) c q
    → Stands k (record c { operation_seq = next_seq c }) q
unfolding mem_fetch_operation_seq later
next_Stands k c q h = record {
  stored = h.stored;
  queued = Queued-seq c h.stored (next_seq c) h.queued;
  holds = h.holds;
  spare = λ i l. h.spare (suc i) (omega arith);
}
