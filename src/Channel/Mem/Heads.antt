-- ===== src/Channel/Mem/Heads.antt =====
-- The heads of the nodes of one block, as the writer marks and the reader clears them.
use libatbus.Base.{
  ℕ, ◌≡◌, ◌≢◌, refl, sym, ap, ◌∙◌, inl, inr, Bool, true, false, List, [], ◌∷◌, ◌++◌, All, arith,
  ◌==◌, subst, if◌then◌else◌, if_false, ==_iff, Bool-cases,
}
use libatbus.Channel.Mem.{NodeHead, clear, set_head}
use libatbus.Channel.Mem.Ring.{Fresh}
use libatbus.Channel.Mem.Send.{mark}
use libatbus.Channel.Mem.Recv.{take_nodes, clear_nodes}

abbrev pub Heads : Type 0
Heads = ℕ → NodeHead

pub set_self : (i : ℕ) (h : NodeHead) (hs : Heads) → set_head i h hs i ≡ h
unfolding set_head
set_self i h hs = ground arith

pub set_other : (i j : ℕ) (h : NodeHead) (hs : Heads) → j ≢ i → set_head i h hs j ≡ hs j
unfolding set_head
set_other i j h hs ne = ground arith

-- No index twice.
abbrev pub Distinct : List ℕ → Type 0
Distinct [] = Unit
Distinct (i ∷ is) = Fresh i is × Distinct is

abbrev pub AllSeq : ℕ → List ℕ → Heads → Type 0
AllSeq seq is hs = All (λ i. (hs i).operation_seq ≡ seq) is

pub set-AllSeq :
    (seq i : ℕ) (h : NodeHead) (is : List ℕ) (hs : Heads)
    → Fresh i is
    → AllSeq seq is hs
    → AllSeq seq is (set_head i h hs)
set-AllSeq seq i h [] hs f a = tt
set-AllSeq seq i h (j ∷ is) hs (ne, f) (e, a) = (
  ap (λ (h : NodeHead). h.operation_seq) (set_other i j h hs (λ e. ne (sym e))) ∙ e,
  set-AllSeq seq i h is hs f a,
)

abbrev marked_head : ℕ → NodeHead → NodeHead
marked_head seq h = record h { writen = true; operation_seq = seq }

marked : ℕ → ℕ → Heads → Heads
marked i seq hs = set_head i (marked_head seq (hs i)) hs

if_eq : (a b : ℕ) {A : Type 0} (x y : A) → a ≡ b → (if a == b then x else y) ≡ x
if_eq a b x y h = ground arith

mark_step :
    (i : ℕ) (is : List ℕ) (seq : ℕ) (hs : Heads)
    → (hs i).operation_seq ≡ 0
    → mark (i ∷ is) seq hs ≡ mark is seq (marked i seq hs)
unfolding mark marked
mark_step i is seq hs e =
    if_eq (hs i).operation_seq 0 (mark is seq (set_head i (marked_head seq (hs i)) hs)) (hs, false)
      e

-- What `mark` leaves alone.
pub mark_other :
    (is : List ℕ) (seq j : ℕ) (hs : Heads)
    → AllSeq 0 is hs
    → Distinct is
    → Fresh j is
    → (mark is seq hs).0 j ≡ hs j
unfolding mark marked
mark_other [] seq j hs a d f = refl
mark_other (i ∷ is) seq j hs (e, a) (fi, d) (ne, f) =
    ap (λ (r : Heads × Bool). r.0 j) (mark_step i is seq hs e)
    ∙ mark_other is seq j (marked i seq hs) (set-AllSeq 0 i _ is hs fi a) d f
    ∙ set_other i j _ hs ne

-- On free nodes `mark` succeeds, and every node has the sequence.
pub mark-AllSeq :
    (is : List ℕ) (seq : ℕ) (hs : Heads)
    → AllSeq 0 is hs
    → Distinct is
    → ((mark is seq hs).1 ≡ true) × AllSeq seq is (mark is seq hs).0
unfolding mark marked
mark-AllSeq [] seq hs a d = (refl, tt)
mark-AllSeq (i ∷ is) seq hs (e, a) (fi, d) =
    let a' : AllSeq 0 is (marked i seq hs) = set-AllSeq 0 i _ is hs fi a in
    let rest = mark-AllSeq is seq (marked i seq hs) a' d in
    subst (λ (r : Heads × Bool). (r.1 ≡ true) × AllSeq seq (i ∷ is) r.0)
      (sym (mark_step i is seq hs e))
      (
        rest.0,
        (
          ap (λ (h : NodeHead). h.operation_seq)
              (mark_other is seq i (marked i seq hs) a' d fi
                ∙ set_self i (marked_head seq (hs i)) hs),
          rest.1,
        ),
      )

-- The reader goes through all the nodes with the sequence.
pub take_nodes_through :
    (is js : List ℕ) (stop seq : ℕ) (hs : Heads)
    → AllSeq seq is hs
    → Distinct is
    → take_nodes (is ++ js) stop seq hs ≡ take_nodes js stop seq (clear_nodes is hs)
unfolding take_nodes clear_nodes
take_nodes_through [] js stop seq hs a d = refl
take_nodes_through (i ∷ is) js stop seq hs (e, a) (fi, d) =
    if_eq (hs i).operation_seq seq (take_nodes (is ++ js) stop seq (set_head i clear hs)) (hs, i) e
    ∙ take_nodes_through is js stop seq (set_head i clear hs) (set-AllSeq seq i clear is hs fi a) d

-- What `clear_nodes` leaves alone.
pub clear_nodes_other : (is : List ℕ) (hs : Heads) (j : ℕ) → Fresh j is → clear_nodes is hs j ≡ hs j
unfolding clear_nodes
clear_nodes_other [] hs j f = refl
clear_nodes_other (i ∷ is) hs j (ne, f) =
    clear_nodes_other is (set_head i clear hs) j f ∙ set_other i j clear hs ne

-- It stops at a node with another sequence.
pub take_nodes_stop :
    (i : ℕ) (is : List ℕ) (stop seq : ℕ) (hs : Heads)
    → (hs i).operation_seq ≢ seq
    → take_nodes (i ∷ is) stop seq hs ≡ (hs, i)
unfolding take_nodes
take_nodes_stop i is stop seq hs ne = if_false ((hs i).operation_seq == seq) _ _ (ground arith)

-- Heads that are not clear only at `is`.
abbrev pub ClearBut : List ℕ → Heads → Type 0
ClearBut is hs = (j : ℕ) → Fresh j is → hs j ≡ clear

-- `clear_nodes` clears what is not clear among its nodes.
pub clear_nodes-ClearBut :
    (is js : List ℕ) (hs : Heads) → ClearBut (is ++ js) hs → ClearBut js (clear_nodes is hs)
unfolding clear_nodes
clear_nodes-ClearBut [] js hs c = c
clear_nodes-ClearBut (i ∷ is) js hs c = clear_nodes-ClearBut is js (set_head i clear hs) but
  where
    cleared : (k : ℕ) → k ≡ i → set_head i clear hs k ≡ clear
    cleared k e = ap (set_head i clear hs) e ∙ set_self i clear hs

    but : ClearBut (is ++ js) (set_head i clear hs)
    but k f = elim (Bool-cases (k == i)) [
      | inl e ↦ cleared k ((==_iff k i).0 e)
      | inr ne ↦ let no' : k ≢ i = ground arith in set_other i k clear hs no' ∙ c k (no', f)
    ]
