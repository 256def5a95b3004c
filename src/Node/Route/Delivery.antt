-- ===== src/Node/Route/Delivery.antt =====
-- A message on its way down a tree of nodes.
use libatbus.Base.{
  ℕ, zero, suc, ◌^◌, ◌≤◌, ◌<◌, ◌≡◌, ◌≢◌, inl, inr, refl, sym, Bool, true, false, some, arith, ◌==◌,
  Bool-cases, ==_iff,
}
use libatbus.Endpoint.Domain.{
  EndpointPtr, IsValid, is_child_node, get_children_min_id, is_parent_node,
}
use libatbus.Endpoint.Domain.Interval.{
  Contains, Contains-self, is_child_node_iff, nested_or_Apart, min_id, min_id_lem, max_id_lem,
}
use libatbus.Node.Table.WellFormed.{Has, Has-IsValid}
use libatbus.Node.Table.Find.{find_child_iff}
use libatbus.Node.State.{Family, is_child, is_brother, is_parent}
use libatbus.Node.Members.Sound.{Sound, brother_not_child}
use libatbus.Node.Route.{here, to, next_hop, within}

-- What happens to a message for `tid` that starts at the node with the id `i`, in at most `fuel` nodes.
pub data Outcome : Type 0 where
  delivered refused out_of_fuel : Outcome

unfoldable pub walk : (ℕ → Family) → (ℕ → Bool) → ℕ → ℕ → ℕ → Outcome
walk net global_router tid zero i = out_of_fuel
walk net global_router tid (suc fuel) i = elim (next_hop (net i) (global_router i) tid) [
  | here ↦ delivered
  | to e ↦ walk net global_router tid fuel e.id
  | _ ↦ refused
]

-- Every node that another counts among its children knows it as its father, under the id and the
-- mask that it registered with, and that mask is smaller.
pub record Linked (net : ℕ → Family) : Type 0 where
  pub sound : (i : ℕ) → Sound (net i)
  pub named :
      (i : ℕ) (e : EndpointPtr)
      → Has e (net i).children
      → ((net e.id).self.id ≡ e.id) × ((net e.id).self.children_mask ≡ e.children_mask)
  pub fathered :
      (i : ℕ) (e : EndpointPtr)
      → Has e (net i).children
      → (p : EndpointPtr) × ((net e.id).father ≡ some p) × (p.id ≡ (net i).self.id)
  pub narrower :
      (i : ℕ) (e : EndpointPtr)
      → Has e (net i).children
      → e.children_mask < (net i).self.children_mask

-- The node with the id `tid` is below the node with the id `i`: each on the way is among the children
-- of the one before, and answers for `tid`.
pub data Reaches (net : ℕ → Family) (tid : ℕ) : ℕ → Type 0 where
  arrived : (i : ℕ) → (net i).self.id ≡ tid → Reaches net tid i
  below :
      (i : ℕ) (e : EndpointPtr)
      → Has e (net i).children
      → Contains e tid
      → Reaches net tid e.id
      → Reaches net tid i

-- The domain of a child lies in that of the node.
nested :
    {e s : EndpointPtr} (t : ℕ)
    → IsValid e
    → IsValid s
    → t < 2 ^ 64
    → e.children_mask ≤ s.children_mask
    → Contains s e.id
    → Contains e t
    → Contains s t
unfolding is_child_node get_children_min_id
nested {e} {s} t ve vs h le cs ct =
    let at : EndpointPtr = record { handle = 0; id = t; children_mask = e.children_mask } in
    let va : IsValid at = record { id_bound = h; mask_bound = ve.mask_bound } in
    let same : min_id at ≡ min_id e = (==_iff _ _).0 ((is_child_node_iff t ve h).1 ct) in
    let case = nested_or_Apart {e = at} {f = s} va vs le in
    let own = Contains-self ve in
    ground (arith, max_id_lem at, max_id_lem e, min_id_lem va, min_id_lem ve)

not_brother : (f : Family) (id : ℕ) → is_child_node f.self id ≡ true → is_brother f id ≡ false
not_brother f id child = elim (Bool-cases (is_brother f id)) [
  | inl b ↦ cc (brother_not_child f id b, child)
  | inr nb ↦ nb
]

to_child :
    (f : Family) (global_router : Bool) (tid : ℕ) (e : EndpointPtr)
    → Sound f
    → tid < 2 ^ 64
    → tid ≢ f.self.id
    → is_parent f tid ≡ false
    → Has e f.children
    → Contains e tid
    → next_hop f global_router tid ≡ to e
unfolding next_hop within is_child
to_child f g tid e s h ne np has c =
    let ve = Has-IsValid 0 f.children e s.children_formed has in
    let (inside, le) = s.children_below e has in
    let cs = (is_child_node_iff e.id s.self_valid ve.id_bound).0 inside in
    let child : is_child_node f.self tid ≡ true =
      (is_child_node_iff tid s.self_valid h).1 (nested tid ve s.self_valid h le cs c) in
    let found = (find_child_iff 0 tid f.children e s.children_formed h).1 (has, c) in
    let covers = (is_child_node_iff tid ve h).1 c in
    let other : (tid == f.self.id) ≡ false = ground arith in
    let beside : is_brother f tid ≡ false = not_brother f tid child in
    rw other (rw np (rw beside (rw child (rw found (rw covers refl)))))

not_parent :
    (f : Family) (p : EndpointPtr) (tid : ℕ)
    → f.father ≡ some p
    → tid ≢ p.id
    → is_parent f tid ≡ false
unfolding is_parent is_parent_node
not_parent f p tid e ne = ground arith

at_home :
    (f : Family) (global_router : Bool) (tid : ℕ)
    → f.self.id ≡ tid
    → next_hop f global_router tid ≡ here
unfolding next_hop
at_home f g tid e = ground arith

-- In a linked tree, a message for a node below the one where it starts is delivered, and passes at
-- most as many nodes as the mask of the start has bits, and one.
pub walk_delivered :
    (net : ℕ → Family) (global_router : ℕ → Bool) (tid fuel : ℕ) {i : ℕ}
    → Linked net
    → tid < 2 ^ 64
    → is_parent (net i) tid ≡ false
    → (net i).self.children_mask < fuel
    → Reaches net tid i
    → walk net global_router tid fuel i ≡ delivered
unfolding walk
walk_delivered net g tid zero l h np lt r = absurd (omega arith)
walk_delivered net g tid (suc fuel) l h np lt (arrived i e) =
    rw (at_home (net i) (g i) tid e, walk) refl
walk_delivered net g tid (suc fuel) l h np lt (below i e has c r) =
    elim (Bool-cases (tid == (net i).self.id)) [
      | inl own ↦ rw (at_home (net i) (g i) tid (sym ((==_iff _ _).0 own)), walk) refl
      | inr other ↦
          let ne : tid ≢ (net i).self.id = ground arith in
          let (name, mask) = l.named i e has in
          let less = l.narrower i e has in
          rw (to_child (net i) (g i) tid e (l.sound i) h ne np has c, walk)
            (walk_delivered net g tid fuel l h (upper i e has ne) (rw mask (omega arith)) r)
    ]
  where
    upper :
        (i : ℕ) (e : EndpointPtr)
        → Has e (net i).children
        → tid ≢ (net i).self.id
        → is_parent (net e.id) tid ≡ false
    upper i e has ne =
        let (p, father, name) = l.fathered i e has in
        not_parent (net e.id) p tid father (rw name ne)
