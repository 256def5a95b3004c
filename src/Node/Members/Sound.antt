-- ===== src/Node/Members/Sound.antt =====
-- The invariant of the endpoints that a node knows, kept by the operations on them.
use libatbus.Base.{
  ℕ, ◌≤◌, ◌<◌, ◌≡◌, ◌↔◌, inl, inr, sym, subst, Bool, true, false, some, arith, Bool-cases,
  Option-cases, some_inj, ltb, ◌==◌,
}
use libatbus.Endpoint.Domain.{EndpointPtr, is_child_node, is_brother_node, IsValid}
use libatbus.Endpoint.Domain.Interval.{Contains, Contains-self, is_child_node_iff, nested_or_Apart}
use libatbus.Node.Table.{Collection, insert_child}
use libatbus.Node.Table.WellFormed.{WellFormed, Has}
use libatbus.Node.Table.Accept.{insert_child-WellFormed, Has-insert_child}
use libatbus.Node.State.{Node, Family, is_child, is_brother}
use libatbus.Node.Members.{
  covers_self, adopt, inserted, add_brother, add_child, add_endpoint, on_actived, add_ping_timer,
}

-- A father lies over the node.
abbrev pub Over : Family → EndpointPtr → Type 0
Over f p = IsValid p × (f.self.children_mask < p.children_mask) × Contains p f.self.id

abbrev pub Below : Family → EndpointPtr → Type 0
Below f e = (is_child_node f.self e.id ≡ true) × (e.children_mask ≤ f.self.children_mask)

abbrev pub Beside : Family → EndpointPtr → Type 0
Beside f e = is_child_node f.self e.id ≡ false

-- The tables are well formed; the father lies over the node, the domain of each child within that of
-- the node, and the id of each brother outside it.
pub record Sound (f : Family) : Type 0 where
  pub self_valid : IsValid f.self
  pub brother_formed : WellFormed 0 f.brother
  pub children_formed : WellFormed 0 f.children
  pub father_over : (p : EndpointPtr) → f.father ≡ some p → Over f p
  pub children_below : (e : EndpointPtr) → Has e f.children → Below f e
  pub brother_beside : (e : EndpointPtr) → Has e f.brother → Beside f e

-- What adds to a table keeps a property of its members that the new one has.
pub Has-insert :
    (P : EndpointPtr → Type 0) (coll : Collection) (ep : EndpointPtr)
    → WellFormed 0 coll
    → IsValid ep
    → P ep
    → ((e : EndpointPtr) → Has e coll → P e)
    → (e : EndpointPtr) → Has e (insert_child coll ep).0
    → P e
Has-insert P coll ep w v p all e has = elim ((Has-insert_child coll ep e w v).0 has) [
  | inl new ↦ subst P new.1 p
  | inr old ↦ all e old
]

-- An endpoint of a wider domain that holds the id of an endpoint in the node's domain.
wider_covers :
    (f : Family) (ep : EndpointPtr)
    → IsValid f.self
    → IsValid ep
    → is_child_node f.self ep.id ≡ true
    → covers_self f ep ≡ false
    → ep.children_mask ≤ f.self.children_mask
unfolding covers_self
wider_covers f ep vs ve below cov = elim (Bool-cases (ltb f.self.children_mask ep.children_mask)) [
  | inr le ↦ ground arith
  | inl lt ↦
      let c = (is_child_node_iff ep.id vs ve.id_bound).0 below in
      let own = Contains-self ve in
      let case = nested_or_Apart vs ve (ground arith) in
      let iff = is_child_node_iff {e = ep} f.self.id ve vs.id_bound in ground arith
]

pub brother_not_child :
    (f : Family) (id : ℕ) → is_brother f id ≡ true → is_child_node f.self id ≡ false
unfolding is_brother is_brother_node is_child_node
brother_not_child f id b = elim (Option-cases f.father) [
  | inl e ↦ let b' = rw e at b in ground arith
  | inr (p, e) ↦ let b' = rw e at b in ground arith
]

add_ping_timer-family : (n : Node) (ep : EndpointPtr) → (add_ping_timer n ep).family ≡ n.family
unfolding add_ping_timer
add_ping_timer-family n ep = ground arith

on_actived-family : (n : Node) → (on_actived n).family ≡ n.family
unfolding on_actived
on_actived-family n = ground arith

pub adopt-family :
    (n : Node) (ep : EndpointPtr) → (adopt n ep).family ≡ record n.family { father = some ep }
unfolding adopt
adopt-family n ep =
    let n' : Node = record n { family = record n.family { father = some ep } } in
    ground (arith, add_ping_timer-family n' ep, on_actived-family (add_ping_timer n' ep))

pub inserted-family :
    (n : Node) (f : Family) (ep : EndpointPtr) → (inserted n f true ep).0.family ≡ f
unfolding inserted
inserted-family n f ep = add_ping_timer-family _ ep

inserted-Sound :
    (n : Node) (f : Family) (ok : Bool) (ep : EndpointPtr)
    → Sound n.family
    → Sound f
    → Sound (inserted n f ok ep).0.family
unfolding inserted
inserted-Sound n f true ep s s' = subst Sound (sym (inserted-family n f ep)) s'
inserted-Sound n f false ep s s' = s

module _ (n : Node) (ep : EndpointPtr) (s : Sound n.family) (v : IsValid ep) where
  adopt-Sound : covers_self n.family ep ≡ true → Sound (adopt n ep).family
  unfolding covers_self
  adopt-Sound cov = subst Sound (sym (adopt-family n ep)) record {
    self_valid = s.self_valid;
    brother_formed = s.brother_formed;
    children_formed = s.children_formed;
    father_over = λ p e. subst (Over n.family) (some_inj e) (v, ground arith, ground (arith, iff));
    children_below = s.children_below;
    brother_beside = s.brother_beside;
  }
    where
      iff : (is_child_node ep n.self.id ≡ true) ↔ Contains ep n.self.id
      iff = is_child_node_iff n.self.id v s.self_valid.id_bound

  add_brother-Sound : is_brother n.family ep.id ≡ true → Sound (add_brother n ep).0.family
  unfolding add_brother
  add_brother-Sound b = inserted-Sound n _ _ ep s record {
    self_valid = s.self_valid;
    brother_formed = insert_child-WellFormed n.brother ep s.brother_formed v;
    children_formed = s.children_formed;
    father_over = s.father_over;
    children_below = s.children_below;
    brother_beside =
        Has-insert (Beside n.family) n.brother ep s.brother_formed v
          (brother_not_child n.family ep.id b) s.brother_beside;
  }

  add_child-Sound :
      is_child n.family ep.id ≡ true
      → covers_self n.family ep ≡ false
      → Sound (add_child n ep).0.family
  unfolding add_child is_child
  add_child-Sound c cov = inserted-Sound n _ _ ep s record {
    self_valid = s.self_valid;
    brother_formed = s.brother_formed;
    children_formed = insert_child-WellFormed n.children ep s.children_formed v;
    father_over = s.father_over;
    children_below =
        Has-insert (Below n.family) n.children ep s.children_formed v
          (c, wider_covers n.family ep s.self_valid v c cov) s.children_below;
    brother_beside = s.brother_beside;
  }

-- `add_endpoint` of a valid endpoint keeps what a node knows of its tree sound, accepted or not.
pub add_endpoint-Sound :
    (n : Node) (ep : EndpointPtr) (owner : ℕ)
    → Sound n.family
    → IsValid ep
    → Sound (add_endpoint n (some (ep, owner))).0.family
unfolding add_endpoint
add_endpoint-Sound n ep owner s v = elim (Bool-cases (n.handle == owner)) [
  | inr other ↦ rw other s
  | inl own ↦ elim (Bool-cases (covers_self n.family ep)) [
    | inl cov ↦ elim (Option-cases n.father) [
      | inl e ↦ rw own (rw cov (rw e (adopt-Sound n ep s v cov)))
      | inr (p, e) ↦ rw own (rw cov (rw e s))
    ]
    | inr cov ↦ elim (Bool-cases (is_brother n.family ep.id)) [
      | inl b ↦ rw own (rw cov (rw b (add_brother-Sound n ep s v b)))
      | inr nb ↦ elim (Bool-cases (is_child n.family ep.id)) [
        | inl c ↦ rw own (rw cov (rw nb (rw c (add_child-Sound n ep s v c cov))))
        | inr nc ↦ rw own (rw cov (rw nb (rw nc s)))
      ]
    ]
  ]
]
