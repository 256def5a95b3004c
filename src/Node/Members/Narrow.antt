-- ===== src/Node/Members/Narrow.antt =====
-- The children of a node that come by registration have narrower domains than the node.
use libatbus.Base.{ℕ, ◌<◌, ◌≡◌, sym, inl, inr, subst, true, some, Bool-cases, Option-cases, ◌==◌}
use libatbus.Endpoint.Domain.{EndpointPtr, IsValid}
use libatbus.Node.Table.{insert_child}
use libatbus.Node.Table.WellFormed.{Has}
use libatbus.Node.State.{Node, Family, is_child, is_brother}
use libatbus.Node.Members.{covers_self, inserted, add_brother, add_child, add_endpoint}
use libatbus.Node.Members.Sound.{Sound, Has-insert, adopt-family, inserted-family}

-- The domain of each child is narrower than that of the node.
abbrev pub Narrow : Family → Type 0
Narrow f = (e : EndpointPtr) → Has e f.children → e.children_mask < f.self.children_mask

abbrev pub Ranked : Family → Type 0
Ranked f = Sound f × Narrow f

add_child-Narrow :
    (n : Node) (ep : EndpointPtr)
    → Sound n.family
    → IsValid ep
    → ep.children_mask < n.self.children_mask
    → Narrow n.family
    → Narrow (add_child n ep).0.family
unfolding add_child inserted
add_child-Narrow n ep s v lt h = elim (Bool-cases (insert_child n.children ep).1) [
  | inr no' ↦ rw no' h
  | inl yes' ↦ rw yes' (
      subst Narrow
        (sym (inserted-family n (record n.family { children = (insert_child n.children ep).0 }) ep))
        (Has-insert (λ (e : EndpointPtr). e.children_mask < n.self.children_mask) n.children ep
          s.children_formed v lt h))
]

add_brother-Narrow :
    (n : Node) (ep : EndpointPtr) → Narrow n.family → Narrow (add_brother n ep).0.family
unfolding add_brother inserted
add_brother-Narrow n ep h = elim (Bool-cases (insert_child n.brother ep).1) [
  | inr no' ↦ rw no' h
  | inl yes' ↦ rw yes' (
      subst Narrow
        (sym (inserted-family n (record n.family { brother = (insert_child n.brother ep).0 }) ep))
        h)
]

-- A child is added only where its mask is smaller than that of the node.
pub add_endpoint-Narrow :
    (n : Node) (ep : EndpointPtr) (owner : ℕ)
    → Sound n.family
    → IsValid ep
    → (is_child n.family ep.id ≡ true → ep.children_mask < n.self.children_mask)
    → Narrow n.family
    → Narrow (add_endpoint n (some (ep, owner))).0.family
unfolding add_endpoint
add_endpoint-Narrow n ep owner s v small h = elim (Bool-cases (n.handle == owner)) [
  | inr other ↦ rw other h
  | inl own ↦ elim (Bool-cases (covers_self n.family ep)) [
    | inl cov ↦ elim (Option-cases n.father) [
      | inl e ↦ rw own (rw cov (rw e (subst Narrow (sym (adopt-family n ep)) h)))
      | inr (p, e) ↦ rw own (rw cov (rw e h))
    ]
    | inr cov ↦ elim (Bool-cases (is_brother n.family ep.id)) [
      | inl b ↦ rw own (rw cov (rw b (add_brother-Narrow n ep h)))
      | inr nb ↦ elim (Bool-cases (is_child n.family ep.id)) [
        | inl c ↦ rw own (rw cov (rw nb (rw c (add_child-Narrow n ep s v (small c) h))))
        | inr nc ↦ rw own (rw cov (rw nb (rw nc h)))
      ]
    ]
  ]
]
