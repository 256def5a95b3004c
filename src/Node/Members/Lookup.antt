-- ===== src/Node/Members/Lookup.antt =====
-- What `get_endpoint` finds after the endpoints of a node have changed.
use libatbus.Base.{
  ℕ, ◌≡◌, inl, inr, refl, ap, ◌∙◌, true, false, none, some, arith, Bool-cases, Option-cases, ◌==◌,
}
use libatbus.Status.{success}
use libatbus.Endpoint.Domain.{EndpointPtr, IsValid, is_child_node, is_parent_node}
use libatbus.Endpoint.Domain.Interval.{Contains-self, is_child_node_iff}
use libatbus.Node.Table.{Collection, insert_child, find_child}
use libatbus.Node.Table.WellFormed.{WellFormed}
use libatbus.Node.Table.Accept.{find_child-insert_child}
use libatbus.Node.State.{Node, Family, is_child, is_brother, is_parent}
use libatbus.Node.Members.{
  covers_self, inserted, add_brother, add_child, add_endpoint, removed, remove_brother, disconnect,
  reset_endpoint, is_father, exact, get_endpoint,
}
use libatbus.Node.Members.Sound.{Sound, adopt-family, inserted-family}
use libatbus.Node.Members.Removal.{reset_endpoint-family}

exact_inserted :
    (coll : Collection) (ep : EndpointPtr)
    → WellFormed 0 coll
    → IsValid ep
    → (insert_child coll ep).1 ≡ true
    → exact ep.id (find_child (insert_child coll ep).0 ep.id) ≡ some ep
unfolding exact
exact_inserted coll ep w v ok =
    let own : is_child_node ep ep.id ≡ true =
      (is_child_node_iff ep.id v v.id_bound).1 (Contains-self v) in
    rw (find_child-insert_child coll ep ep.id w v v.id_bound) (rw (ok, own) (ground arith))

adopted :
    (f : Family) (ep : EndpointPtr) → get_endpoint (record f { father = some ep }) ep.id ≡ some ep
unfolding get_endpoint is_parent is_parent_node
adopted f ep = ground arith

module _ (n : Node) (ep : EndpointPtr) (s : Sound n.family) (v : IsValid ep) where
  found_brother :
      is_parent n.family ep.id ≡ false
      → is_brother n.family ep.id ≡ true
      → (add_brother n ep).1 ≡ success
      → get_endpoint (add_brother n ep).0.family ep.id ≡ some ep
  unfolding add_brother get_endpoint is_parent is_brother inserted
  found_brother np b ok = elim (Bool-cases (insert_child n.brother ep).1) [
    | inr no' ↦ cc (rw no' at ok)
    | inl yes' ↦ rw yes' (
        rw (inserted-family n (record n.family { brother = (insert_child n.brother ep).0 }) ep)
          (rw np (rw b (exact_inserted n.brother ep s.brother_formed v yes'))))
  ]

  found_child :
      is_parent n.family ep.id ≡ false
      → is_brother n.family ep.id ≡ false
      → is_child n.family ep.id ≡ true
      → (add_child n ep).1 ≡ success
      → get_endpoint (add_child n ep).0.family ep.id ≡ some ep
  unfolding add_child get_endpoint is_parent is_brother is_child inserted
  found_child np nb c ok = elim (Bool-cases (insert_child n.children ep).1) [
    | inr no' ↦ cc (rw no' at ok)
    | inl yes' ↦ rw yes' (
        rw (inserted-family n (record n.family { children = (insert_child n.children ep).0 }) ep)
          (rw np (rw nb (rw c (exact_inserted n.children ep s.children_formed v yes')))))
  ]

-- A valid endpoint that `add_endpoint` accepts is what `get_endpoint` finds under its id, unless the
-- father already has that id.
pub get_endpoint-add_endpoint :
    (n : Node) (ep : EndpointPtr) (owner : ℕ)
    → Sound n.family
    → IsValid ep
    → is_parent n.family ep.id ≡ false
    → (add_endpoint n (some (ep, owner))).1 ≡ success
    → get_endpoint (add_endpoint n (some (ep, owner))).0.family ep.id ≡ some ep
unfolding add_endpoint
get_endpoint-add_endpoint n ep owner s v np ok = elim (Bool-cases (n.handle == owner)) [
  | inr other ↦ cc (rw other at ok)
  | inl own ↦ elim (Bool-cases (covers_self n.family ep)) [
    | inl cov ↦ elim (Option-cases n.father) [
      | inl e ↦ rw own (rw cov (rw e (rw (adopt-family n ep) (adopted n.family ep))))
      | inr (p, e) ↦ cc (rw e at (rw cov at (rw own at ok)))
    ]
    | inr cov ↦ elim (Bool-cases (is_brother n.family ep.id)) [
      | inl b ↦
          rw own (rw cov (rw b (found_brother n ep s v np b (rw b at (rw cov at (rw own at ok))))))
      | inr nb ↦ elim (Bool-cases (is_child n.family ep.id)) [
        | inl c ↦ rw own (
            rw cov (
              rw nb (
                rw c
                  (found_child n ep s v np nb c (rw c at (rw nb at (rw cov at (rw own at ok))))))))
        | inr nc ↦ cc (rw nc at (rw nb at (rw cov at (rw own at ok))))
      ]
    ]
  ]
]

remove_brother-children : (n : Node) (id : ℕ) → (remove_brother n id).0.family.children ≡ n.children
unfolding remove_brother removed
remove_brother-children n id = ground arith

-- `disconnect` of a child that is neither the father nor a brother reports success, and leaves the
-- child in the table of the children.
pub disconnect_keeps_child :
    (n : Node) (id : ℕ) (c : EndpointPtr)
    → is_father n.family id ≡ false
    → exact id (find_child n.brother id) ≡ none
    → exact id (find_child n.children id) ≡ some c
    → ((disconnect n id).1 ≡ success)
      × (find_child (disconnect n id).0.children id ≡ find_child n.children id)
unfolding disconnect
disconnect_keeps_child n id c np nb ec =
    rw np (rw (nb, disconnect) (rw ec (refl, ap (λ coll. find_child coll id) same)))
  where
    same : (remove_brother (reset_endpoint n c) id).0.family.children ≡ n.children
    same =
        remove_brother-children (reset_endpoint n c) id
        ∙ ap (λ (f : Family). f.children) (reset_endpoint-family n c)
