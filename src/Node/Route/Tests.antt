-- ===== src/Node/Route/Tests.antt =====
-- A tree of two nodes.
use libatbus.Base.{
  ℕ, ◌<◌, ◌≤◌, ◌≡◌, inl, inr, refl, subst, Bool, true, false, none, some, [], ◌∷◌, arith, some_inj,
  if◌then◌else◌, ◌==◌, on_either,
}
use libatbus.Endpoint.Domain.{
  EndpointPtr, IsValid, is_child_node, is_brother_node, is_parent_node, get_children_min_id,
  get_children_max_id,
}
use libatbus.Node.Table.WellFormed.{Has}
use libatbus.Node.Table.{find_child}
use libatbus.Node.State.{Family, is_child, is_brother, is_parent}
use libatbus.Node.Members.Sample.{me, kid, sample, sibling, parent, valid}
use libatbus.Node.Members.Sound.{Sound, Below}
use libatbus.Node.Route.{here, to, invalid_id, no_connection, next_hop}
use libatbus.Node.Route.Delivery.{walk, delivered, Linked, arrived, below, walk_delivered}

runs :
    (next_hop sample false 0x200 ≡ here)
    × (next_hop sample false 0x1 ≡ to parent)
    × (next_hop sample false 0x333 ≡ to sibling)
    × (next_hop sample false 0x433 ≡ to parent)
    × (next_hop sample true 0x433 ≡ invalid_id)
    × (next_hop sample false 0x21a ≡ to kid)
    × (next_hop sample false 0x22a ≡ invalid_id)
    × (next_hop sample false 0x20000 ≡ to parent)
    × (next_hop sample true 0x20000 ≡ no_connection)
unfolding next_hop is_child is_brother is_parent is_child_node is_brother_node is_parent_node
    find_child
runs = (refl, refl, refl, refl, refl, refl, refl, refl, refl)

abbrev upper : Family
upper = record { self = me; father = none; brother = []; children = (0x21f, kid) ∷ [] }

abbrev lower : Family
lower = record { self = kid; father = some me; brother = []; children = [] }

abbrev net : ℕ → Family
net i = if i == 0x210 then lower else upper

upper-Sound : Sound upper
unfolding is_child_node get_children_min_id get_children_max_id
upper-Sound = record {
  self_valid = valid me (omega arith) (omega arith);
  brother_formed = tt;
  children_formed = omega arith;
  father_over = λ p e. cc e;
  children_below =
      λ e h. elim h [ inl eq ↦ subst (Below upper) eq (refl, omega arith) | inr h' ↦ elim h' [ ] ];
  brother_beside = λ e h. elim h [ ];
}

lower-Sound : Sound lower
unfolding is_child_node get_children_min_id get_children_max_id
lower-Sound = record {
  self_valid = valid kid (omega arith) (omega arith);
  brother_formed = tt;
  children_formed = tt;
  father_over = λ p e.
      subst
        (λ p.
          IsValid p
          × (4 < p.children_mask)
          × ((get_children_min_id p.id p.children_mask ≤ 0x210)
              × (0x210 ≤ get_children_max_id p.id p.children_mask)))
        (some_inj e)
        (valid me (omega arith) (omega arith), omega arith, (omega arith, omega arith));
  children_below = λ e h. elim h [ ];
  brother_beside = λ e h. elim h [ ];
}

-- Every child of either node is `kid`.
only_kid :
    (b : Bool) (e : EndpointPtr)
    → Has e (if b then lower else upper).children
    → (b ≡ false) × (kid ≡ e)
only_kid true e h = elim h [ ]
only_kid false e (inl eq) = (refl, eq)
only_kid false e (inr h) = elim h [ ]

net-Linked : Linked net
net-Linked = record {
  sound = λ i. on_either Sound lower-Sound upper-Sound (i == 0x210);
  named = λ i e h.
      subst
        (λ (e : EndpointPtr).
          ((net e.id).self.id ≡ e.id) × ((net e.id).self.children_mask ≡ e.children_mask))
        (only_kid (i == 0x210) e h).1 (refl, refl);
  fathered = λ i e h.
      let (top, same) = only_kid (i == 0x210) e h in
      rw top (
        subst
          (λ (e : EndpointPtr). (p : EndpointPtr) × ((net e.id).father ≡ some p) × (p.id ≡ 0x200))
          same (me, refl, refl));
  narrower = λ i e h.
      let (top, same) = only_kid (i == 0x210) e h in
      rw top (subst (λ (e : EndpointPtr). e.children_mask < 8) same (omega arith));
}

walk_delivered_example : walk net (λ i. false) 0x210 9 0x200 ≡ delivered
unfolding get_children_min_id get_children_max_id is_parent
walk_delivered_example =
    walk_delivered net (λ i. false) 0x210 9 net-Linked (omega arith) refl (omega arith)
      (below 0x200 kid (inl refl) (omega arith) (arrived 0x210 refl))
