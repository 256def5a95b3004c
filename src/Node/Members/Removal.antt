-- ===== src/Node/Members/Removal.antt =====
-- What the removal of an endpoint leaves: `remove_endpoint`, `add_endpoint_fault` and `disconnect`.
use libatbus.Base.{
  ℕ, ◌≡◌, inl, inr, refl, ◌∙◌, List, [], ◌∷◌, sym, subst, Bool, true, false, Option, none, some,
  arith, Bool-cases, Option-cases, ltb, ◌+◌,
}
use libatbus.Endpoint.Domain.{EndpointPtr}
use libatbus.Endpoint.Select.{Connection}
use libatbus.Node.Table.{find_child}
use libatbus.Node.Table.Remove.{remove_child-WellFormed, Has-remove_child}
use libatbus.Node.State.{Node, Family, is_child, is_brother, is_parent, peer_of}
use libatbus.Node.Members.{
  removed, lose_father, remove_brother, remove_own_child, remove_endpoint, disconnect,
  add_endpoint_fault, reset_endpoint, add_check_list, disconnect_connection, on_disconnect,
  disconnect_all, drop_father, is_father, exact,
}
use libatbus.Node.Members.Sound.{Sound}

pub removed-family :
    (n : Node) (f : Family) (o : Option EndpointPtr) → (removed n f true o).0.family ≡ f
unfolding removed
removed-family n f none = refl
removed-family n f (some ep) = refl

removed-Sound :
    (n : Node) (f : Family) (ok : Bool) (o : Option EndpointPtr)
    → Sound n.family
    → Sound f
    → Sound (removed n f ok o).0.family
unfolding removed
removed-Sound n f true o s s' = subst Sound (sym (removed-family n f o)) s'
removed-Sound n f false o s s' = s

without_father : (f : Family) → Sound f → Sound (record f { father = none })
without_father f s = record {
  self_valid = s.self_valid;
  brother_formed = s.brother_formed;
  children_formed = s.children_formed;
  father_over = λ p e. cc e;
  children_below = s.children_below;
  brother_beside = s.brother_beside;
}

lose_father-Sound : (n : Node) → Sound n.family → Sound (lose_father n).family
unfolding lose_father
lose_father-Sound n s = elim (Option-cases n.father) [
  | inl e ↦ rw (e, lose_father) (without_father n.family s)
  | inr (p, e) ↦ rw (e, lose_father) (without_father n.family s)
]

remove_brother-Sound : (n : Node) (tid : ℕ) → Sound n.family → Sound (remove_brother n tid).0.family
unfolding remove_brother
remove_brother-Sound n tid s = removed-Sound n _ _ _ s record {
  self_valid = s.self_valid;
  brother_formed = remove_child-WellFormed n.brother tid s.brother_formed;
  children_formed = s.children_formed;
  father_over = s.father_over;
  children_below = s.children_below;
  brother_beside =
      λ e has. s.brother_beside e ((Has-remove_child n.brother tid e s.brother_formed).0 has).0;
}

remove_own_child-Sound :
    (n : Node) (tid : ℕ) → Sound n.family → Sound (remove_own_child n tid).0.family
unfolding remove_own_child
remove_own_child-Sound n tid s = removed-Sound n _ _ _ s record {
  self_valid = s.self_valid;
  brother_formed = s.brother_formed;
  children_formed = remove_child-WellFormed n.children tid s.children_formed;
  father_over = s.father_over;
  children_below =
      λ e has. s.children_below e ((Has-remove_child n.children tid e s.children_formed).0 has).0;
  brother_beside = s.brother_beside;
}

-- `remove_endpoint` keeps what a node knows of its tree sound.
remove_endpoint-Sound :
    (n : Node) (tid : ℕ) → Sound n.family → Sound (remove_endpoint n tid).0.family
unfolding remove_endpoint
remove_endpoint-Sound n tid s = elim (Bool-cases (is_parent n.family tid)) [
  | inl p ↦ rw p (lose_father-Sound n s)
  | inr np ↦ elim (Bool-cases (is_brother n.family tid)) [
    | inl b ↦ rw np (rw b (remove_brother-Sound n tid s))
    | inr nb ↦ elim (Bool-cases (is_child n.family tid)) [
      | inl c ↦ rw np (rw nb (rw c (remove_own_child-Sound n tid s)))
      | inr nc ↦ rw np (rw nb (rw nc s))
    ]
  ]
]

-- So does a fault, whether it removes the endpoint or not.
pub add_endpoint_fault-Sound :
    (n : Node) (ep : EndpointPtr) → Sound n.family → Sound (add_endpoint_fault n ep).0.family
unfolding add_endpoint_fault
add_endpoint_fault-Sound n ep s =
    elim (Bool-cases (ltb n.conf.fault_tolerant ((peer_of n ep).fault_count + 1))) [
      | inl many ↦ rw many (remove_endpoint-Sound _ ep.id s)
      | inr few ↦ rw few s
    ]

pub disconnect_connection-family :
    (n : Node) (c : Connection) → (disconnect_connection n c).0.family ≡ n.family
unfolding disconnect_connection on_disconnect
disconnect_connection-family n c = ground arith

disconnect_all-family : (cs : List Connection) (n : Node) → (disconnect_all n cs).family ≡ n.family
unfolding disconnect_all
disconnect_all-family [] n = refl
disconnect_all-family (c ∷ cs) n = disconnect_all-family cs _ ∙ disconnect_connection-family n c

pub add_check_list-family : (n : Node) (ep : EndpointPtr) → (add_check_list n ep).family ≡ n.family
unfolding add_check_list
add_check_list-family n ep = ground arith

pub reset_endpoint-family : (n : Node) (ep : EndpointPtr) → (reset_endpoint n ep).family ≡ n.family
unfolding reset_endpoint
reset_endpoint-family n ep = elim (Bool-cases (peer_of n ep).endpoint.resetting) [
  | inl e ↦ rw (e, reset_endpoint) refl
  | inr e ↦
      rw (e, reset_endpoint)
        (add_check_list-family _ ep ∙ disconnect_all-family (peer_of n ep).endpoint.data_conn n)
]

drop_father-Sound : (n : Node) → Sound n.family → Sound (drop_father n).family
unfolding drop_father
drop_father-Sound n s = elim (Option-cases n.father) [
  | inl e ↦ rw (e, drop_father) s
  | inr (p, e) ↦
      rw (e, drop_father) (without_father _ (subst Sound (sym (reset_endpoint-family n p)) s))
]

-- `disconnect` keeps what a node knows of its tree sound.
disconnect-Sound : (n : Node) (id : ℕ) → Sound n.family → Sound (disconnect n id).0.family
unfolding disconnect
disconnect-Sound n id s = elim (Bool-cases (is_father n.family id)) [
  | inl p ↦ rw p (drop_father-Sound n s)
  | inr np ↦ elim (Option-cases (exact id (find_child n.brother id))) [
    | inr (b, eb) ↦ rw np (rw (eb, disconnect) (gone b))
    | inl nb ↦ elim (Option-cases (exact id (find_child n.children id))) [
      | inr (c, ec) ↦ rw np (rw (nb, disconnect) (rw ec (gone c)))
      | inl nc ↦ rw np (rw (nb, disconnect) (rw nc s))
    ]
  ]
]
  where
    gone : (ep : EndpointPtr) → Sound (remove_brother (reset_endpoint n ep) id).0.family
    gone ep = remove_brother-Sound _ id (subst Sound (sym (reset_endpoint-family n ep)) s)
