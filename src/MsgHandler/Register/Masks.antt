-- ===== src/MsgHandler/Register/Masks.antt =====
-- The tree that a node knows stays sound under registrations, and its children stay narrower.
use libatbus.Base.{
  ℕ, ◌^◌, ◌<◌, ◌≡◌, ◌∙◌, refl, sym, inl, inr, subst, Bool, true, false, some, List, [], ◌∷◌, ◌++◌,
  arith, Bool-cases, Option-cases, if◌then◌else◌,
}
use libatbus.Status.{Status, is_error, atnode_bus_id_not_match}
use libatbus.Endpoint.Domain.{EndpointPtr, IsValid}
use libatbus.Endpoint.Select.{Connection, is_connected}
use libatbus.Protocol.{RegData}
use libatbus.Node.State.{
  Node, Peer, emit, set_peer, peer_of, is_child, on_error, conn_reset, conn_connect,
}
use libatbus.Node.Members.{add_endpoint, disconnect_connection, get_endpoint}
use libatbus.Node.Members.Sound.{add_endpoint-Sound}
use libatbus.Node.Members.Removal.{
  reset_endpoint-family, disconnect_connection-family, add_check_list-family,
}
use libatbus.Node.Members.Narrow.{Ranked, add_endpoint-Narrow}
use libatbus.Node.Send.{Env}
use libatbus.Node.Links.{
  bind_to, connected_to, connect_endpoint, connect_channels, remove_connection, drop_data, without,
  reset_connection,
}
use libatbus.MsgHandler.Register.{
  register_connected, register_known, child_check, new_peer, new_endpoint, settle_new, register_new,
  register,
}

bind_to-family :
    (n : Node) (ep : EndpointPtr) (c : Connection) (force : Bool)
    → (bind_to n ep c force).0.family ≡ n.family
unfolding bind_to
bind_to-family n ep c force = refl

connected_to-family :
    (n : Node) (ep : EndpointPtr) (address : List ℕ) (r : Status × Connection)
    → (connected_to n ep address r).0.family ≡ n.family
unfolding connected_to bind_to
connected_to-family n ep address (res, c) = ground arith

connect_channels-family :
    (env : Env) (ep : EndpointPtr) (addresses : List (List ℕ)) (n : Node) (has_data_conn : Bool)
    → (connect_channels env n ep addresses has_data_conn).0.family ≡ n.family
unfolding connect_channels connect_endpoint
connect_channels-family env ep [] n b = refl
connect_channels-family env ep (a ∷ rest) n b = connect_channels-family env ep rest _ _ ∙ after
  where
    n' : Node
    n' = (connect_endpoint env n ep a).0

    res : Status
    res = (connect_endpoint env n ep a).1

    after :
        (if is_error res
          then emit (on_error res) n'
          else set_peer ep
              (record (peer_of n' ep) { listen_address = (peer_of n' ep).listen_address ++ a ∷ [] })
              n').family
        ≡ n.family
    after = ground (arith, connected_to-family (emit (conn_connect a) n) ep a (env.open_address a))

drop_data-family :
    (n : Node) (p : Peer) (cs : List Connection) → (drop_data n p cs).family ≡ n.family
unfolding drop_data
drop_data-family n p [] = reset_endpoint-family _ p.this
drop_data-family n p (c ∷ cs) = refl

remove_connection-family :
    (n : Node) (p : Peer) (conn : Connection) → (remove_connection n p conn).family ≡ n.family
unfolding remove_connection
remove_connection-family n p conn = ground (
  arith,
  reset_endpoint-family n p.this,
  drop_data-family n p (without conn.handle p.endpoint.data_conn),
)

pub reset_connection-family :
    (n : Node) (conn : Connection) → (reset_connection n conn).0.family ≡ n.family
unfolding reset_connection
reset_connection-family n conn =
    let (n', conn') = disconnect_connection (emit (conn_reset conn) n) conn in
    let down : n'.family ≡ n.family =
      disconnect_connection-family (emit (conn_reset conn) n) conn in
    elim (Option-cases conn.binding) [
      | inl e ↦ rw (e, reset_connection) down
      | inr (h, e) ↦ rw (e, reset_connection) (remove_connection-family n' (n'.peer h) conn' ∙ down)
    ]

settle_new-family :
    (env : Env) (n : Node) (ep : EndpointPtr) (conn : Connection) (reg : RegData)
    → (settle_new env n ep conn reg).0.family ≡ n.family
unfolding settle_new
settle_new-family env n ep conn reg =
    let m = record (peer_of n ep) { global_router = reg.has_global_tree } in
    let n' = (bind_to (set_peer ep m n) ep conn false).0 in
    let channels : (connect_channels env n' ep reg.channels false).0.family ≡ n.family =
      connect_channels-family env ep reg.channels n' false in
    ground
      (arith, channels, add_check_list-family (connect_channels env n' ep reg.channels false).0 ep)

child_check_lem :
    (n : Node) (reg : RegData)
    → is_error (child_check n reg) ≡ false
    → is_child n.family reg.bus_id ≡ true
    → reg.children_id_mask < n.self.children_mask
unfolding child_check is_error
child_check_lem n reg ok c = ground arith

-- The values of a registration for which the masks are defined.
abbrev pub ValidReg : RegData → Type 0
ValidReg reg = (reg.bus_id < 2 ^ 64) × (reg.children_id_mask < 31)

register_new-Ranked :
    (env : Env) (handle : ℕ) (n : Node) (conn : Connection) (reg : RegData)
    → ValidReg reg
    → Ranked n.family
    → Ranked (register_new env handle n conn reg).0.family
unfolding register_new
register_new-Ranked env handle n conn reg v h =
    let ep = new_endpoint handle reg in
    let n' = set_peer ep (new_peer ep reg) n in
    let ve : IsValid ep = record { id_bound = v.0; mask_bound = v.1 } in
    elim (Bool-cases (is_error (child_check n reg))) [
      | inl bad ↦ rw bad h
      | inr ok ↦
          let added : Ranked (add_endpoint n' (some (ep, n.handle))).0.family = (
            add_endpoint-Sound n' ep n.handle h.0 ve,
            add_endpoint-Narrow n' ep n.handle h.0 ve (child_check_lem n reg ok) h.1,
          ) in
          elim (Bool-cases (is_error (add_endpoint n' (some (ep, n.handle))).1)) [
            | inl refused ↦ rw ok (rw refused added)
            | inr accepted ↦ rw ok (
                rw accepted (
                  subst Ranked
                    (sym
                      (settle_new-family env (add_endpoint n' (some (ep, n.handle))).0 ep conn reg))
                    added))
          ]
    ]

register_known-family :
    (n : Node) (ep : EndpointPtr) (conn : Connection) (reg : RegData)
    → (register_known n ep conn reg).0.family ≡ n.family
unfolding register_known bind_to
register_known-family n ep conn reg = ground arith

register_connected-family :
    (n : Node) (conn : Connection) (reg : RegData)
    → (register_connected n conn reg).0.family ≡ n.family
unfolding register_connected
register_connected-family n conn reg =
    ground (arith, reset_connection-family (emit (on_error atnode_bus_id_not_match) n) conn)

-- A registration, refused or not, keeps the tree that a node knows sound and its children narrower than
-- the node itself, where its id has 64 bits and its mask is below 31.
pub register-Ranked :
    (env : Env) (handle : ℕ) (n : Node) (conn : Connection) (reg : RegData)
    → ValidReg reg
    → Ranked n.family
    → Ranked (register env handle n conn reg).0.family
unfolding register
register-Ranked env handle n conn reg v h = elim (Bool-cases (is_connected conn.state)) [
  | inl up ↦ rw up (subst Ranked (sym (register_connected-family n conn reg)) h)
  | inr new ↦ elim (Option-cases (get_endpoint n.family reg.bus_id)) [
    | inr (ep, e) ↦ rw new (rw e (subst Ranked (sym (register_known-family n ep conn reg)) h))
    | inl e ↦ rw new (rw e (register_new-Ranked env handle n conn reg v h))
  ]
]
