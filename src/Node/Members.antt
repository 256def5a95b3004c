-- ===== src/Node/Members.antt =====
-- The endpoints of a node in src/atbus_node.cpp: get_endpoint, add_endpoint, remove_endpoint,
-- disconnect, and what they call.
pub mod Sound
pub mod Narrow
pub mod Removal
pub mod Lookup
pub mod Effect
pub mod Disconnect
pub mod Sample
mod Tests
use libatbus.Base.{
  ℕ, ◌+◌, Bool, true, false, not, ◌||◌, ◌&&◌, Option, none, some, List, [], ◌∷◌, ◌++◌,
  if◌then◌else◌, ◌==◌, ltb,
}
use libatbus.Status.{
  Status, success, params, atnode_invalid_id, atnode_mask_conflict, atnode_not_found,
}
use libatbus.Endpoint.Domain.{EndpointPtr, is_child_node, is_brother_node, is_parent_node}
use libatbus.Endpoint.Select
use libatbus.Endpoint.Select.{Connection, hostname_eq}
use libatbus.Node.Table.{Collection, find_child, insert_child, remove_child}
use libatbus.Node.State.{
  Node, State, Family, Event, Timer, running, lost_parent, connecting_parent, node_up,
  endpoint_added, endpoint_removed, endpoint_reset, conn_disconnect, emit, is_child, is_brother,
  is_parent, peer_of, set_peer, Peer,
}

-- `NULL != res && res->get_id() == tid`
pub exact : ℕ → Option EndpointPtr → Option EndpointPtr
exact tid none = none
exact tid (some e) = if e.id == tid then some e else none

unfoldable pub get_endpoint : Family → ℕ → Option EndpointPtr
unfolding exact
get_endpoint f tid =
    if is_parent f tid
    then f.father
    else if is_brother f tid
    then exact tid (find_child f.brother tid)
    else if is_child f tid
    then exact tid (find_child f.children tid)
    else none

unfoldable pub on_actived : Node → Node
on_actived n =
    if n.actived
    then record n { state = running }
    else emit node_up (record n { state = running; actived = true })

unfoldable pub add_ping_timer : Node → EndpointPtr → Node
add_ping_timer n ep = if n.conf.ping_interval == 0 then n else record n {
  timer = record n.timer {
    ping_list = n.timer.ping_list ++ (n.timer.sec + n.conf.ping_interval, ep) ∷ [];
  };
}

waits_for_parent : State → Bool
waits_for_parent lost_parent = true
waits_for_parent connecting_parent = true
waits_for_parent _ = false

pub adopt : Node → EndpointPtr → Node
unfolding on_actived add_ping_timer waits_for_parent
adopt n ep =
    let n' = add_ping_timer (record n { family = record n.family { father = some ep } }) ep in
    emit (endpoint_added ep)
      (if waits_for_parent n'.state && n'.parent_reg_done then on_actived n' else n')

-- The end of `add_endpoint`, with the result of `insert_child`.
pub inserted : Node → Family → Bool → EndpointPtr → Node × Status
unfolding add_ping_timer
inserted n f true ep =
    (add_ping_timer (emit (endpoint_added ep) (record n { family = f })) ep, success)
inserted n f false ep = (n, atnode_mask_conflict)

pub add_brother : Node → EndpointPtr → Node × Status
unfolding inserted
add_brother n ep =
    let (coll, ok) = insert_child n.brother ep in
    inserted n (record n.family { brother = coll }) ok ep

pub add_child : Node → EndpointPtr → Node × Status
unfolding inserted
add_child n ep =
    let (coll, ok) = insert_child n.children ep in
    inserted n (record n.family { children = coll }) ok ep

-- `ep->get_children_mask() > self_->get_children_mask() && ep->is_child_node(get_id())`
unfoldable pub covers_self : Family → EndpointPtr → Bool
covers_self f ep = ltb f.self.children_mask ep.children_mask && is_child_node ep f.self.id

-- `ep` with its owner.
unfoldable pub add_endpoint : Node → Option (EndpointPtr × ℕ) → Node × Status
unfolding covers_self add_brother add_child adopt
add_endpoint n none = (n, params)
add_endpoint n (some (ep, owner)) =
    if not (n.handle == owner)
    then (n, params)
    else if covers_self n.family ep
    then elim n.father [ none ↦ (adopt n ep, success) | some p ↦ (n, atnode_invalid_id) ]
    else if is_brother n.family ep.id
    then add_brother n ep
    else if is_child n.family ep.id
    then add_child n ep
    else (n, atnode_invalid_id)

-- The events of `remove_child`: the endpoint that the iterator is at.
pub removed : Node → Family → Bool → Option EndpointPtr → Node × Status
removed n f true none = (record n { family = f }, success)
removed n f true (some ep) = (emit (endpoint_removed ep) (record n { family = f }), success)
removed n f false o = (n, atnode_not_found)

-- `on_endpoint_removed` of the father, who is known here.
pub lose_father : Node → Node
lose_father n =
    let n' = record n {
      family = record n.family { father = none };
      state = lost_parent;
      timer = record n.timer { father_opr_time_point = n.timer.sec + n.conf.retry_interval };
    } in
    elim n.father [ none ↦ n' | some p ↦ emit (endpoint_removed p) n' ]

pub remove_brother : Node → ℕ → Node × Status
unfolding removed
remove_brother n tid =
    let (coll, ok) = remove_child n.brother tid in
    removed n (record n.family { brother = coll }) ok (find_child n.brother tid)

pub remove_own_child : Node → ℕ → Node × Status
unfolding removed
remove_own_child n tid =
    let (coll, ok) = remove_child n.children tid in
    removed n (record n.family { children = coll }) ok (find_child n.children tid)

unfoldable pub remove_endpoint : Node → ℕ → Node × Status
unfolding lose_father remove_brother remove_own_child
remove_endpoint n tid =
    if is_parent n.family tid
    then (lose_father n, success)
    else if is_brother n.family tid
    then remove_brother n tid
    else if is_child n.family tid
    then remove_own_child n tid
    else (n, atnode_invalid_id)

unfoldable pub add_check_list : Node → EndpointPtr → Node
add_check_list n ep = if n.resetting then n else record n {
  timer = record n.timer { pending_check_list = n.timer.pending_check_list ++ ep ∷ [] };
}

is_connecting : State → Bool
is_connecting connecting_parent = true
is_connecting _ = false

-- `node::on_disconnect` of the connection with an address.
unfoldable pub on_disconnect : Node → List ℕ → Node
unfolding is_connecting
on_disconnect n address =
    if is_connecting n.state
      && (not (hostname_eq n.conf.father_address []) && hostname_eq n.conf.father_address address)
    then record n {
      state = lost_parent;
      timer = record n.timer { father_opr_time_point = n.timer.sec + n.conf.retry_interval };
    }
    else n

-- `DISCONNECTED` or `DISCONNECTING`
pub is_down : Select.State → Bool
is_down Select.disconnected = true
is_down Select.disconnecting = true
is_down _ = false

-- `connection::disconnect`; freeing the channel is an event.
unfoldable pub disconnect_connection : Node → Connection → Node × Connection
unfolding on_disconnect is_down
disconnect_connection n c = if is_down c.state then (n, c) else (
  on_disconnect (emit (conn_disconnect c) n) c.address,
  record c { state = Select.disconnected },
)

unfoldable pub disconnect_all : Node → List Connection → Node
disconnect_all n [] = n
disconnect_all n (c ∷ cs) = disconnect_all (disconnect_connection n c).0 cs

-- `endpoint::reset`. The list of endpoints to check keeps it, and the flags are cleared at the end.
unfoldable pub reset_endpoint : Node → EndpointPtr → Node
unfolding add_check_list disconnect_all
reset_endpoint n ep =
    let p = peer_of n ep in
    if p.endpoint.resetting
    then n
    else (let n' = disconnect_all n p.endpoint.data_conn in
        let cleared = record p.endpoint {
          ctrl_conn = none;
          data_conn = [];
          connection_sorted = false;
        } in
        let n'' = set_peer ep (record p { endpoint = cleared; global_router = false }) n' in
        add_check_list (emit (endpoint_reset ep) n'') ep)

pub is_father : Family → ℕ → Bool
is_father f id = elim f.father [ none ↦ false | some p ↦ id == p.id ]

drop_father : Node → Node
drop_father n = elim n.father [
  | none ↦ n
  | some p ↦
      let n' = reset_endpoint n p in record n' { family = record n'.family { father = none } }
]

-- Both branches of the source take the endpoint out of the table of the brothers.
unfoldable pub disconnect : Node → ℕ → Node × Status
unfolding reset_endpoint remove_brother is_father exact drop_father
disconnect n id =
    if is_father n.family id
    then (drop_father n, success)
    else elim (exact id (find_child n.brother id)) [
      | some ep ↦ ((remove_brother (reset_endpoint n ep) id).0, success)
      | none ↦ elim (exact id (find_child n.children id)) [
        | some ep ↦ ((remove_brother (reset_endpoint n ep) id).0, success)
        | none ↦ (n, atnode_not_found)
      ]
    ]

-- The new node, and whether the endpoint was removed.
unfoldable pub add_endpoint_fault : Node → EndpointPtr → Node × Bool
unfolding remove_endpoint
add_endpoint_fault n ep =
    let p = peer_of n ep in
    let n' = set_peer ep (record p { fault_count = p.fault_count + 1 }) n in
    if ltb n.conf.fault_tolerant (p.fault_count + 1)
    then ((remove_endpoint n' ep.id).0, true)
    else (n', false)
