-- ===== src/MsgHandler/Transfer.antt =====
-- `on_recv_data_transfer_req` and `on_recv_data_transfer_rsp` of src/atbus_msg_handler.cpp, with
-- `send_transfer_rsp`. A handler returns the node, the message, which it may change, and its result.
pub mod Ttl
use libatbus.Base.{
  ℕ, ◌+◌, ◌≤◌, Bool, true, false, not, ◌&&◌, ◌||◌, Option, none, some, List, [], ◌∷◌, length,
  if◌then◌else◌, ◌==◌, leb, ltb,
}
use libatbus.Status.{Status, success, bad_data, atnode_ttl, is_error}
use libatbus.Endpoint.Domain.{EndpointPtr}
use libatbus.Endpoint.Select.{Connection}
use libatbus.Protocol.{Msg, ForwardData, empty_body, init, data_transform_rsp, node_conn_syn}
use libatbus.Node.State.{
  Node, Family, emit, get_id, peer_of, recv_msg, send_data_failed, on_error, is_child, is_brother,
  is_parent,
}
use libatbus.Node.Send.{
  Env, Sent, send_msg, alloc_msg_seq, new_msg, data_connection, ctrl_connection,
}
use libatbus.Node.Links.{mem, shm, has_scheme}

abbrev pub Handled : Type 0
Handled = Node × Msg × Status

abbrev pub handled : Sent → Handled
handled s = (s.node, s.msg, s.status)

-- With the forward data of `m`.
unfoldable pub send_transfer_rsp : Env → Node → Msg → ForwardData → Status → Handled
send_transfer_rsp env n m fwd ret_code =
    let m' = init m (get_id n) data_transform_rsp 0 ret_code m.head.sequence in
    let back : ForwardData = record fwd { to = fwd.from; from = get_id n } in
    handled (
      send_msg env n fwd.from (record m' { body = record m'.body { forward = some back } })
        ctrl_connection)

-- The first address that a control connection can use; the empty one if there is none.
pub first_address : List (List ℕ) → List ℕ
first_address [] = []
first_address (a ∷ as') =
    if not (has_scheme mem a) && not (has_scheme shm a) then a else first_address as'

-- The node from which the message came is told to connect to an address directly.
syn_to : Env → Node → Msg → Status → ℕ → List ℕ → Handled
syn_to env n m res direct_from address =
    let (n', seq) = alloc_msg_seq env n in
    let syn =
      new_msg (get_id n) node_conn_syn 0 success seq (record empty_body { conn = some address }) in
    elim address [
      | [] ↦ (n', m, res)
      | c ∷ cs ↦
          let sent = send_msg env n' direct_from syn ctrl_connection in (sent.node, m, sent.status)
    ]

syn_for : Env → ℕ → Sent → Option EndpointPtr → Handled
syn_for env direct_from s none = handled s
syn_for env direct_from s (some e) =
    if is_child s.node.family direct_from && is_child s.node.family e.id
    then syn_to env s.node s.msg s.status direct_from
        (first_address (peer_of s.node e).listen_address)
    else handled s

-- The father, if the message did not come from him and did not go to him.
retry_target : Sent → ℕ → Option EndpointPtr
retry_target s to =
    if is_error s.status
      && (not (is_parent s.node.family s.msg.head.src_bus_id) && is_brother s.node.family to)
    then elim s.node.father [
      | none ↦ none
      | some p ↦ elim s.ep_out [
        | none ↦ some p
        | some e ↦ if is_parent s.node.family e.id then none else some p
      ]
    ]
    else none

retry : Env → Sent → ℕ → Sent
retry env s to = elim (retry_target s to) [
  | none ↦ s
  | some p ↦ send_msg env s.node p.id s.msg data_connection
]

-- `if (res < 0) ATBUS_FUNC_NODE_ERROR(…); return res;`
report : Handled → Handled
report (n, m, res) = if is_error res then (emit (on_error res) n, m, res) else (n, m, res)

answer : Env → Sent → Handled
answer env s = elim s.msg.body.forward [
  | none ↦ handled s
  | some fwd ↦
      if is_error s.status || fwd.require_rsp
      then send_transfer_rsp env s.node s.msg fwd s.status
      else handled s
]

-- The end of `on_recv_data_transfer_req`, after the message was forwarded.
forwarded : Env → ℕ → ℕ → Sent → Handled
forwarded env direct_from to s =
    if not (is_error s.status) && is_child s.node.family to
    then syn_for env direct_from s s.ep_out
    else report (answer env (retry env s to))

-- The branch for a message to this node.
deliver : Env → Node → Connection → Msg → ForwardData → Handled
deliver env n conn m fwd =
    let n' = emit (recv_msg conn.binding m.head.type fwd.content) n in
    if fwd.require_rsp then send_transfer_rsp env n' m fwd success else (n', m, success)

unfoldable pub forward_req : Env → Node → Connection → Msg → ForwardData → Handled
unfolding deliver forwarded syn_for syn_to report answer retry retry_target send_transfer_rsp
forward_req env n conn m fwd =
    if fwd.to == get_id n
    then deliver env n conn m fwd
    else if leb n.conf.ttl (length fwd.router)
    then send_transfer_rsp env n m fwd atnode_ttl
    else forwarded env m.head.src_bus_id fwd.to (send_msg env n fwd.to m data_connection)

unfoldable pub on_recv_data_transfer_req : Env → Node → Option Connection → Msg → Handled
unfolding forward_req
on_recv_data_transfer_req env n none m = (emit (on_error bad_data) n, m, bad_data)
on_recv_data_transfer_req env n (some conn) m = elim m.body.forward [
  | none ↦ (emit (on_error bad_data) n, m, bad_data)
  | some fwd ↦ forward_req env n conn m fwd
]

unfoldable pub on_recv_data_transfer_rsp : Node → Option Connection → Msg → Handled
on_recv_data_transfer_rsp n none m = (emit (on_error bad_data) n, m, bad_data)
on_recv_data_transfer_rsp n (some conn) m = elim m.body.forward [
  | none ↦ (emit (on_error bad_data) n, m, bad_data)
  | some fwd ↦ (emit (send_data_failed m) (emit (on_error m.head.ret) n), m, success)
]
