-- ===== src/MsgHandler/Register.antt =====
-- Registration in src/atbus_msg_handler.cpp: `send_reg`, `on_recv_node_reg_req` and
-- `on_recv_node_reg_rsp`. The handlers return the connection too, which they change.
pub mod Masks
use libatbus.Base.{
  ℕ, ◌+◌, ◌≤◌, Bool, true, false, not, ◌&&◌, ◌||◌, Option, none, some, List, [], ◌∷◌, ◌++◌,
  if◌then◌else◌, ◌==◌, leb, ltb,
}
use libatbus.Status.{
  Status, success, params, bad_data, atnode_bus_id_not_match, atnode_id_conflict,
  atnode_no_connection, access_deny, atnode_mask_conflict, is_error,
}
use libatbus.Endpoint.Domain.{EndpointPtr, get_children_min_id, get_children_max_id}
use libatbus.Endpoint.Select
use libatbus.Endpoint.Select.{Endpoint, Connection, add_connection, hostname_eq, is_connected}
use libatbus.Protocol.{Msg, Cmd, RegData, empty_body, node_reg_req, node_reg_rsp}
use libatbus.Node.State
use libatbus.Node.State.{
  Node, Peer, Event, emit, get_id, peer_of, set_peer, on_error, on_reg, node_down, conn_reset,
  conn_connect, is_child, is_parent,
}
use libatbus.Node.Members.{
  get_endpoint, add_endpoint, add_check_list, reset_endpoint, disconnect_connection, on_actived,
  is_down,
}
use libatbus.Node.Send.{Env, push_msg, alloc_msg_seq, new_msg}
use libatbus.Node.Links.{bind_to, connect_channels, reset_connection}

-- The channels that a node tells of are the addresses it listens to.
unfoldable pub send_reg : Env → Cmd → Node → Connection → Status → ℕ → Node × Status
unfolding push_msg alloc_msg_seq
send_reg env cmd n conn ret_code seq =
    let own = peer_of n n.self in
    let (n', seq') = if seq == 0 then alloc_msg_seq env n else (n, seq) in
    let reg : RegData = record {
      bus_id = get_id n;
      pid = own.endpoint.pid;
      hostname = own.endpoint.hostname;
      channels = own.listen_address;
      children_id_mask = n.self.children_mask;
      has_global_tree = own.global_router;
    } in
    push_msg env n' conn
      (new_msg (get_id n) cmd 0 ret_code seq' (record empty_body { reg = some reg }))

-- The node, the connection and `rsp_code` at the end of the block of `on_recv_node_reg_req`.
abbrev pub Registered : Type 0
Registered = Node × Connection × Status

-- A connection that is connected already.
unfoldable pub register_connected : Node → Connection → RegData → Registered
unfolding reset_connection
register_connected n conn reg =
    let matches : Bool = elim conn.binding [
      | none ↦ false
      | some h ↦ (n.peer h).this.id == reg.bus_id
    ] in
    if matches
    then (n, conn, success)
    else (let (n', conn') = reset_connection (emit (on_error atnode_bus_id_not_match) n) conn in
        (n', conn', atnode_bus_id_not_match))

-- A further connection of an endpoint that is known.
unfoldable pub register_known : Node → EndpointPtr → Connection → RegData → Registered
unfolding bind_to
register_known n ep conn reg =
    let p = peer_of n ep in
    if not (p.endpoint.pid == reg.pid) || not (hostname_eq p.endpoint.hostname reg.hostname)
    then (emit (on_error atnode_id_conflict) n, conn, atnode_id_conflict)
    else (let (n', conn', ok) = bind_to n ep conn conn.access_share_host in
        if ok
        then (n', conn', success)
        else (emit (on_error atnode_no_connection) n', conn', atnode_no_connection))

-- The checks on a new child.
unfoldable pub child_check : Node → RegData → Status
child_check n reg =
    if not (is_child n.family reg.bus_id)
    then success
    else if reg.has_global_tree && not (peer_of n n.self).global_router
    then access_deny
    else if leb n.self.children_mask reg.children_id_mask
    then atnode_mask_conflict
    else success

-- The object of `endpoint::create`, at an address that no other object has.
abbrev pub new_peer : EndpointPtr → RegData → Peer
new_peer ep reg = record {
  this = ep;
  endpoint = record {
    handle = ep.handle;
    hostname = reg.hostname;
    pid = reg.pid;
    resetting = false;
    connection_sorted = false;
    ctrl_conn = none;
    data_conn = [];
  };
  global_router = false;
  listen_address = [];
  fault_count = 0;
  unfinished_ping = 0;
  ping_delay = 0;
  last_pong_time = 0;
}

abbrev pub new_endpoint : ℕ → RegData → EndpointPtr
new_endpoint handle reg = record {
  handle = handle;
  id = reg.bus_id;
  children_mask = reg.children_id_mask;
}

-- A new endpoint that `add_endpoint` has accepted.
settle_new : Env → Node → EndpointPtr → Connection → RegData → Registered
unfolding bind_to
settle_new env n ep conn reg =
    let flagged = set_peer ep (record (peer_of n ep) { global_router = reg.has_global_tree }) n in
    let (n', conn', ok) = bind_to flagged ep conn false in
    let (n'', has_data_conn) = connect_channels env n' ep reg.channels false in
    (if has_data_conn then n'' else add_check_list n'' ep, conn', success)

unfoldable pub register_new : Env → ℕ → Node → Connection → RegData → Registered
unfolding settle_new child_check
register_new env handle n conn reg =
    let res = child_check n reg in
    let ep = new_endpoint handle reg in
    let (n', added) = add_endpoint (set_peer ep (new_peer ep reg) n) (some (ep, n.handle)) in
    if is_error res
    then (n, conn, res)
    else if is_error added
    then (emit (on_error added) n', conn, added)
    else settle_new env n' ep conn reg

-- The block of `on_recv_node_reg_req`; `handle` is the address of the object that it may create.
unfoldable pub register : Env → ℕ → Node → Connection → RegData → Registered
unfolding register_connected register_known register_new
register env handle n conn reg =
    if is_connected conn.state
    then register_connected n conn reg
    else elim (get_endpoint n.family reg.bus_id) [
      | some ep ↦ register_known n ep conn reg
      | none ↦ register_new env handle n conn reg
    ]

-- The answer over a file descriptor, with `conn->disconnect()` after an error.
unfoldable pub respond : Env → Msg → Registered → Node × Option Connection × Status
unfolding send_reg disconnect_connection
respond env m (n, conn, rsp_code) =
    if conn.reg_fd
    then (let (n', ret) = send_reg env node_reg_rsp n conn rsp_code m.head.sequence in
        let (n'', conn') =
          if is_error rsp_code then disconnect_connection n' conn else (n', conn) in
        (n'', some conn', ret))
    else (n, some conn, success)

unfoldable pub on_recv_node_reg_req :
    Env → ℕ → Node → Option Connection → Msg → Node × Option Connection × Status
unfolding register respond
on_recv_node_reg_req env handle n none m = (n, none, success)
on_recv_node_reg_req env handle n (some conn) m = elim m.body.reg [
  | none ↦ respond env m (n, conn, bad_data)
  | some reg ↦ respond env m (register env handle n conn reg)
]

-- `node::shutdown` with `on_shutdown`.
unfoldable pub shutdown : Node → Status → Node
shutdown n reason = record (if n.actived then emit (node_down reason) n else n) { shut_down = true }

-- A refusal; that of the father stops a node that has never been active.
refused : Node → Connection → Status → Node × Connection × Status
unfolding shutdown
refused n conn ret =
    let checked : Node = elim conn.binding [
      | none ↦ n
      | some h ↦ add_check_list n (n.peer h).this
    ] in
    let (n', conn') = disconnect_connection (emit (on_error ret) checked) conn in
    if hostname_eq conn'.address n'.conf.father_address && not n'.actived
    then (shutdown n' ret, conn', ret)
    else (n', conn', ret)

is_connecting_parent : State.State → Bool
is_connecting_parent State.connecting_parent = true
is_connecting_parent _ = false

-- The father is known already, or the id of this node lies in the domain of the one that answers.
accepted : Node → RegData → Node
accepted n reg =
    if is_parent n.family reg.bus_id
    then on_actived (record n { parent_reg_done = true })
    else if not (get_id n == reg.bus_id)
        && (leb (get_children_min_id reg.bus_id reg.children_id_mask) (get_id n)
            && leb (get_id n) (get_children_max_id reg.bus_id reg.children_id_mask))
    then record n { parent_reg_done = true }
    else n

-- Without `reg` the source reads through a null pointer; here nothing happens.
unfoldable pub on_recv_node_reg_rsp :
    Node → Option Connection → Msg → Node × Option Connection × Status
unfolding refused accepted is_connecting_parent
on_recv_node_reg_rsp n none m = (n, none, bad_data)
on_recv_node_reg_rsp n (some conn) m =
    let told = emit (on_reg m.head.ret) n in
    if is_error m.head.ret
    then (let (n', conn', res) = refused told conn m.head.ret in (n', some conn', res))
    else if is_connecting_parent n.state
    then (elim m.body.reg [ none ↦ told | some reg ↦ accepted told reg ], some conn, success)
    else (told, some conn, success)
