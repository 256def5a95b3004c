-- ===== src/Node/Send.antt =====
-- How a node sends: the send functions of src/atbus_node.cpp with those of msg_handler in
-- src/atbus_msg_handler.cpp which they call, on_recv for a message that a node sends to itself, and
-- the ping of an endpoint. The handler `on_debug` is not set.
pub mod Passed
use libatbus.Base.{
  ℕ, ◌+◌, ◌*◌, ◌/◌, ◌%◌, Bool, true, false, Option, none, some, List, [], ◌∷◌, ◌++◌, length,
  if◌then◌else◌, ◌==◌, leb,
}
use libatbus.Status.{
  Status, success, not_inited, buff_limit, bad_data, atnode_invalid_id, atnode_no_connection,
  atnode_invalid_msg, atnode_fault_tolerant, is_error,
}
use libatbus.Endpoint.Domain.{EndpointPtr}
use libatbus.Endpoint.Select
use libatbus.Endpoint.Select.{Endpoint, Connection, get_ctrl_connection, get_data_connection}
use libatbus.Protocol.{
  Msg, Cmd, Body, ForwardData, CustomCommandData, empty_body, init, invalid, unnamed,
  data_transform_req, data_transform_rsp, custom_cmd_req, node_sync_req, node_sync_rsp,
  node_reg_req, node_reg_rsp, node_conn_syn, node_ping, node_pong,
}
use libatbus.Node.State.{
  Node, emit, get_id, peer_of, set_peer, push, recv_msg, custom_cmd, on_error,
}
use libatbus.Node.Members.{add_endpoint_fault}
use libatbus.Node.Route.{here, to, invalid_id, no_connection, next_hop}

-- The code that a node calls and that is not its own: the size that msgpack packs a message to, what
-- the channel of a connection answers to a push, what opening an address gives, and the allocator of
-- sequence numbers.
pub record Env : Type 0 where
  pub packed_size : Msg → ℕ
  pub push_fn : Connection → Msg → Status
  pub open_address : List ℕ → Status × Connection
  pub inc : ℕ → ℕ

-- The loop runs at most twice: the allocator does not give 0 twice in a row.
unfoldable pub alloc_msg_seq : Env → Node → Node × ℕ
alloc_msg_seq env n =
    let ret = env.inc n.seq in
    let ret' = if ret == 0 then env.inc ret else ret in (record n { seq = ret' }, ret')

-- Neither `CONNECTED` nor `HANDSHAKING`
pub cannot_push : Select.State → Bool
cannot_push Select.connected = false
cannot_push Select.handshaking = false
cannot_push _ = true

-- `msg_handler::send_msg` with `connection::push`.
unfoldable pub push_msg : Env → Node → Connection → Msg → Node × Status
unfolding cannot_push
push_msg env n conn m =
    if leb n.conf.msg_size (env.packed_size m)
    then (n, buff_limit)
    else if cannot_push conn.state
    then (n, not_inited)
    else (emit (push conn m) n, env.push_fn conn m)

-- `dispatch_msg` where the connection is null, as it is for a message to the node itself. This and
-- `recv_own` are the same code as `dispatch_msg` and `on_recv` in MsgHandler/Dispatch, which come after
-- the send functions that the handlers call; MsgHandler/Dispatch/Own compares them.
unfoldable pub handle_own : Node → Msg → Cmd → Node × Msg × Status
handle_own n m invalid = (n, m, atnode_invalid_msg)
handle_own n m (unnamed c) = (n, m, atnode_invalid_msg)
handle_own n m data_transform_req = (emit (on_error bad_data) n, m, bad_data)
handle_own n m data_transform_rsp = (emit (on_error bad_data) n, m, bad_data)
handle_own n m custom_cmd_req = elim m.body.custom [
  | none ↦ (emit (on_error bad_data) n, m, bad_data)
  | some c ↦ (emit (custom_cmd c.from c.commands) n, m, success)
]
handle_own n m node_sync_req = (n, m, success)
handle_own n m node_sync_rsp = (n, m, success)
handle_own n m node_reg_req = (n, m, success)
handle_own n m node_reg_rsp = (n, m, bad_data)
handle_own n m node_conn_syn = (emit (on_error bad_data) n, m, bad_data)
handle_own n m node_ping =
    let m' = init m (get_id n) node_pong 0 success m.head.sequence in
    elim m.body.ping [ none ↦ (n, m', bad_data) | some t ↦ (n, m', success) ]
handle_own n m node_pong = elim m.body.ping [ none ↦ (n, m, bad_data) | some t ↦ (n, m, success) ]

unfoldable pub is_named : Cmd → Bool
is_named invalid = false
is_named (unnamed c) = false
is_named _ = true

-- `on_recv(NULL, &m, 0, 0)`
unfoldable pub recv_own : Node → Msg → Node × Msg
unfolding handle_own is_named
recv_own n m =
    let n' =
      if is_named m.head.cmd then record n { dispatch_times = n.dispatch_times + 1 } else n in
    let (n'', m', res) = handle_own n' m m.head.cmd in (n'', m')

-- The member function that `send_msg` is given.
pub data GetConnectionFn : Type 0 where
  data_connection ctrl_connection : GetConnectionFn

pub pick : GetConnectionFn → Endpoint → Endpoint → Endpoint × Option Connection
pick ctrl_connection self ep = (ep, get_ctrl_connection self (some ep))
pick data_connection self ep =
    let (o, conn) = get_data_connection self (some ep) in
    elim o [ none ↦ (ep, conn) | some ep' ↦ (ep', conn) ]

-- `router.push_back(get_id())` and `head.src_bus_id = get_id()`
unfoldable pub stamp : ℕ → Msg → Msg
stamp id m = record m {
  head = record m.head { src_bus_id = id };
  body = record m.body {
    forward = elim m.body.forward [
      | none ↦ none
      | some f ↦ some (record f { router = f.router ++ id ∷ [] })
    ];
  };
}

-- The node and the message after the call, the result and `ep_out`.
pub record Sent : Type 0 where
  pub node : Node
  pub msg : Msg
  pub status : Status
  pub ep_out : Option EndpointPtr

unfoldable pub send_to : Env → Node → EndpointPtr → Msg → GetConnectionFn → Sent
unfolding pick stamp push_msg
send_to env n ep m fn =
    let p = peer_of n ep in
    let (endpoint, conn) = pick fn (peer_of n n.self).endpoint p.endpoint in
    let n' = set_peer ep (record p { endpoint = endpoint }) n in
    elim conn [
      | none ↦ record { node = n'; msg = m; status = atnode_no_connection; ep_out = some ep }
      | some c ↦
          let m' = stamp (get_id n) m in
          let (n'', res) = push_msg env n' c m' in
          record { node = n''; msg = m'; status = res; ep_out = some ep }
    ]

unfoldable pub send_msg : Env → Node → ℕ → Msg → GetConnectionFn → Sent
unfolding send_to recv_own
send_msg env n tid m fn = elim (next_hop n.family (peer_of n n.self).global_router tid) [
  | here ↦
      let (n', m') = recv_own n m in record { node = n'; msg = m'; status = success; ep_out = none }
  | to ep ↦ send_to env n ep m fn
  | invalid_id ↦ record { node = n; msg = m; status = atnode_invalid_id; ep_out = none }
  | no_connection ↦ record { node = n; msg = m; status = atnode_no_connection; ep_out = none }
]

-- `protocol::msg m; m.init(…);`
abbrev pub new_msg : ℕ → Cmd → ℕ → Status → ℕ → Body → Msg
new_msg src_bus_id cmd type ret seq body = record {
  head = record { cmd = cmd; type = type; ret = ret; sequence = seq; src_bus_id = src_bus_id };
  body = body;
}

unfoldable pub send_data : Env → Node → ℕ → ℕ → List ℕ → Bool → Node × Status
unfolding alloc_msg_seq
send_data env n tid type buffer require_rsp =
    if leb n.conf.msg_size (length buffer)
    then (n, buff_limit)
    else if tid == get_id n
    then (emit (recv_msg (some n.self.handle) type buffer) n, success)
    else (let (n', seq) = alloc_msg_seq env n in
        let forward : ForwardData = record {
          from = get_id n;
          to = tid;
          router = [];
          content = buffer;
          require_rsp = require_rsp;
        } in
        let body : Body = record empty_body { forward = some forward } in
        let sent =
          send_msg env n' tid (new_msg (get_id n) data_transform_req type success seq body)
            data_connection in
        (sent.node, sent.status))

-- `sizeof(custom_command_data)` is 32.
pub sum_len : List (List ℕ) → ℕ
sum_len [] = 32
sum_len (b ∷ bs) = length b + sum_len bs

unfoldable pub send_custom_cmd : Env → Node → ℕ → List (List ℕ) → Node × Status
unfolding alloc_msg_seq sum_len
send_custom_cmd env n tid arr =
    if leb n.conf.msg_size (sum_len arr)
    then (n, buff_limit)
    else (let (n', seq) = alloc_msg_seq env n in
        let custom : CustomCommandData = record { from = get_id n; commands = arr } in
        let body : Body = record empty_body { custom = some custom } in
        let sent =
          send_msg env n' tid (new_msg (get_id n) custom_cmd_req 0 success seq body)
            data_connection in
        (sent.node, sent.status))

-- `(sec / 1000) * 1000 + (usec / 1000) % 1000`
unfoldable pub time_point : Node → ℕ
time_point n = n.timer.sec / 1000 * 1000 + n.timer.usec / 1000 % 1000

unfoldable pub send_ping : Env → Node → Connection → ℕ → Node × Status
unfolding push_msg time_point
send_ping env n conn seq =
    push_msg env n conn (
      new_msg (get_id n) node_ping 0 success seq (record empty_body { ping = some (time_point n) }))

-- The node after the check of the last ping, and whether the endpoint is gone.
check_ping : Node → EndpointPtr → Node × Bool
check_ping n ep =
    if (peer_of n ep).unfinished_ping == 0 then (n, false) else add_endpoint_fault n ep

ping_result : Node → EndpointPtr → ℕ → Status → Node × Status
ping_result n ep seq res =
    if is_error res
    then ((add_endpoint_fault n ep).0, res)
    else (set_peer ep (record (peer_of n ep) { unfinished_ping = seq }) n, success)

unfoldable pub ping_endpoint : Env → Node → EndpointPtr → Node × Status
unfolding check_ping ping_result send_ping
ping_endpoint env n ep =
    let (n', gone) = check_ping n ep in
    if gone
    then (n', atnode_fault_tolerant)
    else elim (get_ctrl_connection (peer_of n' n'.self).endpoint (some (peer_of n' ep).endpoint)) [
      | none ↦ (n', success)
      | some c ↦
          let seq = env.inc n'.seq in
          let (n'', res) = send_ping env (record n' { seq = seq }) c seq in
          ping_result n'' ep seq res
    ]
