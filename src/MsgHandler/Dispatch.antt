-- ===== src/MsgHandler/Dispatch.antt =====
-- `dispatch_msg` and the other handlers of src/atbus_msg_handler.cpp, with `node::connect` and
-- `node::on_recv`.
pub mod Own
mod Tests
use libatbus.Base.{
  ℕ, ◌+◌, ◌-◌, Bool, true, false, not, ◌&&◌, ◌||◌, Option, none, some, List, [], ◌∷◌, if◌then◌else◌,
  ◌==◌, leb, ltb,
}
use libatbus.Status.{Status, success, bad_data, access_deny, atnode_invalid_msg, is_error}
use libatbus.Endpoint.Select.{Connection}
use libatbus.Protocol.{
  Msg, Cmd, init, invalid, unnamed, data_transform_req, data_transform_rsp, custom_cmd_req,
  node_sync_req, node_sync_rsp, node_reg_req, node_reg_rsp, node_conn_syn, node_ping, node_pong,
}
use libatbus.Node.State.{Node, Peer, emit, get_id, set_peer, on_error, custom_cmd, conn_connect}
use libatbus.Node.Members.{add_endpoint_fault}
use libatbus.Node.Send.{Env, Sent, send_msg, ctrl_connection, is_named, time_point}
use libatbus.Node.Links.{connect}
use libatbus.MsgHandler.Transfer.{on_recv_data_transfer_req, on_recv_data_transfer_rsp}
use libatbus.MsgHandler.Register.{on_recv_node_reg_req, on_recv_node_reg_rsp}

-- The node, the connection and the message after a handler, and its result.
abbrev pub Result : Type 0
Result = Node × Option Connection × Msg × Status

pub on_recv_custom_cmd_req : Node → Msg → Node × Status
on_recv_custom_cmd_req n m = elim m.body.custom [
  | none ↦ (emit (on_error bad_data) n, bad_data)
  | some c ↦ (emit (custom_cmd c.from c.commands) n, success)
]

connect_to : Env → Node → List ℕ → Node × Status
unfolding connect
connect_to env n address =
    let (n', ret) = connect env n address in
    (if is_error ret then emit (on_error ret) n' else n', success)

pub on_recv_node_conn_syn : Env → Node → Option Connection → Msg → Node × Status
unfolding connect_to
on_recv_node_conn_syn env n none m = (emit (on_error bad_data) n, bad_data)
on_recv_node_conn_syn env n (some conn) m = elim m.body.conn [
  | none ↦ (emit (on_error bad_data) n, bad_data)
  | some address ↦ connect_to env n address
]

bound_to : Option Connection → Option ℕ
bound_to none = none
bound_to (some conn) = conn.binding

-- The message that came is sent back as a pong.
pub on_recv_node_ping : Env → Node → Option Connection → Msg → Node × Msg × Status
unfolding bound_to
on_recv_node_ping env n conn m =
    let m' = init m (get_id n) node_pong 0 success m.head.sequence in
    elim m.body.ping [
      | none ↦ (n, m', bad_data)
      | some t ↦ elim (bound_to conn) [
        | none ↦ (n, m', success)
        | some h ↦
            let sent = send_msg env n (n.peer h).this.id m' ctrl_connection in
            (sent.node, sent.msg, sent.status)
      ]
    ]

-- Only the answer to the last ping counts. The difference of two times does not go below 0 here.
pong_of : Node → Peer → ℕ → ℕ → Node
pong_of n p sequence sent_at =
    if sequence == p.unfinished_ping
    then set_peer p.this
        (record p {
          unfinished_ping = 0;
          ping_delay = time_point n - sent_at;
          last_pong_time = n.timer.sec;
        })
        n
    else n

pub on_recv_node_pong : Node → Option Connection → Msg → Node × Status
unfolding bound_to pong_of
on_recv_node_pong n conn m = elim m.body.ping [
  | none ↦ (n, bad_data)
  | some t ↦ elim (bound_to conn) [
    | none ↦ (n, success)
    | some h ↦ (pong_of n (n.peer h) m.head.sequence t, success)
  ]
]

-- The table of handlers.
pub handle : Env → ℕ → Node → Option Connection → Msg → Cmd → Result
handle env object n conn m invalid = (n, conn, m, atnode_invalid_msg)
handle env object n conn m (unnamed c) = (n, conn, m, atnode_invalid_msg)
handle env object n conn m data_transform_req =
    let (n', m', res) = on_recv_data_transfer_req env n conn m in (n', conn, m', res)
handle env object n conn m data_transform_rsp =
    let (n', m', res) = on_recv_data_transfer_rsp n conn m in (n', conn, m', res)
handle env object n conn m custom_cmd_req =
    let (n', res) = on_recv_custom_cmd_req n m in (n', conn, m, res)
handle env object n conn m node_sync_req = (n, conn, m, success)
handle env object n conn m node_sync_rsp = (n, conn, m, success)
handle env object n conn m node_reg_req =
    let (n', conn', res) = on_recv_node_reg_req env object n conn m in (n', conn', m, res)
handle env object n conn m node_reg_rsp =
    let (n', conn', res) = on_recv_node_reg_rsp n conn m in (n', conn', m, res)
handle env object n conn m node_conn_syn =
    let (n', res) = on_recv_node_conn_syn env n conn m in (n', conn, m, res)
handle env object n conn m node_ping =
    let (n', m', res) = on_recv_node_ping env n conn m in (n', conn, m', res)
handle env object n conn m node_pong =
    let (n', res) = on_recv_node_pong n conn m in (n', conn, m, res)

-- `object` is the address at which `on_recv_node_reg_req` may create an endpoint.
unfoldable pub dispatch_msg :
    Env → ℕ → Node → Option Connection → Option Msg → Node × Option Connection × Option Msg × Status
unfolding handle
dispatch_msg env object n conn none = (n, conn, none, bad_data)
dispatch_msg env object n conn (some m) =
    let n' =
      if is_named m.head.cmd then record n { dispatch_times = n.dispatch_times + 1 } else n in
    let (n'', conn', m', res) = handle env object n' conn m m.head.cmd in (n'', conn', some m', res)

-- `add_endpoint_fault` of the endpoint of a connection, if it has one.
pub fault_of : Node → Option ℕ → Node
fault_of n none = n
fault_of n (some h) = (add_endpoint_fault n (n.peer h).this).0

clear_fault : Node → Option ℕ → Node
clear_fault n none = n
clear_fault n (some h) = let p = n.peer h in set_peer p.this (record p { fault_count = 0 }) n

-- The end of `on_recv`, after a message was handled.
judge : Node → Option ℕ → Option Msg → Status → Node
judge n bound none res = if is_error res then fault_of n bound else n
judge n bound (some m) res =
    if is_error res || is_error m.head.ret then fault_of n bound else clear_fault n bound

unfoldable pub on_recv :
    Env
    → ℕ
    → Node
    → Option Connection
    → Option Msg
    → Status
    → Status
    → Node × Option Connection × Option Msg
unfolding dispatch_msg fault_of clear_fault judge bound_to
on_recv env object n conn m status errcode =
    if is_error status || is_error errcode
    then (fault_of (emit (on_error status) n) (bound_to conn), conn, m)
    else (let (n', conn', m', res) = dispatch_msg env object n conn m in
        (judge n' (bound_to conn') m' res, conn', m'))
