-- ===== src/MsgHandler/Dispatch/Own.antt =====
-- `on_recv` and `dispatch_msg` of src/atbus_node.cpp and src/atbus_msg_handler.cpp where the connection
-- is null, beside the functions of Node/Send for a message to the node itself.
use libatbus.Base.{ℕ, ◌+◌, ◌∙◌, ap, ◌≡◌, refl, inl, inr, Option, none, some, Bool-cases, arith}
use libatbus.Status.{Status, success, is_error}
use libatbus.Endpoint.Select.{Connection}
use libatbus.Protocol.{
  Msg, Cmd, invalid, unnamed, data_transform_req, data_transform_rsp, custom_cmd_req, node_sync_req,
  node_sync_rsp, node_reg_req, node_reg_rsp, node_conn_syn, node_ping, node_pong,
}
use libatbus.Node.State.{Node}
use libatbus.Node.Send.{Env, handle_own, recv_own, is_named}
use libatbus.MsgHandler.Transfer.{on_recv_data_transfer_req, on_recv_data_transfer_rsp}
use libatbus.MsgHandler.Register.{on_recv_node_reg_req, on_recv_node_reg_rsp}
use libatbus.MsgHandler.Dispatch.{
  Result, handle, dispatch_msg, on_recv, judge, fault_of, clear_fault, on_recv_custom_cmd_req,
  on_recv_node_conn_syn, on_recv_node_ping, on_recv_node_pong, bound_to,
}

without_connection : Node × Msg × Status → Result
without_connection (n, m, res) = (n, none, m, res)

handle_none :
    (env : Env) (object : ℕ) (n : Node) (m : Msg) (c : Cmd)
    → handle env object n none m c ≡ without_connection (handle_own n m c)
unfolding handle handle_own without_connection on_recv_data_transfer_req on_recv_data_transfer_rsp
    on_recv_node_reg_req on_recv_node_reg_rsp on_recv_node_conn_syn on_recv_custom_cmd_req
    on_recv_node_ping on_recv_node_pong bound_to
handle_none env object n m invalid = refl
handle_none env object n m (unnamed c) = refl
handle_none env object n m data_transform_req = refl
handle_none env object n m data_transform_rsp = refl
handle_none env object n m custom_cmd_req = ground arith
handle_none env object n m node_sync_req = refl
handle_none env object n m node_sync_rsp = refl
handle_none env object n m node_reg_req = refl
handle_none env object n m node_reg_rsp = refl
handle_none env object n m node_conn_syn = refl
handle_none env object n m node_ping = ground arith
handle_none env object n m node_pong = ground arith

judge-none : (n : Node) (o : Option Msg) (res : Status) → judge n none o res ≡ n
unfolding judge fault_of clear_fault
judge-none n none res = ground arith
judge-none n (some m) res = ground arith

finish : Result → Node × Option Connection × Option Msg
finish (n, conn, m, res) = (judge n (bound_to conn) (some m) res, conn, some m)

finish_own : (r : Node × Msg × Status) → finish (without_connection r) ≡ (r.0, none, some r.1)
unfolding finish without_connection bound_to
finish_own (n, m, res) = ap (λ n'. (n', none, some m)) (judge-none n (some m) res)

-- `on_recv` of a message without a connection and without an error does what a node does with a
-- message that it sends to itself.
on_recv-recv_own :
    (env : Env) (object : ℕ) (n : Node) (m : Msg)
    → on_recv env object n none (some m) success success
      ≡ ((recv_own n m).0, none, some (recv_own n m).1)
unfolding on_recv dispatch_msg recv_own finish is_error
on_recv-recv_own env object n m = elim (Bool-cases (is_named m.head.cmd)) [
  | inl e ↦
      let n' : Node = record n { dispatch_times = n.dispatch_times + 1 } in
      rw e (
        ap finish (handle_none env object n' m m.head.cmd)
        ∙ finish_own (handle_own n' m m.head.cmd))
  | inr e ↦
      rw e
        (ap finish (handle_none env object n m m.head.cmd) ∙ finish_own (handle_own n m m.head.cmd))
]
