-- ===== src/MsgHandler/Transfer/Ttl.antt =====
-- The limit on the nodes that a data message passes.
use libatbus.Base.{
  ℕ, ◌+◌, ◌-◌, ◌≤◌, ◌≡◌, inl, inr, subst, sym, ◌∙◌, false, not, ◌&&◌, ◌||◌, Option, none, some,
  List, [], ◌∷◌, length, All, arith, Bool-cases, Option-cases, some_inj, on_either, leb, ◌==◌,
}
use libatbus.Status.{Status, is_error, success, atnode_ttl}
use libatbus.Endpoint.Domain.{EndpointPtr}
use libatbus.Endpoint.Select.{Connection}
use libatbus.Protocol.{Msg, ForwardData, init, data_transform_req}
use libatbus.Node.State.{Node, emit, get_id, peer_of, is_child, recv_msg}
use libatbus.Node.Send.{
  Env, Sent, GetConnectionFn, data_connection, ctrl_connection, send_msg, alloc_msg_seq,
}
use libatbus.MsgHandler.Transfer.{
  Handled, send_transfer_rsp, syn_to, syn_for, retry_target, retry, report, answer, forwarded,
  deliver, forward_req, on_recv_data_transfer_req, first_address,
}
use libatbus.Node.Send.Passed.{Brief, Short, Brief-mono, send_msg-Kept}

-- A message of another kind may have passed any number of nodes.
other-Short :
    (env : Env) (n : Node) (tid : ℕ) (m : Msg) (fn : GetConnectionFn) (k : ℕ)
    → ¬ (m.head.cmd ≡ data_transform_req)
    → All (Short (k + 1)) n.log
    → All (Short (k + 1)) (send_msg env n tid m fn).node.log
other-Short env n tid m fn k other h =
    (send_msg-Kept env n tid m fn (k + 1) k (omega arith) (h, λ f c e. absurd (other c))).0

rsp-Short :
    (env : Env) (n : Node) (m : Msg) (fwd : ForwardData) (ret_code : Status) (k : ℕ)
    → All (Short (k + 1)) n.log
    → All (Short (k + 1)) (send_transfer_rsp env n m fwd ret_code).0.log
unfolding send_transfer_rsp init
rsp-Short env n m fwd ret k h = other-Short env n fwd.from _ ctrl_connection k (λ c. cc c) h

syn_to-Short :
    (env : Env) (n : Node) (m : Msg) (res : Status) (direct_from : ℕ) (address : List ℕ) (k : ℕ)
    → All (Short (k + 1)) n.log
    → All (Short (k + 1)) (syn_to env n m res direct_from address).0.log
unfolding syn_to alloc_msg_seq
syn_to-Short env n m res d [] k h = h
syn_to-Short env n m res d (c ∷ cs) k h = other-Short env _ d _ ctrl_connection k (λ c. cc c) h

syn_for-Short :
    (env : Env) (direct_from : ℕ) (s : Sent) (o : Option EndpointPtr) (k : ℕ)
    → All (Short (k + 1)) s.node.log
    → All (Short (k + 1)) (syn_for env direct_from s o).0.log
unfolding syn_for
syn_for-Short env d s none k h = h
syn_for-Short env d s (some e) k h =
    elim (Bool-cases (is_child s.node.family d && is_child s.node.family e.id)) [
      | inl both ↦
          rw (both, syn_for)
            (syn_to-Short env s.node s.msg s.status d
              (first_address (peer_of s.node e).listen_address) k h)
      | inr no' ↦ rw (no', syn_for) h
    ]

retry-Short :
    (env : Env) (s : Sent) (tid : ℕ) (k : ℕ)
    → All (Short (k + 1)) s.node.log
    → Brief k s.msg
    → All (Short (k + 1)) (retry env s tid).node.log
unfolding retry
retry-Short env s tid k h b = elim (Option-cases (retry_target s tid)) [
  | inl e ↦ rw (e, retry) h
  | inr (p, e) ↦
      rw (e, retry)
        (send_msg-Kept env s.node p.id s.msg data_connection (k + 1) k (omega arith) (h, b)).0
]

answer-Short :
    (env : Env) (s : Sent) (k : ℕ)
    → All (Short (k + 1)) s.node.log
    → All (Short (k + 1)) (answer env s).0.log
unfolding answer
answer-Short env s k h = elim (Option-cases s.msg.body.forward) [
  | inl e ↦ rw (e, answer) h
  | inr (fwd, e) ↦ elim (Bool-cases (is_error s.status || fwd.require_rsp)) [
    | inl back ↦ rw (e, answer) (rw back (rsp-Short env s.node s.msg fwd s.status k h))
    | inr silent ↦ rw (e, answer) (rw silent h)
  ]
]

report-Short :
    (r : Handled) (k : ℕ) → All (Short (k + 1)) r.0.log → All (Short (k + 1)) (report r).0.log
unfolding report
report-Short (n, m, res) k h = elim (Bool-cases (is_error res)) [
  | inl bad ↦ rw bad (tt, h)
  | inr good ↦ rw good h
]

forwarded-Short :
    (env : Env) (direct_from tid : ℕ) (s : Sent) (k : ℕ)
    → All (Short (k + 1)) s.node.log
    → Brief k s.msg
    → All (Short (k + 1)) (forwarded env direct_from tid s).0.log
unfolding forwarded
forwarded-Short env d tid s k h b =
    elim (Bool-cases (not (is_error s.status) && is_child s.node.family tid)) [
      | inl done ↦ rw done (syn_for-Short env d s s.ep_out k h)
      | inr other ↦ rw other (
          report-Short (answer env (retry env s tid)) k
            (answer-Short env (retry env s tid) k (retry-Short env s tid k h b)))
    ]

deliver-Short :
    (env : Env) (n : Node) (conn : Connection) (m : Msg) (fwd : ForwardData) (k : ℕ)
    → All (Short (k + 1)) n.log
    → All (Short (k + 1)) (deliver env n conn m fwd).0.log
unfolding deliver
deliver-Short env n conn m fwd k h =
    let n' = emit (recv_msg conn.binding m.head.type fwd.content) n in
    on_either (λ (r : Handled). All (Short (k + 1)) r.0.log)
      (rsp-Short env n' m fwd success k (tt, h)) (tt, h) fwd.require_rsp

forward_req-Short :
    (env : Env) (n : Node) (conn : Connection) (m : Msg) (fwd : ForwardData)
    → All (Short (n.conf.ttl + 1)) n.log
    → m.body.forward ≡ some fwd
    → All (Short (n.conf.ttl + 1)) (forward_req env n conn m fwd).0.log
unfolding forward_req
forward_req-Short env n conn m fwd h e = elim (Bool-cases (fwd.to == get_id n)) [
  | inl own ↦ rw own (deliver-Short env n conn m fwd n.conf.ttl h)
  | inr other ↦ elim (Bool-cases (leb n.conf.ttl (length fwd.router))) [
    | inl late ↦ rw other (rw late (rsp-Short env n m fwd atnode_ttl n.conf.ttl h))
    | inr early ↦
        let brief : Brief (n.conf.ttl - 1) m = brief_now early in
        let sent =
          send_msg-Kept env n fwd.to m data_connection (n.conf.ttl + 1) (n.conf.ttl - 1)
            (omega arith) (h, brief) in
        rw other (
          rw early (
            forwarded-Short env m.head.src_bus_id fwd.to (send_msg env n fwd.to m data_connection)
              n.conf.ttl sent.0
              (Brief-mono (n.conf.ttl - 1 + 1) n.conf.ttl
                (send_msg env n fwd.to m data_connection).msg (ground arith) sent.1)))
  ]
]
  where
    brief_now : leb n.conf.ttl (length fwd.router) ≡ false → Brief (n.conf.ttl - 1) m
    brief_now early = λ f c e'.
        let same : fwd ≡ f = some_inj (sym e ∙ e') in
        subst (λ (g : ForwardData). length g.router ≤ n.conf.ttl - 1) same (ground arith)

-- Whatever data requests a node pushes on from `on_recv_data_transfer_req` have passed at most one node
-- more than the limit, itself included, if that was so of all it pushed before.
pub on_recv_data_transfer_req-Short :
    (env : Env) (n : Node) (conn : Option Connection) (m : Msg)
    → All (Short (n.conf.ttl + 1)) n.log
    → All (Short (n.conf.ttl + 1)) (on_recv_data_transfer_req env n conn m).0.log
unfolding on_recv_data_transfer_req
on_recv_data_transfer_req-Short env n none m h = (tt, h)
on_recv_data_transfer_req-Short env n (some conn) m h = elim (Option-cases m.body.forward) [
  | inl e ↦ rw (e, on_recv_data_transfer_req) (tt, h)
  | inr (fwd, e) ↦ rw (e, on_recv_data_transfer_req) (forward_req-Short env n conn m fwd h e)
]
