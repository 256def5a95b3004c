-- ===== src/Node/Send/Passed.antt =====
-- The nodes that a data request has passed, when `send_msg` of a node sends it on.
use libatbus.Base.{
  ℕ, ◌+◌, ◌≤◌, ◌≡◌, refl, inl, inr, subst, some, [], ◌∷◌, ◌++◌, length, length-append, All, arith,
  Bool-cases, Option-cases, some_inj, leb,
}
use libatbus.Endpoint.Domain.{EndpointPtr}
use libatbus.Endpoint.Select.{Connection}
use libatbus.Protocol.{
  Msg, Cmd, ForwardData, init, invalid, unnamed, data_transform_req, data_transform_rsp,
  custom_cmd_req, node_sync_req, node_sync_rsp, node_reg_req, node_reg_rsp, node_conn_syn,
  node_ping, node_pong,
}
use libatbus.Node.State.{Node, Event, push, get_id, peer_of}
use libatbus.Node.Route.{Hop, here, to, invalid_id, no_connection, next_hop}
use libatbus.Node.Send.{
  Env, GetConnectionFn, push_msg, handle_own, recv_own, is_named, pick, stamp, send_to, send_msg,
  cannot_push,
}

-- A data request has passed at most `k` nodes.
abbrev pub Brief : ℕ → Msg → Type 0
Brief k m =
    (f : ForwardData)
    → m.head.cmd ≡ data_transform_req
    → m.body.forward ≡ some f
    → length f.router ≤ k

-- Nothing pushed to a connection is a data request that has passed more than `k` nodes.
abbrev pub Short : ℕ → Event → Type 0
Short k (push c m) = Brief k m
Short k _ = Unit {0}

pub Brief-mono : (k l : ℕ) (m : Msg) → k ≤ l → Brief k m → Brief l m
Brief-mono k l m h b = λ f c e. omega (arith, b f c e)

stamp-Brief : (k id : ℕ) (m : Msg) → Brief k m → Brief (k + 1) (stamp id m)
unfolding stamp
stamp-Brief k id m b = elim (Option-cases m.body.forward) [
  | inl e ↦ λ f c e'. cc (rw e at e')
  | inr (g, e) ↦ λ f c e'.
      let same : record g { router = g.router ++ id ∷ [] } ≡ f = some_inj (rw e at e') in
      subst (λ f. length f.router ≤ k + 1) same
        (omega (arith, length-append g.router (id ∷ []), b g c e))
]

push_msg-Short :
    (env : Env) (n : Node) (conn : Connection) (m : Msg) (k : ℕ)
    → All (Short k) n.log
    → Brief k m
    → All (Short k) (push_msg env n conn m).0.log
unfolding push_msg
push_msg-Short env n conn m k h b = elim (Bool-cases (leb n.conf.msg_size (env.packed_size m))) [
  | inl big ↦ rw big h
  | inr fits ↦ elim (Bool-cases (cannot_push conn.state)) [
    | inl down ↦ rw fits (rw down h)
    | inr up ↦ rw fits (rw up (b, h))
  ]
]

-- The state and the message after a step: the log stays short, and so is the message.
abbrev Kept : ℕ → ℕ → Node → Msg → Type 0
Kept k l n m = All (Short k) n.log × Brief l m

handle_own-Kept :
    (n : Node) (m : Msg) (c : Cmd) (k l : ℕ)
    → Kept k l n m
    → Kept k l (handle_own n m c).0 (handle_own n m c).1
unfolding handle_own init
handle_own-Kept n m invalid k l h = h
handle_own-Kept n m (unnamed c) k l h = h
handle_own-Kept n m data_transform_req k l h = ((tt, h.0), h.1)
handle_own-Kept n m data_transform_rsp k l h = ((tt, h.0), h.1)
handle_own-Kept n m custom_cmd_req k l h = elim (Option-cases m.body.custom) [
  | inl e ↦ rw (e, handle_own) ((tt, h.0), h.1)
  | inr (c, e) ↦ rw (e, handle_own) ((tt, h.0), h.1)
]
handle_own-Kept n m node_sync_req k l h = h
handle_own-Kept n m node_sync_rsp k l h = h
handle_own-Kept n m node_reg_req k l h = h
handle_own-Kept n m node_reg_rsp k l h = h
handle_own-Kept n m node_conn_syn k l h = ((tt, h.0), h.1)
handle_own-Kept n m node_ping k l h = elim (Option-cases m.body.ping) [
  | inl e ↦ rw (e, handle_own) (h.0, λ f c e'. cc c)
  | inr (t, e) ↦ rw (e, handle_own) (h.0, λ f c e'. cc c)
]
handle_own-Kept n m node_pong k l h = elim (Option-cases m.body.ping) [
  | inl e ↦ rw (e, handle_own) h
  | inr (t, e) ↦ rw (e, handle_own) h
]

send_to-Kept :
    (env : Env) (n : Node) (ep : EndpointPtr) (m : Msg) (fn : GetConnectionFn) (k l : ℕ)
    → l + 1 ≤ k
    → Kept k l n m
    → Kept k (l + 1) (send_to env n ep m fn).node (send_to env n ep m fn).msg
unfolding send_to
send_to-Kept env n ep m fn k l le h =
    elim (Option-cases (pick fn (peer_of n n.self).endpoint (peer_of n ep).endpoint).1) [
      | inl e ↦ rw (e, send_to) (h.0, Brief-mono l (l + 1) m (omega arith) h.1)
      | inr (c, e) ↦
          let b = stamp-Brief l (get_id n) m h.1 in
          rw (e, send_to)
            (
              push_msg-Short env _ c (stamp (get_id n) m) k h.0
                  (Brief-mono (l + 1) k (stamp (get_id n) m) le b),
              b,
            )
    ]

recv_own-Kept :
    (n : Node) (m : Msg) (k l : ℕ) → Kept k l n m → Kept k l (recv_own n m).0 (recv_own n m).1
unfolding recv_own
recv_own-Kept n m k l h = elim (Bool-cases (is_named m.head.cmd)) [
  | inl e ↦ rw e (handle_own-Kept _ m m.head.cmd k l h)
  | inr e ↦ rw e (handle_own-Kept n m m.head.cmd k l h)
]

pub send_msg-Kept :
    (env : Env) (n : Node) (tid : ℕ) (m : Msg) (fn : GetConnectionFn) (k l : ℕ)
    → l + 1 ≤ k
    → Kept k l n m
    → Kept k (l + 1) (send_msg env n tid m fn).node (send_msg env n tid m fn).msg
unfolding send_msg
send_msg-Kept env n tid m fn k l le h =
    go (next_hop n.family (peer_of n n.self).global_router tid) refl
  where
    more : (m : Msg) → Brief l m → Brief (l + 1) m
    more m b = Brief-mono l (l + 1) m (omega arith) b

    go :
        (hop : Hop)
        → next_hop n.family (peer_of n n.self).global_router tid ≡ hop
        → Kept k (l + 1) (send_msg env n tid m fn).node (send_msg env n tid m fn).msg
    go here e =
        let own = recv_own-Kept n m k l h in rw (e, send_msg) (own.0, more (recv_own n m).1 own.1)
    go (to ep) e = rw (e, send_msg) (send_to-Kept env n ep m fn k l le h)
    go invalid_id e = rw (e, send_msg) (h.0, more m h.1)
    go no_connection e = rw (e, send_msg) (h.0, more m h.1)
