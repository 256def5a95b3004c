-- ===== src/Endpoint/Select/Adding.antt =====
-- The connections of an endpoint after `add_connection`, and when it is available.
use libatbus.Base.{
  ◌≡◌, ◌≢◌, ◌⊎◌, ◌↔◌, inl, inr, refl, ap, Bool, true, ◌||◌, Option, none, some, List, [], ◌∷◌, ◌++◌,
  arith, Bool-cases, Option-cases, subst,
}
use libatbus.Endpoint.Select.{
  Connection, Endpoint, is_running, any_running, is_available, bind, attach, has_ctrl,
  add_connection,
}
use libatbus.Endpoint.Select.Sorting.{Has}
use libatbus.Endpoint.Select.Choice.{FlagHolds}

abbrev pub Bound : Endpoint → Connection → Type 0
Bound ep c = c.binding ≡ some ep.handle

-- The flag tells the truth, and every connection of the endpoint is bound to it.
abbrev pub Consistent : Endpoint → Type 0
Consistent ep =
    FlagHolds ep
    × ((c : Connection) → ep.ctrl_conn ≡ some c → Bound ep c)
    × ((c : Connection) → Has c ep.data_conn → Bound ep c)

pub Has-append :
    (xs : List Connection) (x c : Connection) → Has c (xs ++ x ∷ []) ↔ (Has c xs ⊎ (x ≡ c))
Has-append [] x c = ground arith
Has-append (y ∷ ys) x c = ground (arith, Has-append ys x c)

bind-Bound : (ep : Endpoint) (conn : Connection) → Bound ep (bind ep conn)
unfolding bind
bind-Bound ep conn = refl

attach-Consistent :
    (ep : Endpoint) (conn : Connection) (force_data : Bool)
    → Consistent ep
    → Bound ep conn
    → Consistent (attach ep conn force_data)
unfolding attach
attach-Consistent ep conn force h b = elim (Bool-cases (force || has_ctrl ep)) [
  | inl as_data ↦ rw as_data (
    (λ e. cc e),
    h.1,
    λ c has. elim ((Has-append ep.data_conn conn c).0 has) [
      | inl old ↦ h.2 c old
      | inr e ↦ subst (Bound ep) e b
    ],
  )
  | inr as_ctrl ↦ rw as_ctrl (h.0, (λ c e. subst (Bound ep) (ap got e) b), h.2)
]
  where
    got : Option Connection → Connection
    got none = conn
    got (some c) = c

-- `add_connection` keeps the endpoint consistent, whatever it is given.
pub add_connection-Consistent :
    (ep : Endpoint) (conn : Option Connection) (force_data : Bool)
    → Consistent ep
    → Consistent (add_connection ep conn force_data).0
unfolding add_connection
add_connection-Consistent ep none force h = h
add_connection-Consistent ep (some conn) force h = elim (Bool-cases ep.resetting) [
  | inl busy ↦ rw (busy, add_connection) h
  | inr idle ↦ elim (Option-cases conn.binding) [
    | inr (owner, e) ↦ rw (idle, add_connection) (rw e h)
    | inl free ↦
        rw (idle, add_connection)
          (rw free (attach-Consistent ep (bind ep conn) force h (bind-Bound ep conn)))
  ]
]

any_running_iff :
    (cs : List Connection)
    → (any_running cs ≡ true) ↔ ((c : Connection) × Has c cs × (is_running c.state ≡ true))
unfolding any_running
any_running_iff [] = (λ e. cc e, λ (c, has, r). absurd has)
any_running_iff (x ∷ xs) = elim (Bool-cases (is_running x.state)) [
  | inl runs ↦ rw (runs, any_running) (λ e. (x, inl refl, runs), λ w. refl)
  | inr stopped ↦
      rw (stopped, any_running)
        (
          λ e. let (c, has, r) = (any_running_iff xs).0 e in (c, inr has, r),
          λ (c, has, r). elim has [
            | inl e ↦ absurd (cc (ap (λ d. is_running d.state) e, r, stopped))
            | inr has' ↦ (any_running_iff xs).1 (c, has', r)
          ],
        )
]

-- An endpoint is available exactly where it has a control connection, in whatever state, and a data
-- connection that is running.
pub is_available_iff :
    (ep : Endpoint)
    → (is_available ep ≡ true) ↔ (
        (ep.ctrl_conn ≢ none)
        × ((c : Connection) × Has c ep.data_conn × (is_running c.state ≡ true)))
unfolding is_available
is_available_iff ep = elim (Option-cases ep.ctrl_conn) [
  | inl e ↦ rw (e, is_available) (λ h. cc h, λ (ne, w). absurd (ne refl))
  | inr (c, e) ↦
      rw (e, is_available)
        (
          λ h. ((λ n. cc n), (any_running_iff ep.data_conn).0 h),
          λ (ne, w). (any_running_iff ep.data_conn).1 w,
        )
]
