-- ===== src/Endpoint/Select/Tests.antt =====
-- An endpoint on the same host with a stream, a memory and a shared memory connection.
use libatbus.Base.{
  ℕ, ◌≤◌, ◌<◌, subst, sym, ◌≡◌, ◌≢◌, ◌↔◌, inl, inr, refl, ap, true, false, Option, none, some, [],
  ◌∷◌, arith,
}
use libatbus.Endpoint.Select.{
  Connection, Endpoint, connected, handshaking, is_running, is_available, bind, add_connection,
  sort_connection_cmp_fn, sort, get_data_connection, get_ctrl_connection, share_pid, share_host,
  is_connected, usable,
}
use libatbus.Endpoint.Select.Sorting.{
  rank, Has, Sorted, sort-Sorted, Has-sort, sort_connection_cmp_fn_iff,
}
use libatbus.Endpoint.Select.Adding.{Consistent, Bound, add_connection-Consistent, is_available_iff}
use libatbus.Endpoint.Select.Choice.{Usable, get_data_connection_best, get_data_connection_ctrl}

abbrev stream : Connection
stream = record {
  handle = 11;
  state = connected;
  access_share_addr = false;
  access_share_host = false;
  binding = some 2;
  address = [];
  reg_fd = true;
}

abbrev memory : Connection
memory = record {
  handle = 12;
  state = connected;
  access_share_addr = true;
  access_share_host = true;
  binding = some 2;
  address = [];
  reg_fd = true;
}

abbrev shared : Connection
shared = record {
  handle = 13;
  state = connected;
  access_share_addr = false;
  access_share_host = true;
  binding = some 2;
  address = [];
  reg_fd = true;
}

abbrev self : Endpoint
self = record {
  handle = 1;
  hostname = 97 ∷ [];
  pid = 5;
  resetting = false;
  connection_sorted = false;
  ctrl_conn = none;
  data_conn = [];
}

abbrev near : Endpoint
near = record {
  handle = 2;
  hostname = 97 ∷ [];
  pid = 6;
  resetting = false;
  connection_sorted = false;
  ctrl_conn = some stream;
  data_conn = stream ∷ memory ∷ shared ∷ [];
}

abbrev far : Endpoint
far = record {
  handle = 3;
  hostname = 98 ∷ [];
  pid = 5;
  resetting = false;
  connection_sorted = true;
  ctrl_conn = some stream;
  data_conn = shared ∷ [];
}

runs :
    (sort near.data_conn ≡ memory ∷ shared ∷ stream ∷ [])
    × ((get_data_connection self (some near)).1 ≡ some memory)
    × ((get_data_connection self (some far)).1 ≡ some stream)
    × ((get_data_connection self (some self)).1 ≡ none)
unfolding sort get_data_connection get_ctrl_connection sort_connection_cmp_fn
runs = (refl, refl, refl, refl)

self-Usable : Usable self near shared
unfolding share_pid share_host is_connected usable
self-Usable = (refl, refl)

get_data_connection_best_example :
    (d : Connection) × ((get_data_connection self (some near)).1 ≡ some d)
    × Has d near.data_conn
    × Usable self near d
    × (rank d ≤ rank shared)
get_data_connection_best_example =
    get_data_connection_best self near shared (ground arith) (omega arith) (inr (inr (inl refl)))
      self-Usable

far_unusable : (c : Connection) → Has c far.data_conn → Usable self far c → ⊥
unfolding share_pid share_host is_connected usable
far_unusable c (inl e) u = cc (subst (Usable self far) (sym e) u).1
far_unusable c (inr h) u = h

get_data_connection_ctrl_example :
    (get_data_connection self (some far)).1 ≡ get_ctrl_connection self (some far)
get_data_connection_ctrl_example =
    get_data_connection_ctrl self far (ground arith) (omega arith) far_unusable

near-Consistent : Consistent near
near-Consistent = (λ e. cc e, λ c e. sym (ap got e), bound)
  where
    got : Option Connection → Option ℕ
    got none = some 2
    got (some c) = c.binding

    bound : (c : Connection) → Has c near.data_conn → Bound near c
    bound c (inl e) = ap (λ d. d.binding) (sym e)
    bound c (inr (inl e)) = ap (λ d. d.binding) (sym e)
    bound c (inr (inr (inl e))) = ap (λ d. d.binding) (sym e)
    bound c (inr (inr (inr h))) = absurd h

abbrev fresh : Connection
fresh = record memory { handle = 14; state = handshaking; binding = none }

adds :
    ((add_connection near (some fresh) false).1
      ≡ some (record fresh { state = connected; binding = some 2 }))
    × (is_available (add_connection near (some fresh) false).0 ≡ true)
    × ((add_connection near (some memory) false) ≡ (near, some memory, true))
unfolding add_connection is_available bind
adds = (refl, refl, refl)

add_connection-Consistent_example : Consistent (add_connection near (some fresh) false).0
add_connection-Consistent_example =
    add_connection-Consistent near (some fresh) false near-Consistent

is_available_iff_example : (is_available near ≡ true) ↔ (
    (near.ctrl_conn ≢ none)
    × ((c : Connection) × Has c near.data_conn × (is_running c.state ≡ true)))
is_available_iff_example = is_available_iff near

sort_connection_cmp_fn_iff_example :
    (sort_connection_cmp_fn memory stream ≡ true) ↔ (rank memory < rank stream)
sort_connection_cmp_fn_iff_example = sort_connection_cmp_fn_iff memory stream

sort-Sorted_example : Sorted (sort near.data_conn)
sort-Sorted_example = sort-Sorted near.data_conn

Has-sort_example : Has shared (sort near.data_conn) ↔ Has shared near.data_conn
Has-sort_example = Has-sort near.data_conn shared
