-- ===== src/Node/Links.antt =====
-- The connections of a node to an endpoint: `node::connect` in src/atbus_node.cpp,
-- `connection::reset` in src/atbus_connection.cpp and, on the object of an endpoint in
-- src/atbus_endpoint.cpp, `add_connection` and `remove_connection`.
use libatbus.Base.{
  ℕ, ◌+◌, Bool, true, false, ◌&&◌, ◌||◌, Option, none, some, List, [], ◌∷◌, ◌++◌, if◌then◌else◌,
  ◌==◌, leb,
}
use libatbus.Status.{Status, success, access_deny, bad_data, is_error}
use libatbus.Endpoint.Domain.{EndpointPtr}
use libatbus.Endpoint.Select.{Connection, add_connection}
use libatbus.Node.State.{Node, Peer, emit, peer_of, set_peer, on_error, conn_reset, conn_connect}
use libatbus.Node.Members.{reset_endpoint, disconnect_connection}
use libatbus.Node.Send.{Env}

-- `strncasecmp(word, address, 3) == 0` for a word in lower case.
lower : ℕ → ℕ
lower c = if leb 65 c && leb c 90 then c + 32 else c

pub has_scheme : List ℕ → List ℕ → Bool
has_scheme [] address = true
has_scheme (c ∷ cs) [] = false
has_scheme (c ∷ cs) (a ∷ address) = (c == lower a) && has_scheme cs address

abbrev pub mem : List ℕ
mem = b'm' ∷ b'e' ∷ b'm' ∷ []

abbrev pub shm : List ℕ
shm = b's' ∷ b'h' ∷ b'm' ∷ []

-- `node::connect` without an endpoint.
unfoldable pub connect : Env → Node → List ℕ → Node × Status
connect env n address =
    if has_scheme mem address || has_scheme shm address
    then (n, access_deny)
    else (let (res, c) = env.open_address address in
        (emit (conn_connect address) n, if is_error res then res else success))

-- `endpoint::add_connection` on the object of `ep`: the node, the connection and the result.
unfoldable pub bind_to : Node → EndpointPtr → Connection → Bool → Node × Connection × Bool
bind_to n ep conn force_data =
    let p = peer_of n ep in
    let (endpoint, conn', ok) = add_connection p.endpoint (some conn) force_data in
    (set_peer ep (record p { endpoint = endpoint }) n, elim conn' [ none ↦ conn | some c ↦ c ], ok)

-- `node::connect` with an endpoint. The connection must be a data connection on shared memory.
unfoldable pub connected_to : Node → EndpointPtr → List ℕ → Status × Connection → Node × Status
unfolding bind_to
connected_to n ep address (res, c) =
    if is_error res
    then (n, res)
    else (let shared =
          has_scheme (mem ++ b':' ∷ []) address || has_scheme (shm ++ b':' ∷ []) address in
        let (n', c', ok) = bind_to n ep c shared in (n', if ok then success else bad_data))

unfoldable pub connect_endpoint : Env → Node → EndpointPtr → List ℕ → Node × Status
unfolding connected_to
connect_endpoint env n ep address =
    connected_to (emit (conn_connect address) n) ep address (env.open_address address)

-- The addresses of a new endpoint: the node, and whether a connection could be made.
unfoldable pub connect_channels : Env → Node → EndpointPtr → List (List ℕ) → Bool → Node × Bool
unfolding connect_endpoint
connect_channels env n ep [] has_data_conn = (n, has_data_conn)
connect_channels env n ep (address ∷ rest) has_data_conn =
    let (n', res) = connect_endpoint env n ep address in
    let p = peer_of n' ep in
    let listens : Peer = record p { listen_address = p.listen_address ++ address ∷ [] } in
    connect_channels env (if is_error res then emit (on_error res) n' else set_peer ep listens n')
      ep rest (if is_error res then has_data_conn else true)

-- `endpoint::remove_connection`: of a control connection, of the last data connection, or of another.
pub without : ℕ → List Connection → List Connection
without h [] = []
without h (c ∷ cs) = if c.handle == h then cs else c ∷ without h cs

is_ctrl : Option Connection → ℕ → Bool
is_ctrl none h = false
is_ctrl (some c) h = c.handle == h

has_data : List Connection → ℕ → Bool
has_data [] h = false
has_data (c ∷ cs) h = (c.handle == h) || has_data cs h

unfoldable pub drop_data : Node → Peer → List Connection → Node
drop_data n p [] =
    reset_endpoint
      (set_peer p.this (record p { endpoint = record p.endpoint { data_conn = [] } }) n) p.this
drop_data n p (c ∷ cs) =
    set_peer p.this (record p { endpoint = record p.endpoint { data_conn = c ∷ cs } }) n

unfoldable pub remove_connection : Node → Peer → Connection → Node
unfolding reset_endpoint is_ctrl has_data without drop_data
remove_connection n p conn =
    if p.endpoint.resetting
    then n
    else if is_ctrl p.endpoint.ctrl_conn conn.handle
    then reset_endpoint n p.this
    else if has_data p.endpoint.data_conn conn.handle
    then drop_data n p (without conn.handle p.endpoint.data_conn)
    else n

-- `connection::reset`, which clears the flags.
unfoldable pub reset_connection : Node → Connection → Node × Connection
unfolding disconnect_connection remove_connection
reset_connection n conn =
    let (n', conn') = disconnect_connection (emit (conn_reset conn) n) conn in
    (
      elim conn.binding [ none ↦ n' | some owner ↦ remove_connection n' (n'.peer owner) conn' ],
      record conn' {
        binding = none;
        access_share_addr = false;
        access_share_host = false;
        reg_fd = false;
      },
    )
