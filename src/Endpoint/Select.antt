-- ===== src/Endpoint/Select.antt =====
-- The connections of an endpoint in src/atbus_endpoint.cpp: `add_connection`, `is_available`,
-- `sort_connection_cmp_fn`, `get_ctrl_connection` and `get_data_connection`, with what they read of a
-- connection. A `handle` stands for the address of an object, a host name is its bytes.
pub mod Sorting
pub mod Choice
pub mod Adding
mod Tests
use libatbus.Base.{
  ℕ, Bool, true, false, not, ◌&&◌, ◌||◌, ◌++◌, Option, none, some, List, [], ◌∷◌, if◌then◌else◌,
  ◌==◌,
}

-- `connection::state_t`
pub data State : Type 0 where
  disconnected connecting handshaking connected disconnecting : State

pub record Connection : Type 0 where
  pub handle : ℕ
  pub state : State
  pub access_share_addr : Bool
  pub access_share_host : Bool
  pub binding : Option ℕ
  pub address : List ℕ
  pub reg_fd : Bool

pub record Endpoint : Type 0 where
  pub handle : ℕ
  pub hostname : List ℕ
  pub pid : ℕ
  pub resetting : Bool
  pub connection_sorted : Bool
  pub ctrl_conn : Option Connection
  pub data_conn : List Connection

unfoldable pub is_connected : State → Bool
is_connected connected = true
is_connected _ = false

xor : Bool → Bool → Bool
xor true b = not b
xor false b = b

unfoldable pub sort_connection_cmp_fn : Connection → Connection → Bool
unfolding xor
sort_connection_cmp_fn left right =
    if xor left.access_share_addr right.access_share_addr
    then left.access_share_addr
    else if xor left.access_share_host right.access_share_host
    then left.access_share_host
    else false

-- `std::list::sort` is stable.
pub insert : Connection → List Connection → List Connection
insert x [] = x ∷ []
insert x (y ∷ ys) = if sort_connection_cmp_fn y x then y ∷ insert x ys else x ∷ y ∷ ys

unfoldable pub sort : List Connection → List Connection
unfolding insert
sort [] = []
sort (x ∷ xs) = insert x (sort xs)

pub hostname_eq : List ℕ → List ℕ → Bool
hostname_eq [] [] = true
hostname_eq [] (y ∷ ys) = false
hostname_eq (x ∷ xs) [] = false
hostname_eq (x ∷ xs) (y ∷ ys) = (x == y) && hostname_eq xs ys

unfoldable pub share_host : Endpoint → Endpoint → Bool
unfolding hostname_eq
share_host self ep = hostname_eq ep.hostname self.hostname

unfoldable pub share_pid : Endpoint → Endpoint → Bool
unfolding share_host hostname_eq
share_pid self ep = share_host self ep && (ep.pid == self.pid)

-- The body of the loop, after the test of the status.
pub usable : Bool → Bool → Connection → Bool
usable pid host c =
    if pid && c.access_share_addr
    then true
    else if host && c.access_share_host
    then true
    else not c.access_share_host

-- The loop; `none` where it ends without a `return`.
pub choose : Bool → Bool → List Connection → Option Connection
choose pid host [] = none
choose pid host (c ∷ cs) =
    if not (is_connected c.state)
    then choose pid host cs
    else if usable pid host c
    then some c
    else choose pid host cs

-- The connection if it is connected.
pub ready : Option Connection → Option Connection
ready none = none
ready (some c) = if is_connected c.state then some c else none

unfoldable pub get_ctrl_connection : Endpoint → Option Endpoint → Option Connection
unfolding ready is_connected
get_ctrl_connection self none = none
get_ctrl_connection self (some ep) = if self.handle == ep.handle then none else ready ep.ctrl_conn

-- `ep` with its data connections sorted.
unfoldable pub sorted : Endpoint → Endpoint
unfolding sort insert
sorted ep =
    if ep.connection_sorted
    then ep
    else record ep { data_conn = sort ep.data_conn; connection_sorted = true }

pub or_ctrl : Endpoint → Endpoint → Option Connection → Option Connection
or_ctrl self ep none = get_ctrl_connection self (some ep)
or_ctrl self ep (some c) = some c

-- What becomes of `ep`, and the connection.
unfoldable pub get_data_connection :
    Endpoint → Option Endpoint → Option Endpoint × Option Connection
unfolding sorted share_pid share_host choose usable is_connected or_ctrl sort
get_data_connection self none = (none, none)
get_data_connection self (some ep) = if self.handle == ep.handle then (some ep, none) else (
  some (sorted ep),
  or_ctrl self ep (choose (share_pid self ep) (share_host self ep) (sorted ep).data_conn),
)

-- `connection::is_running`
pub is_running : State → Bool
is_running connecting = true
is_running handshaking = true
is_running connected = true
is_running _ = false

any_running : List Connection → Bool
any_running [] = false
any_running (c ∷ cs) = if is_running c.state then true else any_running cs

unfoldable pub is_available : Endpoint → Bool
unfolding any_running is_running
is_available ep = elim ep.ctrl_conn [ none ↦ false | some c ↦ any_running ep.data_conn ]

-- `binding_` is set, and a connection that waits for its handshake is connected.
pub bind : Endpoint → Connection → Connection
bind ep conn = record conn {
  binding = some ep.handle;
  state = elim conn.state [ handshaking ↦ connected | s ↦ s ];
}

has_ctrl : Endpoint → Bool
has_ctrl ep = elim ep.ctrl_conn [ none ↦ false | some c ↦ true ]

-- The list holds the object itself, and so its new state.
attach : Endpoint → Connection → Bool → Endpoint
attach ep conn force_data =
    if force_data || has_ctrl ep
    then record ep { data_conn = ep.data_conn ++ conn ∷ []; connection_sorted = false }
    else record ep { ctrl_conn = some conn }

-- The endpoint and the connection after the call, and the result.
unfoldable pub add_connection :
    Endpoint → Option Connection → Bool → Endpoint × Option Connection × Bool
unfolding bind attach has_ctrl
add_connection ep none force_data = (ep, none, false)
add_connection ep (some conn) force_data =
    if ep.resetting then (ep, some conn, false) else elim conn.binding [
      | some owner ↦ (ep, some conn, ep.handle == owner)
      | none ↦ (attach ep (bind ep conn) force_data, some (bind ep conn), true)
    ]
