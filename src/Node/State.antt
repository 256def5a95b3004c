-- ===== src/Node/State.antt =====
-- The state of `node` in include/atbus_node.h, and the functions of src/atbus_node.cpp that read it.
-- An endpoint is an `EndpointPtr`; what can change in the object stands in `peer`, by its handle. The
-- calls of the registered handlers are a log, the latest call first.
use libatbus.Base.{ℕ, Bool, false, Option, none, some, List, ◌∷◌, if◌then◌else◌, ◌==◌}
use libatbus.Status.{Status}
use libatbus.Endpoint.Domain.{EndpointPtr, is_child_node, is_brother_node, is_parent_node}
use libatbus.Endpoint.Select.{Endpoint, Connection}
use libatbus.Protocol.{Msg}
use libatbus.Node.Table.{Collection}

-- `node::state_t`
pub data State : Type 0 where
  created inited lost_parent connecting_parent running closing : State

-- `node::conf_t`, the fields that the node itself reads.
pub record Conf : Type 0 where
  pub father_address : List ℕ
  pub ttl : ℕ
  pub first_idle_timeout : ℕ
  pub ping_interval : ℕ
  pub retry_interval : ℕ
  pub fault_tolerant : ℕ
  pub msg_size : ℕ

-- What leaves the node: calls of the handlers, of connections, and of `endpoint::reset`.
pub data Event : Type 0 where
  endpoint_added : EndpointPtr → Event
  endpoint_removed : EndpointPtr → Event
  endpoint_reset : EndpointPtr → Event
  node_up : Event
  node_down : Status → Event
  recv_msg : Option ℕ → ℕ → List ℕ → Event
  send_data_failed : Msg → Event
  custom_cmd : ℕ → List (List ℕ) → Event
  on_reg : Status → Event
  on_error : Status → Event
  push : Connection → Msg → Event
  conn_reset : Connection → Event
  conn_disconnect : Connection → Event
  conn_connect : List ℕ → Event
  invalid_connection : Connection → Event

-- An endpoint's object: its connections, its flag, its addresses and `endpoint::stat_t`.
pub record Peer : Type 0 where
  pub this : EndpointPtr
  pub endpoint : Endpoint
  pub global_router : Bool
  pub listen_address : List (List ℕ)
  pub fault_count : ℕ
  pub unfinished_ping : ℕ
  pub ping_delay : ℕ
  pub last_pong_time : ℕ

-- The places of the tree that a node knows.
pub record Family : Type 0 where
  pub self : EndpointPtr
  pub father : Option EndpointPtr
  pub brother : Collection
  pub children : Collection

-- `node::evt_timer_t`; an address stands for a connection that is being made.
pub record Timer : Type 0 where
  pub sec : ℕ
  pub usec : ℕ
  pub node_sync_push : ℕ
  pub father_opr_time_point : ℕ
  pub ping_list : List (ℕ × EndpointPtr)
  pub connecting_list : List (ℕ × Connection)
  pub pending_check_list : List EndpointPtr

pub record Node : Type 0 where
  pub handle : ℕ
  pub state : State
  pub resetting : Bool
  pub actived : Bool
  pub parent_reg_done : Bool
  pub shut_down : Bool
  pub conf : Conf
  pub seq : ℕ
  pub dispatch_times : ℕ
  pub family : Family
  pub open family use *
  pub timer : Timer
  pub peer : ℕ → Peer
  pub log : List Event

abbrev pub get_id : Node → ℕ
get_id n = n.self.id

abbrev pub emit : Event → Node → Node
emit e n = record n { log = e ∷ n.log }

abbrev pub set_peer : EndpointPtr → Peer → Node → Node
set_peer ep p n = record n { peer = λ h. if h == ep.handle then p else n.peer h }

abbrev pub peer_of : Node → EndpointPtr → Peer
peer_of n ep = n.peer ep.handle

-- `node::is_child_node`
unfoldable pub is_child : Family → ℕ → Bool
is_child f id = is_child_node f.self id

-- `node::is_brother_node`
unfoldable pub is_brother : Family → ℕ → Bool
is_brother f id = elim f.father [
  | some p ↦ is_brother_node f.self id p.children_mask
  | none ↦ is_brother_node f.self id 0
]

-- `node::is_parent_node`
unfoldable pub is_parent : Family → ℕ → Bool
is_parent f id = elim f.father [ some p ↦ is_parent_node id p.id p.children_mask | none ↦ false ]
