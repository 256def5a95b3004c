-- ===== src/Protocol.antt =====
-- include/detail/libatbus_protocol.h: the messages that nodes exchange. A pointer to a body is an
-- `Option`; an address, a host name and a content are lists of bytes. What msgpack makes of a message
-- is not modelled. The field `sync` is: no handler reads it, and it is left out.
use libatbus.Base.{ℕ, Bool, Option, none, List}
use libatbus.Status.{Status}

-- `ATBUS_PROTOCOL_CMD`; a number that it does not name is `unnamed`.
pub data Cmd : Type 0 where
  invalid data_transform_req data_transform_rsp custom_cmd_req : Cmd
  node_sync_req node_sync_rsp node_reg_req node_reg_rsp node_conn_syn node_ping node_pong : Cmd
  unnamed : ℕ → Cmd

pub record ForwardData : Type 0 where
  pub from : ℕ
  pub to : ℕ
  pub router : List ℕ
  pub content : List ℕ
  pub require_rsp : Bool

pub record CustomCommandData : Type 0 where
  pub from : ℕ
  pub commands : List (List ℕ)

pub record RegData : Type 0 where
  pub bus_id : ℕ
  pub pid : ℕ
  pub hostname : List ℕ
  pub channels : List (List ℕ)
  pub children_id_mask : ℕ
  pub has_global_tree : Bool

-- `conn_data` and `ping_data`, by their one field.
pub record Body : Type 0 where
  pub forward : Option ForwardData
  pub ping : Option ℕ
  pub reg : Option RegData
  pub conn : Option (List ℕ)
  pub custom : Option CustomCommandData

abbrev pub empty_body : Body
empty_body = record { forward = none; ping = none; reg = none; conn = none; custom = none }

-- `ret` carries the codes of the enumeration.
pub record Head : Type 0 where
  pub cmd : Cmd
  pub type : ℕ
  pub ret : Status
  pub sequence : ℕ
  pub src_bus_id : ℕ

pub record Msg : Type 0 where
  pub head : Head
  pub body : Body

-- `msg::init` sets the head and leaves the body.
unfoldable pub init : Msg → ℕ → Cmd → ℕ → Status → ℕ → Msg
init m src_bus_id cmd type ret seq = record m {
  head = record { cmd = cmd; type = type; ret = ret; sequence = seq; src_bus_id = src_bus_id };
}
