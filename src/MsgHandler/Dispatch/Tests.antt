-- ===== src/MsgHandler/Dispatch/Tests.antt =====
-- Messages to a node with a father, a brother and a child.
use libatbus.Base.{
  ◌+◌, ◌<◌, ◌≡◌, inl, inr, refl, subst, true, false, none, some, [], ◌∷◌, All, arith, if◌then◌else◌,
  ◌==◌,
}
use libatbus.Status.{success, atnode_ttl, is_error}
use libatbus.Endpoint.Domain.{is_child_node, is_brother_node, is_parent_node}
use libatbus.Endpoint.Select.{
  Connection, connected, handshaking, get_data_connection, get_ctrl_connection, is_connected,
  add_connection,
}
use libatbus.Protocol.{Msg, ForwardData, RegData, empty_body, init, data_transform_req}
use libatbus.Node.Table.{find_child, insert_child}
use libatbus.Node.State.{Node, push, is_child, is_brother, is_parent}
use libatbus.Node.Members.{get_endpoint, add_endpoint}
use libatbus.Node.Members.Sample.{start, kid, sample, nobody, quiet, sample-Sound}
use libatbus.Node.Members.Narrow.{Ranked}
use libatbus.Node.Route.{next_hop}
use libatbus.Node.Send.{Env, send_msg, new_msg, stamp}
use libatbus.Node.Send.Passed.{Short}
use libatbus.MsgHandler.Transfer.{on_recv_data_transfer_req, send_transfer_rsp}
use libatbus.MsgHandler.Transfer.Ttl.{on_recv_data_transfer_req-Short}
use libatbus.MsgHandler.Register.{register, child_check}
use libatbus.MsgHandler.Register.Masks.{register-Ranked}

abbrev wire : Connection
wire = record {
  handle = 21;
  state = connected;
  access_share_addr = false;
  access_share_host = false;
  binding = some 4;
  address = [];
  reg_fd = true;
}

abbrev env : Env
env = record {
  packed_size = λ m. 100;
  push_fn = λ c m. success;
  open_address = λ a. (success, record wire { binding = none });
  inc = λ s. s + 1;
}

-- The child has the control and the data connection `wire`.
abbrev ready : Node
ready = record start {
  peer = λ h.
      if h == 4
      then record nobody {
        this = kid;
        endpoint = record quiet { handle = 4; ctrl_conn = some wire; data_conn = wire ∷ [] };
      }
      else nobody;
}

abbrev content : ForwardData
content = record {
  from = 0x300;
  to = 0x210;
  router = 0x300 ∷ [];
  content = 7 ∷ [];
  require_rsp = false;
}

abbrev request : Msg
request =
    new_msg 0x300 data_transform_req 0 success 5 (record empty_body { forward = some content })

abbrev late : Msg
late = new_msg 0x300 data_transform_req 0 success 5 (record empty_body {
  forward = some (record content { from = 0x210; router = 1 ∷ 2 ∷ 3 ∷ []; to = 0x21f });
})

runs :
    ((on_recv_data_transfer_req env ready (some wire) request).0.log
      ≡ push wire (stamp 0x200 request) ∷ [])
    × ((on_recv_data_transfer_req env ready (some wire) request).2 ≡ success)
    × ((on_recv_data_transfer_req env
          (record ready { conf = record ready.conf { ttl = 3 } })
          (some wire)
          late).1.head.ret
        ≡ atnode_ttl)
unfolding on_recv_data_transfer_req send_msg next_hop is_child is_brother is_parent is_child_node
    is_brother_node is_parent_node find_child stamp send_transfer_rsp init get_data_connection
    get_ctrl_connection is_error
runs = (refl, refl, refl)

on_recv_data_transfer_req-Short_example :
    All (Short 17) (on_recv_data_transfer_req env ready (some wire) request).0.log
on_recv_data_transfer_req-Short_example =
    on_recv_data_transfer_req-Short env ready (some wire) request tt

abbrev caller : Connection
caller = record wire { state = handshaking; binding = none }

abbrev registration : RegData
registration = record {
  bus_id = 0x230;
  pid = 77;
  hostname = [];
  channels = [];
  children_id_mask = 4;
  has_global_tree = false;
}

registers :
    ((register env 30 start caller registration).2 ≡ success)
    × ((register env 30 start caller registration).1.binding ≡ some 30)
unfolding register is_connected get_endpoint child_check add_endpoint is_child is_brother is_parent
    is_child_node is_brother_node is_parent_node find_child insert_child add_connection is_error
registers = (refl, refl)

sample-Ranked : Ranked sample
sample-Ranked = (
  sample-Sound,
  λ e h. elim h [
    | inl eq ↦ subst (λ e. e.children_mask < 8) eq (omega arith)
    | inr h' ↦ elim h' [ ]
  ],
)

register-Ranked_example : Ranked (register env 30 start caller registration).0.family
register-Ranked_example =
    register-Ranked env 30 start caller registration (omega arith) sample-Ranked
