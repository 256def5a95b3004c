-- ===== src/Node/Route.antt =====
-- The choice of the next node for a message: the branches of `node::send_msg` in src/atbus_node.cpp.
pub mod Delivery
mod Tests
use libatbus.Base.{
  ℕ, zero, suc, Bool, true, false, not, Option, none, some, List, [], ◌∷◌, if◌then◌else◌, ◌==◌,
}
use libatbus.Endpoint.Domain.{EndpointPtr, is_child_node}
use libatbus.Node.Table.{find_child}
use libatbus.Node.State.{Family, is_child, is_brother, is_parent}

-- What `send_msg` decides: the node itself, the endpoint `target`, one of its two errors.
pub data Hop : Type 0 where
  here : Hop
  to : EndpointPtr → Hop
  invalid_id : Hop
  no_connection : Hop

-- `NULL != target && target->is_child_node(tid)`
pub within : ℕ → Option EndpointPtr → Option EndpointPtr
within tid none = none
within tid (some e) = if is_child_node e tid then some e else none

to_or : Hop → Option EndpointPtr → Hop
to_or h none = h
to_or h (some e) = to e

-- The father, for a node without a global routing table.
upwards : Family → Bool → Option EndpointPtr
upwards f global_router = if global_router then none else f.father

unfoldable pub next_hop : Family → Bool → ℕ → Hop
unfolding within to_or upwards
next_hop f global_router tid =
    if tid == f.self.id
    then here
    else if is_parent f tid
    then to_or no_connection f.father
    else if is_brother f tid
    then elim (within tid (find_child f.brother tid)) [
      | some e ↦ to e
      | none ↦ to_or invalid_id (upwards f global_router)
    ]
    else if is_child f tid
    then to_or invalid_id (within tid (find_child f.children tid))
    else to_or no_connection (upwards f global_router)
