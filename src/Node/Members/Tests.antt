-- ===== src/Node/Members/Tests.antt =====
-- Runs on a node with a father, a brother and a child.
use libatbus.Base.{◌≡◌, ◌≢◌, ◌↔◌, ◌⊎◌, refl, true, none, some, arith}
use libatbus.Status.{success, atnode_mask_conflict, atnode_not_found, atnode_invalid_id, params}
use libatbus.Endpoint.Domain.{is_child_node, is_brother_node, is_parent_node, get_children_max_id}
use libatbus.Node.Table.{find_child, insert_child, remove_child}
use libatbus.Node.State.{is_child, is_brother, is_parent, lost_parent}
use libatbus.Node.Members.{
  add_endpoint, remove_endpoint, disconnect, get_endpoint, is_father, exact, covers_self,
}
use libatbus.Node.Members.Sample.{
  parent, sibling, kid, newcomer, sample, start, valid, sample-Sound,
}
use libatbus.Node.Members.Sound.{Sound, add_endpoint-Sound}
use libatbus.Node.Members.Effect.{get_endpoint-remove_endpoint_each}
use libatbus.Node.Members.Disconnect.{disconnect_each}
use libatbus.Node.Members.Lookup.{get_endpoint-add_endpoint, disconnect_keeps_child}

runs :
    ((add_endpoint start (some (newcomer, 9))).1 ≡ success)
    × ((add_endpoint start (some (newcomer, 8))).1 ≡ params)
    × ((add_endpoint start (some (kid, 9))).1 ≡ atnode_mask_conflict)
    × ((add_endpoint start (some (parent, 9))).1 ≡ atnode_invalid_id)
    × (get_endpoint sample 0x210 ≡ some kid)
    × (get_endpoint sample 0x211 ≡ none)
    × ((remove_endpoint start 0x210).1 ≡ success)
    × ((remove_endpoint start 0x1).0.state ≡ lost_parent)
    × ((disconnect start 0x211).1 ≡ atnode_not_found)
unfolding add_endpoint remove_endpoint disconnect get_endpoint covers_self is_child is_brother
    is_parent is_child_node is_brother_node is_parent_node find_child insert_child remove_child
    get_children_max_id
runs = (refl, refl, refl, refl, refl, refl, refl, refl, refl)

add_endpoint-Sound_example : Sound (add_endpoint start (some (newcomer, 9))).0.family
add_endpoint-Sound_example =
    add_endpoint-Sound start newcomer 9 sample-Sound (valid newcomer (omega arith) (omega arith))

get_endpoint-remove_endpoint_each_example :
    (((remove_endpoint start 0x210).1 ≡ success) ↔ (get_endpoint sample 0x210 ≢ none))
    × (get_endpoint (remove_endpoint start 0x210).0.family 0x300 ≡ some sibling)
unfolding get_endpoint is_child is_brother is_parent is_child_node is_brother_node is_parent_node
    find_child
get_endpoint-remove_endpoint_each_example =
    get_endpoint-remove_endpoint_each start 0x210 0x300 sample-Sound (omega arith)

disconnect_each_example :
    (((disconnect start 0x300).1 ≡ success) ↔ (
      (is_father sample 0x300 ≡ true)
      ⊎ ((exact 0x300 (find_child sample.brother 0x300) ≢ none)
          ⊎ (exact 0x300 (find_child sample.children 0x300) ≢ none))))
    × (((disconnect start 0x300).0.father ≡ some parent)
        × ((disconnect start 0x300).0.children ≡ start.children)
        × (find_child (disconnect start 0x300).0.brother 0x300 ≡ none))
unfolding is_father find_child is_child_node
disconnect_each_example = disconnect_each start 0x300 0x300 sample-Sound (omega arith)

get_endpoint-add_endpoint_example :
    get_endpoint (add_endpoint start (some (newcomer, 9))).0.family 0x220 ≡ some newcomer
unfolding add_endpoint covers_self is_child is_brother is_parent is_child_node is_brother_node
    is_parent_node insert_child
get_endpoint-add_endpoint_example =
    get_endpoint-add_endpoint start newcomer 9 sample-Sound
      (valid newcomer (omega arith) (omega arith)) refl refl

disconnect_keeps_child_example :
    ((disconnect start 0x210).1 ≡ success)
    × (find_child (disconnect start 0x210).0.children 0x210 ≡ find_child start.children 0x210)
unfolding is_father exact find_child is_child_node
disconnect_keeps_child_example = disconnect_keeps_child start 0x210 kid refl refl refl
