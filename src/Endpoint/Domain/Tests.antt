-- ===== src/Endpoint/Domain/Tests.antt =====
-- Concrete ids, and the theorems at them.
use libatbus.Base.{◌≡◌, ◌↔◌, refl, true, false, arith}
use libatbus.Endpoint.Domain.{
  EndpointPtr, is_child_node, is_brother_node, get_children_min_id, get_children_max_id,
}
use libatbus.Endpoint.Domain.Interval.{Contains, is_child_node_iff}

abbrev parent : EndpointPtr
parent = record { handle = 1; id = 0x12345678; children_mask = 16 }

abbrev other : EndpointPtr
other = record { handle = 2; id = 0x12356789; children_mask = 16 }

-- The cases of test/case/atbus_endpoint_test.cpp.
ids :
    (get_children_min_id 0x12345678 16 ≡ 0x12340000)
    × (get_children_max_id 0x12345678 16 ≡ 0x1234ffff)
    × (is_child_node parent 0x12345679 ≡ true)
    × (is_child_node parent 0x12356789 ≡ false)
    × (is_brother_node parent 0x12356789 24 ≡ true)
    × (is_brother_node parent 0x12345679 24 ≡ false)
unfolding get_children_min_id get_children_max_id is_child_node is_brother_node
ids = (refl, refl, refl, refl, refl, refl)

is_child_node_iff_example : (is_child_node parent 0x12345679 ≡ true) ↔ Contains parent 0x12345679
is_child_node_iff_example = is_child_node_iff {e = parent} 0x12345679 (omega arith) (omega arith)
