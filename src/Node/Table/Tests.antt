-- ===== src/Node/Table/Tests.antt =====
-- Concrete tables: runs of the operations, and the theorems at inputs that meet their hypotheses.
use libatbus.Base.{◌≡◌, ◌↔◌, refl, some, none, true, false, [], ◌∷◌, arith, if◌then◌else◌, ◌&&◌}
use libatbus.Endpoint.Domain.{EndpointPtr, is_child_node, get_children_min_id, get_children_max_id}
use libatbus.Endpoint.Domain.Interval.{Apart, Contains}
use libatbus.Node.Table.{Collection, find_child, insert_child, remove_child}
use libatbus.Node.Table.WellFormed.{WellFormed, Has}
use libatbus.Node.Table.Find.{find_child_iff}
use libatbus.Node.Table.Accept.{insert_child-WellFormed, insert_child_iff, find_child-insert_child}
use libatbus.Node.Table.Remove.{find_child-remove_child, other_than}

abbrev low : EndpointPtr
low = record { handle = 1; id = 0x105; children_mask = 8 }

abbrev high : EndpointPtr
high = record { handle = 2; id = 0x300; children_mask = 8 }

abbrev between : EndpointPtr
between = record { handle = 3; id = 0x204; children_mask = 4 }

abbrev above_all : EndpointPtr
above_all = record { handle = 4; id = 0x200; children_mask = 9 }

abbrev table : Collection
table = (0x1ff, low) ∷ (0x3ff, high) ∷ []

runs :
    (find_child table 0x177 ≡ some low)
    × (find_child table 0x204 ≡ none)
    × (insert_child table between ≡ ((0x1ff, low) ∷ (0x20f, between) ∷ (0x3ff, high) ∷ [], true))
    × (insert_child table above_all ≡ (table, false))
    × (remove_child table 0x300 ≡ ((0x1ff, low) ∷ [], true))
    × (remove_child table 0x301 ≡ (table, false))
unfolding find_child insert_child remove_child is_child_node get_children_max_id
runs = (refl, refl, refl, refl, refl, refl)

table-WellFormed : WellFormed 0 table
unfolding get_children_min_id get_children_max_id
table-WellFormed = omega arith

find_child_iff_example : (find_child table 0x177 ≡ some low) ↔ (Has low table × Contains low 0x177)
find_child_iff_example = find_child_iff 0 0x177 table low table-WellFormed (omega arith)

insert_child-WellFormed_example : WellFormed 0 (insert_child table between).0
insert_child-WellFormed_example =
    insert_child-WellFormed table between table-WellFormed (omega arith)

insert_child_iff_example :
    ((insert_child table between).1 ≡ true) ↔ ((e : EndpointPtr) → Has e table → Apart e between)
insert_child_iff_example = insert_child_iff table between table-WellFormed (omega arith)

find_child-insert_child_example : find_child (insert_child table between).0 0x20f ≡ (
    if (insert_child table between).1 && is_child_node between 0x20f
    then some between
    else find_child table 0x20f)
find_child-insert_child_example =
    find_child-insert_child table between 0x20f table-WellFormed (omega arith) (omega arith)

find_child-remove_child_example :
    find_child (remove_child table 0x300).0 0x377 ≡ other_than 0x300 (find_child table 0x377)
find_child-remove_child_example =
    find_child-remove_child table 0x300 0x377 table-WellFormed (omega arith)
