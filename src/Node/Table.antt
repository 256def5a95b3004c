-- ===== src/Node/Table.antt =====
-- The routing tables of src/atbus_node.cpp: `endpoint_collection_t`, a `std::map` from the last id
-- of a domain to its endpoint. It is a list in ascending order of the keys.
pub mod WellFormed
pub mod Find
pub mod Insert
pub mod Fits
pub mod Accept
pub mod Remove
mod Tests
use libatbus.Base.{
  ℕ, Bool, true, false, ◌&&◌, ◌||◌, Option, none, some, List, [], ◌∷◌, if◌then◌else◌, ◌==◌, ltb,
}
use libatbus.Endpoint.Domain.{EndpointPtr, is_child_node, get_children_max_id}

abbrev pub Collection : Type 0
Collection = List (ℕ × EndpointPtr)

-- `coll.lower_bound(id)`, as the entries from the iterator on; `[]` is `coll.end()`.
pub lower_bound : ℕ → Collection → Collection
lower_bound id [] = []
lower_bound id ((k, e) ∷ coll) = if ltb k id then lower_bound id coll else (k, e) ∷ coll

-- What `--iter` reaches from `coll.lower_bound(id)`; `none` at `coll.begin()`.
pub previous : ℕ → Collection → Option EndpointPtr
previous id [] = none
previous id ((k, e) ∷ coll) =
    if ltb k id then elim (previous id coll) [ none ↦ some e | some p ↦ some p ] else none

-- `coll.rbegin()->second`, `none` on the empty collection.
pub get_last? : Collection → Option EndpointPtr
get_last? [] = none
get_last? ((k, e) ∷ coll) = elim (get_last? coll) [ none ↦ some e | some p ↦ some p ]

-- `coll[key] = ep`
pub assign : ℕ → EndpointPtr → Collection → Collection
assign key ep [] = (key, ep) ∷ []
assign key ep ((k, e) ∷ coll) =
    if ltb k key
    then (k, e) ∷ assign key ep coll
    else if k == key
    then (key, ep) ∷ coll
    else (key, ep) ∷ (k, e) ∷ coll

-- `coll.erase(coll.lower_bound(id))`
pub erase : ℕ → Collection → Collection
erase id [] = []
erase id ((k, e) ∷ coll) = if ltb k id then (k, e) ∷ erase id coll else coll

pub find_at : ℕ → Collection → Option EndpointPtr
find_at id [] = none
find_at id ((k, e) ∷ coll) =
    if e.id == id then some e else if is_child_node e id then some e else none

unfoldable pub find_child : Collection → ℕ → Option EndpointPtr
unfolding lower_bound find_at
find_child coll id = find_at id (lower_bound id coll)

-- `ep != NULL && ep2.is_child_node(ep->get_id())`
pub covers : EndpointPtr → Option EndpointPtr → Bool
covers ep none = false
covers ep (some e) = is_child_node ep e.id

pub insert_at : Collection → EndpointPtr → Collection → Bool
insert_at coll ep [] = if covers ep (get_last? coll) then false else true
insert_at coll ep ((k, e) ∷ rest) =
    if e.id == ep.id
    then false
    else if is_child_node e ep.id || is_child_node ep e.id
    then false
    else if covers ep (previous ep.id coll)
    then false
    else true

-- The collection after the call and the result.
unfoldable pub insert_child : Collection → EndpointPtr → Collection × Bool
unfolding lower_bound previous get_last? assign insert_at covers
insert_child coll ep =
    let maskv = get_children_max_id ep.id ep.children_mask in
    if insert_at coll ep (lower_bound ep.id coll)
    then (assign maskv ep coll, true)
    else (coll, false)

pub remove_at : Collection → ℕ → Collection → Collection × Bool
remove_at coll id [] = (coll, false)
remove_at coll id ((k, e) ∷ rest) = if e.id == id then (erase id coll, true) else (coll, false)

unfoldable pub remove_child : Collection → ℕ → Collection × Bool
unfolding lower_bound erase remove_at
remove_child coll id = remove_at coll id (lower_bound id coll)
