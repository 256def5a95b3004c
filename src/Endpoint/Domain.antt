-- ===== src/Endpoint/Domain.antt =====
-- The identifiers of src/atbus_endpoint.cpp: which bus ids an endpoint answers for.
-- A bus id is a `uint64_t`. The source computes `1 << mask` in an `int`, which is defined for masks
-- below 31; the mask is then widened to 64 bits with its sign.
pub mod Interval
mod Tests
use Prim.Native.Nat.{bit_and, bit_or}
use libatbus.Base.{ℕ, ◌+◌, ◌-◌, ◌^◌, ◌<◌, Bool, not, ◌&&◌, ◌||◌, ◌==◌}

-- An `endpoint::ptr_t`: the object that it points to, with the two fields which `create` sets and
-- nothing changes.
pub record EndpointPtr : Type 0 where
  pub handle : ℕ
  pub id : ℕ
  pub children_mask : ℕ

-- `(1 << mask) - 1`, and `~` at 64 bits.
abbrev pub low_ones : ℕ → ℕ
low_ones mask = 2 ^ mask - 1

abbrev pub complement : ℕ → ℕ
complement x = 2 ^ 64 - 1 - x

unfoldable pub is_child_node : EndpointPtr → ℕ → Bool
is_child_node e id =
    let mask = complement (low_ones e.children_mask) in bit_and id mask == bit_and e.id mask

unfoldable pub is_brother_node : EndpointPtr → ℕ → ℕ → Bool
is_brother_node e id father_mask =
    let c_mask = complement (low_ones e.children_mask) in
    let f_mask = complement (low_ones father_mask) in
    not (bit_and id c_mask == bit_and e.id c_mask)
    && (0 == father_mask || bit_and id f_mask == bit_and e.id f_mask)

unfoldable pub is_parent_node : ℕ → ℕ → ℕ → Bool
is_parent_node id father_id father_mask = id == father_id

unfoldable pub get_children_min_id : ℕ → ℕ → ℕ
get_children_min_id id mask = let maskv = low_ones mask in bit_and id (complement maskv)

unfoldable pub get_children_max_id : ℕ → ℕ → ℕ
get_children_max_id id mask = let maskv = low_ones mask in bit_or id maskv

-- The values for which the source computes the masks that it means.
pub record IsValid (e : EndpointPtr) : Type 0 where
  pub id_bound : e.id < 2 ^ 64
  pub mask_bound : e.children_mask < 31
