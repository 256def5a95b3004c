-- ===== src/Channel/Mem/Geometry.antt =====
-- The channel that `mem_init` lays out in a buffer.
use libatbus.Base.{
  ℕ, ◌+◌, ◌-◌, ◌*◌, ◌/◌, ◌^◌, ◌≤◌, ◌<◌, ◌≡◌, refl, some, arith, ltb, if_false, le→ltb-false,
}
use libatbus.Status.{success}
use libatbus.Channel.Mem.{MemChannel, mem_init, mem_default_conf, bin_power}
use libatbus.Channel.Mem.OneBlock.{Empty}

protects : (n : ℕ) → (mem_default_conf n).protect_node_count ≤ n
unfolding mem_default_conf
protects n = ground arith

-- In a buffer that holds the header and a node, and has less than 2 ^ 62 bytes, `mem_init` lays out
-- at least one node and an empty channel, with the heads of the nodes before their data and the data
-- inside the buffer.
pub mem_init-Empty :
    (len : ℕ)
    → 4232 ≤ len
    → len < 2 ^ 62
    → (c : MemChannel) × (mem_init len ≡ (some c, success))
      × Empty c
      × (0 < c.node_count)
      × (c.area_head_offset + c.node_count * 8 ≤ c.area_data_offset)
      × (c.area_data_offset + c.node_count * 128 ≤ len)
unfolding mem_init mem_default_conf bin_power
mem_init-Empty len h l = (
  _,
  if_false (ltb len 4232) _ _ (le→ltb-false len 4232 h),
  record {
    sized = record {
      node_size = refl;
      bin_power = refl;
      area_end = refl;
      protected = refl;
      count = omega arith;
      protects = protects ((len - 4096) / 136);
      reads = omega arith;
      writes = omega arith;
    };
    no_block = refl;
    free = λ j. refl;
    tries = omega arith;
  },
  omega arith,
  omega arith,
  omega arith,
)
