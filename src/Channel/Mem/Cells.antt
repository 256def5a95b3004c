-- ===== src/Channel/Mem/Cells.antt =====
-- The cells that a block is written to are those of its nodes.
use libatbus.Base.{
  ℕ, suc, ◌+◌, ◌*◌, ◌%◌, ◌≤◌, ◌<◌, ◌≡◌, sym, ap, subst, ◌∙◌, inl, inr, not, ◌&&◌, List, length,
  take, drop, length-take, length-drop, arith, ◌==◌, ltb, Bool-cases,
}
use native.Mathlib.Decide.{dec_lt}
use libatbus.Channel.Bytes.{Memory, store64, bytes}
use libatbus.Channel.Bytes.Laws.{Outside, memcpy-Outside, length-bytes}
use libatbus.Channel.Mem.{MemChannel, node_data, block_data, block_room}
use libatbus.Channel.Mem.Send.{put_data}
use libatbus.Channel.Mem.Layout.{Sized, flat, wrapped, near, far}
use libatbus.Channel.Mem.Blocks.{area_of, InNodes}

-- A cell that no interval holds.
outside : (x dst k : ℕ) → (dst ≤ x → x < dst + k → ⊥) → Outside x dst k
outside x dst k h = elim (dec_lt x dst) [
  | yes l ↦ inl l
  | no l ↦ elim (dec_lt x (dst + k)) [
    | yes u ↦ absurd (h (omega arith) u)
    | no u ↦ inr (omega arith)
  ]
]

pub store_other :
    (dst v : ℕ) (m : Memory) (x : ℕ) → (dst ≤ x → x < dst + 8 → ⊥) → store64 dst v m x ≡ m x
store_other dst v m x h =
    memcpy-Outside dst (bytes 8 v) m x
      (subst (λ k. Outside x dst k) (sym (length-bytes 8 v)) (outside x dst 8 h))

module _ (c : MemChannel) (w d check : ℕ) (buf : List ℕ) (m : Memory) (s : Sized c)
    (hw : w < c.node_count) (hd : suc d < c.node_count) (fits : length buf + 16 ≤ 128 * suc d)
    (fills : 128 * suc d < length buf + 144) where
  abbrev new : ℕ
  new = (w + suc d) % c.node_count

  pub put_data_other :
      (x : ℕ) → ¬ (InNodes (area_of c) w (suc d) x) → put_data c w new buf m x ≡ m x
  put_data_other x no' = elim (Bool-cases (not (new == 0) && ltb new w)) [
    | inr e ↦
        let close = near c w d check buf m s hw hd fits fills e in
        ap (λ (f : Memory). f x) (flat c w new buf m e)
        ∙ memcpy-Outside (block_data c w) buf m x (
            outside x (block_data c w) (length buf)
              (λ l u. no' (inl (omega arith, omega arith, omega (arith, s.area_end)))))
    | inl e ↦
        let (big, low) = far c w d check buf m s hw hd fits fills e in
        let room = block_room c w in
        let over : c.node_count ≤ w + suc d = omega (arith, s.area_end) in
        let short = length-take room buf (omega arith) in
        let long = length-drop room buf (omega arith) in
        ap (λ (f : Memory). f x) (wrapped c w new buf m e big)
        ∙ memcpy-Outside (node_data c 0) (drop room buf) _ x (
            outside x (node_data c 0) (length (drop room buf))
              (λ l u. no' (inr (omega arith, omega (arith, s.area_end)))))
        ∙ memcpy-Outside (block_data c w) (take room buf) m x (
            outside x (block_data c w) (length (take room buf)) (λ l u.
              no' (inl (omega arith, omega (arith, s.area_end), omega (arith, s.area_end)))))
  ]
