-- ===== src/Channel/Mem/Layout.antt =====
-- Where the bytes of a block lie, and that they are read as they were written.
use libatbus.Base.{
  ℕ, suc, ◌+◌, ◌-◌, ◌*◌, ◌/◌, ◌%◌, ◌^◌, ◌≤◌, ◌<◌, ◌≡◌, sym, ap, ap₂, subst, ◌∙◌, inl, inr, true,
  false, not, ◌&&◌, List, ◌++◌, length, take, drop, length-take, length-drop, take-drop, arith,
  ◌==◌, leb, ltb, if_true, if_false, Bool-cases, le→leb, lt→leb-false,
}
use libatbus.Channel.Bytes.{Memory, memcpy, read, store64, load64, bytes}
use libatbus.Channel.Bytes.Laws.{Disjoint, read-Disjoint, read-memcpy, length-bytes, load-Disjoint}
use libatbus.Channel.Mem.{MemChannel, node_data, block_data, block_room, mem_calc_node_num}
use libatbus.Channel.Mem.Ring.{wrap}
use libatbus.Channel.Mem.Send.{put_data}
use libatbus.Channel.Mem.Recv.{get_data}

-- The geometry that `mem_init` gives a channel, and its cursors.
pub record Sized (c : MemChannel) : Type 0 where
  pub node_size : c.node_size ≡ 128
  pub bin_power : c.node_size_bin_power ≡ 7
  pub area_end : c.area_end_offset ≡ c.area_data_offset + c.node_count * 128
  pub protected : c.conf.protect_memory_size ≡ c.conf.protect_node_count * 128
  pub count : c.node_count < 2 ^ 56
  pub protects : c.conf.protect_node_count ≤ c.node_count
  pub reads : c.read_cur < c.node_count
  pub writes : c.write_cur < c.node_count

pub node_num_bounds :
    (c : MemChannel) (len k : ℕ)
    → Sized c
    → len < 2 ^ 63
    → mem_calc_node_num c len ≡ k
    → (len + 16 ≤ 128 * k) × (128 * k < len + 144)
unfolding mem_calc_node_num
node_num_bounds c len k s hl e =
    let e' : (len + 16 + 128 - 1) % 2 ^ 64 / 2 ^ 7 ≡ k = rw (s.node_size, s.bin_power) at e in
    omega arith

-- The field of 64 bits at `h + 8` and the data of a block behind it.
after_check :
    (src k dst v : ℕ) (m : Memory)
    → Disjoint src k dst 8
    → read src k (store64 dst v m) ≡ read src k m
after_check src k dst v m h =
    read-Disjoint src k dst (bytes 8 v) m
      (subst (λ n. Disjoint src k dst n) (sym (length-bytes 8 v)) h)

pub read_flat :
    (h check : ℕ) (buf : List ℕ) (m : Memory)
    → read (h + 16) (length buf) (store64 (h + 8) check (memcpy (h + 16) buf m)) ≡ buf
read_flat h check buf m =
    after_check (h + 16) (length buf) (h + 8) check _ (inr (omega arith))
    ∙ read-memcpy (h + 16) buf m

pub read_wrapped :
    (h check room low : ℕ) (buf : List ℕ) (m : Memory)
    → room ≤ length buf
    → low + (length buf - room) ≤ h
    → read
          (h + 16)
          room
          (store64 (h + 8) check (memcpy low (drop room buf) (memcpy (h + 16) (take room buf) m)))
        ++ read low
            (length buf - room)
            (store64 (h + 8) check (memcpy low (drop room buf) (memcpy (h + 16) (take room buf) m)))
      ≡ buf
read_wrapped h check room low buf m hr hl =
    let high = memcpy (h + 16) (take room buf) m in
    let size = length-drop room buf hr in
    ap₂ ◌++◌
      (after_check (h + 16) room (h + 8) check _ (inr (omega arith))
        ∙ read-Disjoint (h + 16) room low (drop room buf) high (inr (omega arith))
        ∙ subst (λ n. read (h + 16) n high ≡ take room buf) (length-take room buf hr)
            (read-memcpy (h + 16) (take room buf) m))
      (after_check low (length buf - room) (h + 8) check _ (inl (omega arith))
        ∙ subst (λ n. read low n (memcpy low (drop room buf) high) ≡ drop room buf) size
            (read-memcpy low (drop room buf) high))
    ∙ take-drop room buf

-- A block without a wrap.
pub flat :
    (c : MemChannel) (w new : ℕ) (buf : List ℕ) (m : Memory)
    → (not (new == 0) && ltb new w) ≡ false
    → put_data c w new buf m ≡ memcpy (block_data c w) buf m
unfolding put_data
flat c w new buf m h = if_false (not (new == 0) && ltb new w) _ _ h

pub wrapped :
    (c : MemChannel) (w new : ℕ) (buf : List ℕ) (m : Memory)
    → (not (new == 0) && ltb new w) ≡ true
    → block_room c w < length buf
    → put_data c w new buf m
      ≡ memcpy
          (node_data c 0)
          (drop (block_room c w) buf)
          (memcpy (block_data c w) (take (block_room c w) buf) m)
unfolding put_data
wrapped c w new buf m h l =
    if_true (not (new == 0) && ltb new w) _ _ h
    ∙ ap (λ n. memcpy (node_data c 0) (drop n buf) (memcpy (block_data c w) (take n buf) m))
        (if_true (ltb (block_room c w) (length buf)) (block_room c w) (length buf) (ground arith))

module _ (c : MemChannel) (w d check : ℕ) (buf : List ℕ) (m : Memory) (s : Sized c)
    (hw : w < c.node_count) (hd : suc d < c.node_count) (fits : length buf + 16 ≤ 128 * suc d)
    (fills : 128 * suc d < length buf + 144) where
  abbrev new : ℕ
  new = (w + suc d) % c.node_count

  abbrev written : Memory
  written = store64 (node_data c w + 8) check (put_data c w new buf m)

  size_kept :
      (x : Memory)
      → load64 (node_data c w) (store64 (node_data c w + 8) check x) ≡ load64 (node_data c w) x
  size_kept x =
      load-Disjoint (node_data c w) (node_data c w + 8) (bytes 8 check) x (inl (omega arith))

  pub near : (not (new == 0) && ltb new w) ≡ false → length buf ≤ block_room c w
  near e = elim (wrap c.node_count w (suc d) hw (omega arith)) [
    | inl (p, q) ↦ omega (arith, s.area_end)
    | inr (p, q) ↦
        let none_over : w + suc d ≡ c.node_count = ground (arith, p) in omega (arith, s.area_end)
  ]

  pub far :
      (not (new == 0) && ltb new w) ≡ true
      → (block_room c w < length buf)
        × (node_data c 0 + (length buf - block_room c w) ≤ node_data c w)
  far e =
      let lower : new < w = ground arith in
      let over : 0 < new = ground arith in
      elim (wrap c.node_count w (suc d) hw (omega arith)) [
        | inl (p, q) ↦ absurd (omega (arith, p))
        | inr (p, q) ↦ (omega (arith, s.area_end, p), omega (arith, s.area_end, p))
      ]

  stays :
      (not (new == 0) && ltb new w) ≡ false
      → (get_data (record c { memory = written }) w (length buf) ≡ buf)
        × (load64 (node_data c w) written ≡ load64 (node_data c w) m)
  unfolding get_data
  stays e =
      let put = flat c w new buf m e in
      (
        if_true (leb (length buf) (block_room c w)) _ _
              (le→leb (length buf) (block_room c w) (near e))
            ∙ ap (λ x. read (block_data c w) (length buf) (store64 (node_data c w + 8) check x)) put
            ∙ read_flat (node_data c w) check buf m,
        size_kept (put_data c w new buf m)
            ∙ ap (load64 (node_data c w)) put
            ∙ load-Disjoint (node_data c w) (block_data c w) buf m (inl (omega arith)),
      )

  wraps :
      (not (new == 0) && ltb new w) ≡ true
      → (get_data (record c { memory = written }) w (length buf) ≡ buf)
        × (load64 (node_data c w) written ≡ load64 (node_data c w) m)
  unfolding get_data
  wraps e =
      let (big, low) = far e in
      let room = block_room c w in
      let put = wrapped c w new buf m e big in
      let least = node_data c 0 in
      (
        if_false (leb (length buf) room) _ _ (lt→leb-false (length buf) room big)
            ∙ ap
                (λ x.
                  read (block_data c w) room (store64 (node_data c w + 8) check x)
                  ++ read least (length buf - room) (store64 (node_data c w + 8) check x))
                put
            ∙ read_wrapped (node_data c w) check room least buf m (omega arith) low,
        size_kept (put_data c w new buf m)
            ∙ ap (load64 (node_data c w)) put
            ∙ load-Disjoint (node_data c w) least (drop room buf) _
                (inr (omega (arith, length-drop room buf (omega arith))))
            ∙ load-Disjoint (node_data c w) (block_data c w) (take room buf) m (inl (omega arith)),
      )

  -- The bytes of a block are read as they were written, with its size left alone.
  pub get-put_data :
      (get_data (record c { memory = written }) w (length buf) ≡ buf)
      × (load64 (node_data c w) written ≡ load64 (node_data c w) m)
  get-put_data = elim (Bool-cases (not (new == 0) && ltb new w)) [
    | inl e ↦ wraps e
    | inr e ↦ stays e
  ]
