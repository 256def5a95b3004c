-- ===== src/Channel/Mem/Reading.antt =====
-- `mem_recv` on a whole block at the read cursor.
use libatbus.Base.{
  ℕ, zero, suc, ◌+◌, ◌-◌, ◌%◌, ◌≤◌, ◌<◌, ◌≡◌, ◌≢◌, refl, sym, ap, subst, ◌∙◌, inl, inr, true, not,
  ◌||◌, none, some, List, [], length, arith, ◌==◌, leb, ltb, if◌then◌else◌, ==_iff, if_true,
  if_false,
}
use native.Mathlib.Nat.{mod-eq_of_lt, mod-eq-sub-mod}
use libatbus.Status.{Status, success, bad_data, is_error}
use libatbus.Channel.Bytes.{load64}
use libatbus.Channel.Mem.{MemChannel, node_data, span, mem_calc_node_num, mem_fast_check}
use libatbus.Channel.Mem.Ring.{ring, wrap}
use libatbus.Channel.Mem.Heads.{Heads}
use libatbus.Channel.Mem.Recv.{
  Scan, Scanned, ended, take_nodes, take_block, check_block, scan_step, scan, get_data, clear_nodes,
  advance, Received, deliver, mem_recv,
}

-- A block of `k` nodes at `r`, whole and with the bytes `buf`; `take_nodes` stops behind it.
pub record Holds (c : MemChannel) (r k : ℕ) (buf : List ℕ) : Type 0 where
  pub begins : (c.heads r).start ≡ true
  pub whole : (c.heads r).writen ≡ true
  pub size : load64 (node_data c r) c.memory ≡ length buf
  pub bytes : get_data c r (length buf) ≡ buf
  pub check : load64 (node_data c r + 8) c.memory ≡ mem_fast_check buf
  pub inside : r < c.node_count
  pub fewer : k < c.node_count
  pub nodes : mem_calc_node_num c (length buf) ≡ k
  pub some_nodes : 0 < k
  pub some_bytes : 0 < length buf
  pub few_bytes : length buf < c.area_end_offset - c.area_data_offset - c.conf.protect_memory_size
  pub taken :
      take_nodes
        (span c.node_count c.node_count r c.write_cur)
        c.write_cur
        (c.heads r).operation_seq
        c.heads
      ≡ (clear_nodes (ring c.node_count r k) c.heads, (r + k) % c.node_count)
  pub apart : r ≢ c.write_cur

abbrev start : MemChannel → Scan
start c = record { channel = c; read_begin_cur = c.read_cur; ret = success }

-- What the loop ends with.
abbrev found : MemChannel → ℕ → Scanned
found c k = record {
  channel = record c { heads = clear_nodes (ring c.node_count c.read_cur k) c.heads };
  read_begin_cur = c.read_cur;
  read_end_cur = (c.read_cur + k) % c.node_count;
  ret = success;
  recv_size = none;
}

count_back : (n r k : ℕ) → r < n → 0 < k → k < n → ((r + k) % n + n - r) % n ≡ k
count_back n r k hr h0 hk = elim (wrap n r k hr (omega arith)) [
  | inl (e, l) ↦ ap (λ x. (x + n - r) % n) e ∙ ap (λ x. x % n) (omega arith) ∙ around k hk
  | inr (e, g) ↦ ap (λ x. (x + n - r) % n) e ∙ ap (λ x. x % n) (omega arith) ∙ mod-eq_of_lt hk
]
  where
    around : (k : ℕ) → k < n → (k + n) % n ≡ k
    around k hk =
        mod-eq-sub-mod {n = k + n} {m = n} (omega arith)
        ∙ ap (λ x. x % n) (omega arith)
        ∙ mod-eq_of_lt hk

-- The end of `take_block` on what `take_nodes` returns.
take_found :
    (c : MemChannel) (k : ℕ) (buf : List ℕ)
    → Holds c c.read_cur k buf
    → take_block c.write_cur (start c) (length buf) ≡ ended (found c k)
unfolding take_block
take_found c k buf h =
    let n = c.node_count in
    let back = count_back n c.read_cur k h.inside (omega arith) h.fewer in
    rw h.taken (
      if_true (mem_calc_node_num c (length buf) == ((c.read_cur + k) % n + n - c.read_cur) % n)
        (ended (found c k)) _
        ((==_iff (mem_calc_node_num c (length buf)) _).1 (h.nodes ∙ sym back)))

check_found :
    (c : MemChannel) (k len : ℕ) (buf : List ℕ)
    → length buf ≤ len
    → Holds c c.read_cur k buf
    → check_block len c.write_cur (start c) (length buf) ≡ ended (found c k)
unfolding check_block
check_found c k len buf hl h =
    let some_bytes = h.some_bytes in
    let few_bytes = h.few_bytes in
    let limit = c.area_end_offset - c.area_data_offset - c.conf.protect_memory_size in
    if_false ((length buf == 0) || leb limit (length buf)) _ _ (ground arith)
    ∙ if_false (ltb len (length buf)) _ _ (ground arith)
    ∙ take_found c k buf h

step_found :
    (c : MemChannel) (cnow k len : ℕ) (buf : List ℕ)
    → length buf ≤ len
    → Holds c c.read_cur k buf
    → scan_step cnow len c.write_cur (start c) ≡ ended (found c k)
unfolding scan_step
step_found c cnow k len buf hl h =
    let apart = h.apart in
    if_false (c.read_cur == c.write_cur) _ _ (ground arith)
    ∙ if_false (not (c.heads c.read_cur).start) _ _ (ap not h.begins)
    ∙ if_false (not (c.heads c.read_cur).writen) _ _ (ap not h.whole)
    ∙ ap (check_block len c.write_cur (start c)) h.size
    ∙ check_found c k len buf hl h

scan-found :
    (clock : ℕ → ℕ) (c : MemChannel) (k len turns : ℕ) (buf : List ℕ)
    → length buf ≤ len
    → Holds c c.read_cur k buf
    → scan clock len c.write_cur (suc turns) (start c) ≡ some (found c k)
unfolding scan
scan-found clock c k len turns buf hl h = rw (step_found c (clock turns) k len buf hl h, scan) refl

-- The channel behind the block: its nodes are clear, and the cursor stands after them.
abbrev pub behind : MemChannel → ℕ → MemChannel
behind c k = record c {
  first_failed_writing_time = 0;
  read_cur = (c.read_cur + k) % c.node_count;
  heads = clear_nodes (ring c.node_count c.read_cur k) c.heads;
}

abbrev pub received : MemChannel → ℕ → List ℕ → Received
received c k buf = record {
  channel = behind c k;
  ret = success;
  content = some buf;
  recv_size = some (length buf);
}

pub none_passed : (fuel n i : ℕ) → span fuel n i i ≡ []
unfolding span
none_passed zero n i = refl
none_passed (suc f) n i = ground arith

-- What `deliver` makes of the fields of the block and of the heads it leaves.
made : MemChannel → ℕ → ℕ → List ℕ → ℕ → Heads → Received
made c k size content check heads = record {
  channel = record c {
    first_failed_writing_time = 0;
    read_cur = (c.read_cur + k) % c.node_count;
    heads = heads;
  };
  ret = if mem_fast_check content == check then success else bad_data;
  content = some content;
  recv_size = some size;
}

with_ret : MemChannel → ℕ → List ℕ → Status → Received
with_ret c k buf ret = record {
  channel = behind c k;
  ret = ret;
  content = some buf;
  recv_size = some (length buf);
}

deliver-found :
    (c : MemChannel) (k : ℕ) (buf : List ℕ)
    → Holds c c.read_cur k buf
    → deliver c.read_cur (found c k) ≡ received c k buf
unfolding deliver advance clear_nodes is_error made with_ret
deliver-found c k buf h =
    let n = c.node_count in
    let r = c.read_cur in
    let left : Heads = clear_nodes (ring n r k) c.heads in
    let check = load64 (node_data c r + 8) c.memory in
    let passed : List ℕ → Heads = λ is. clear_nodes is left in
    ap (λ size. made c k size (get_data c r size) check (passed (span n n r r))) h.size
    ∙ ap (λ content. made c k (length buf) content check (passed (span n n r r))) h.bytes
    ∙ ap (λ check. made c k (length buf) buf check (passed (span n n r r))) h.check
    ∙ ap (λ is. made c k (length buf) buf (mem_fast_check buf) (passed is)) (none_passed n n r)
    ∙ ap (with_ret c k buf) (
        if_true (mem_fast_check buf == mem_fast_check buf) success bad_data
          ((==_iff (mem_fast_check buf) (mem_fast_check buf)).1 refl))

pub mem_recv_block :
    (clock : ℕ → ℕ) (c : MemChannel) (k len : ℕ) (buf : List ℕ)
    → length buf ≤ len
    → Holds c c.read_cur k buf
    → mem_recv clock c len ≡ some (received c k buf)
unfolding mem_recv
mem_recv_block clock c k len buf hl h =
    let turns : scan clock len c.write_cur c.node_count (start c) ≡ some (found c k) =
      subst (λ n. scan clock len c.write_cur n (start c) ≡ some (found c k)) (one_more h.inside)
        (scan-found clock c k len (c.node_count - 1) buf hl h) in
    rw (turns, mem_recv) (ap some (deliver-found c k buf h))
  where
    one_more : {r n : ℕ} → r < n → suc (n - 1) ≡ n
    one_more h = omega arith
