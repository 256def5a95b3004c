-- ===== src/Channel/Mem/Ending.antt =====
-- The loop of `mem_recv` ends: each turn that goes on passes a node.
use libatbus.Base.{
  ℕ, zero, suc, ◌+◌, ◌-◌, ◌%◌, ◌<◌, ◌≡◌, refl, sym, ap, subst, ◌∙◌, not, Option, none, some, arith,
  ◌==◌, if_true, on_either,
}
use native.Mathlib.Nat.{mod-eq_of_lt, mod-eq-sub-mod}
use native.Mathlib.Decide.{dec_lt}
use libatbus.Status.{Status, success, no_data}
use libatbus.Channel.Bytes.{load64}
use libatbus.Channel.Mem.{MemChannel, node_data, mem_next_index}
use libatbus.Channel.Mem.Ring.{ring_lt, step_more}
use libatbus.Channel.Mem.Recv.{
  Scan, Scanned, Step, again, ended, stop_at, skip, unfinished, take_block, check_block, scan_step,
  scan, Received, deliver, mem_recv,
}

Advances : Scan → Step → Type 0
Advances s (ended r) = Unit
Advances s (again s') =
    (s'.read_begin_cur ≡ (s.read_begin_cur + 1) % s.channel.node_count)
    × (s'.channel.node_count ≡ s.channel.node_count)

-- Where a turn goes on, it has left the number of nodes alone.
skip-Advances :
    (s : Scan) (c : MemChannel) (ret : Status)
    → c.node_count ≡ s.channel.node_count
    → Advances s (skip s c ret)
unfolding Advances skip mem_next_index
skip-Advances s c ret e = (refl, e)

stop-Advances :
    (s : Scan) (c : MemChannel) (code : Status) (size : Option ℕ)
    → Advances s (stop_at s c code size)
unfolding Advances stop_at
stop-Advances s c code size = tt

ended-Advances : (s : Scan) (r : Scanned) → Advances s (ended r)
unfolding Advances
ended-Advances s r = tt

unfinished-Advances : (cnow : ℕ) (s : Scan) → Advances s (unfinished cnow s)
unfolding unfinished
unfinished-Advances cnow s =
    on_either (Advances s) (stop-Advances s _ _ _)
      (on_either (Advances s) (skip-Advances s _ _ refl) (stop-Advances s _ _ _) _) _

take_block-Advances :
    (write_cur : ℕ) (s : Scan) (size : ℕ) → Advances s (take_block write_cur s size)
unfolding take_block
take_block-Advances write_cur s size =
    on_either (Advances s) (ended-Advances s _) (skip-Advances s _ _ refl) _

check_block-Advances :
    (len write_cur : ℕ) (s : Scan) (size : ℕ) → Advances s (check_block len write_cur s size)
unfolding check_block
check_block-Advances len write_cur s size =
    on_either (Advances s) (skip-Advances s _ _ refl)
      (on_either (Advances s) (stop-Advances s _ _ _) (take_block-Advances write_cur s size) _) _

step-Advances : (cnow len write_cur : ℕ) (s : Scan) → Advances s (scan_step cnow len write_cur s)
unfolding scan_step
step-Advances cnow len write_cur s =
    let c = s.channel in
    let head = c.heads s.read_begin_cur in
    on_either (Advances s) (stop-Advances s c no_data none)
      (on_either (Advances s) (skip-Advances s c s.ret refl)
        (on_either (Advances s) (unfinished-Advances cnow s)
          (check_block-Advances len write_cur s (load64 (node_data c s.read_begin_cur) c.memory))
          (not head.writen))
        (not head.start))
      (s.read_begin_cur == write_cur)

-- At the write cursor there is nothing to read.
stops :
    (cnow len : ℕ) (s : Scan)
    → scan_step cnow len s.read_begin_cur s ≡ stop_at s s.channel no_data none
unfolding scan_step
stops cnow len s = if_true (s.read_begin_cur == s.read_begin_cur) _ _ (ground arith)

Ends : Option Scanned → Type 0
Ends o = (r : Scanned) × (o ≡ some r)

-- A turn that passes a node, if the turns that are left then end the loop.
scan_turn :
    (clock : ℕ → ℕ) (len turns d : ℕ) (s : Scan)
    → 0 < s.channel.node_count
    → ((s' : Scan)
        → 0 < s'.channel.node_count
        → s'.read_begin_cur < s'.channel.node_count
        → Ends (scan clock len ((s'.read_begin_cur + d) % s'.channel.node_count) turns s'))
    → Ends (scan clock len ((s.read_begin_cur + suc d) % s.channel.node_count) (suc turns) s)
unfolding scan Ends Advances
scan_turn clock len turns d s h0 next = go (scan_step (clock turns) len write s) refl
  where
    write : ℕ
    write = (s.read_begin_cur + suc d) % s.channel.node_count

    meets :
        (s' : Scan)
        → s'.read_begin_cur ≡ (s.read_begin_cur + 1) % s.channel.node_count
        → s'.channel.node_count ≡ s.channel.node_count
        → (s'.read_begin_cur + d) % s'.channel.node_count ≡ write
    meets s' p q =
        ap (λ n. (s'.read_begin_cur + d) % n) q
        ∙ ap (λ r. (r + d) % s.channel.node_count) p
        ∙ step_more s.channel.node_count s.read_begin_cur d

    rest :
        (s' : Scan)
        → (s'.read_begin_cur ≡ (s.read_begin_cur + 1) % s.channel.node_count)
          × (s'.channel.node_count ≡ s.channel.node_count)
        → Ends (scan clock len write turns s')
    rest s' (p, q) =
        let lt : s'.read_begin_cur < s'.channel.node_count =
          omega (arith, ring_lt s.channel.node_count (s.read_begin_cur + 1) h0) in
        subst (λ e. Ends (scan clock len e turns s')) (meets s' p q) (next s' (omega arith) lt)

    go :
        (step : Step)
        → scan_step (clock turns) len write s ≡ step
        → Ends (scan clock len write (suc turns) s)
    go (ended r) e = rw (e, scan) (r, refl)
    go (again s') e =
        rw (e, scan) (rest s' (subst (Advances s) e (step-Advances (clock turns) len write s)))

scan-Ends :
    (clock : ℕ → ℕ) (len turns d : ℕ) (s : Scan)
    → 0 < s.channel.node_count
    → s.read_begin_cur < s.channel.node_count
    → d < turns
    → Ends (scan clock len ((s.read_begin_cur + d) % s.channel.node_count) turns s)
unfolding scan stop_at Ends
scan-Ends clock len zero d s h0 hs hd = absurd (omega arith)
scan-Ends clock len (suc turns) zero s h0 hs hd =
    subst (λ write. Ends (scan clock len write (suc turns) s)) (sym here')
      (rw (stops (clock turns) len s, scan) (_, refl))
  where
    here' : (s.read_begin_cur + 0) % s.channel.node_count ≡ s.read_begin_cur
    here' =
        omega
          (arith, mod-eq_of_lt {n = s.read_begin_cur + 0} {m = s.channel.node_count} (omega arith))
scan-Ends clock len (suc turns) (suc d) s h0 hs hd =
    scan_turn clock len turns d s h0 (λ s' h hb. scan-Ends clock len turns d s' h hb (omega arith))

steps_to : (n r w : ℕ) → r < n → w < n → (d : ℕ) × (d < n) × ((r + d) % n ≡ w)
steps_to n r w hr hw = elim (dec_lt w r) [
  | no h ↦ (w - r, omega arith, ap (λ x. x % n) (omega arith) ∙ mod-eq_of_lt {n = w} {m = n} hw)
  | yes h ↦ (w + n - r, omega arith, ap (λ x. x % n) (omega arith) ∙ around h)
]
  where
    around : w < r → (w + n) % n ≡ w
    around h =
        mod-eq-sub-mod {n = w + n} {m = n} (omega arith)
        ∙ ap (λ x. x % n) (omega arith)
        ∙ mod-eq_of_lt {n = w} {m = n} hw

-- `mem_recv` returns on every channel, whatever its nodes hold: its loop needs no more turns than
-- there are nodes.
pub mem_recv_returns :
    (clock : ℕ → ℕ) (c : MemChannel) (len : ℕ)
    → c.read_cur < c.node_count
    → c.write_cur < c.node_count
    → (r : Received) × (mem_recv clock c len ≡ some r)
unfolding mem_recv Ends
mem_recv_returns clock c len hr hw =
    let (d, lt, meets) = steps_to c.node_count c.read_cur c.write_cur hr hw in
    let (r, e) =
      subst (λ write. Ends (scan clock len write c.node_count start)) meets
        (scan-Ends clock len c.node_count d start (omega arith) hr lt) in
    rw (e, mem_recv) (deliver c.read_cur r, refl)
  where
    start : Scan
    start = record { channel = c; read_begin_cur = c.read_cur; ret = success }
