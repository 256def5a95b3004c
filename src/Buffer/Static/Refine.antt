-- ===== src/Buffer/Static/Refine.antt =====
-- The static mode of the buffer manager does what the dynamic mode does, in one piece of memory.
use libatbus.Base.{
  ℕ, ◌+◌, ◌<◌, ◌≡◌, refl, sym, subst, inl, Option, none, some, List, [], ◌∷◌, All, arith, if_false,
  ◌||◌, ◌==◌,
}
use native.Mathlib.Nat.{mod-eq_of_lt}
use libatbus.Status.{Status}
use libatbus.Buffer.Manager.{Manager}
use libatbus.Buffer.Static.{StaticBuffer, StaticManager, buffer_end, set_mode}
use libatbus.Buffer.Static.Layout.{Placed}
use libatbus.Buffer.Static.Separate.{Inside, Separate, Laid-Separate, Laid-Inside}
use libatbus.Buffer.Static.Slots.{Held}
use libatbus.Buffer.Static.View.{as_dynamic}
use libatbus.Buffer.Static.Memory.{
  Stays, StaysIf, StaysPopped, limited_push_back-Stays, limited_push_front-Stays, pop_back-StaysIf,
  pop_front-StaysIf,
}
use libatbus.Buffer.Static.Spec.{
  Op, add_back, add_front, drop_back, drop_front, Reply, Answer, Fits,
}
use libatbus.Buffer.Static.Calls.{answered, call, Does, call-Does}

-- None would be a call that follows a null pointer.
pub run : StaticManager → List Op → Option (StaticManager × List Reply)
run m [] = some (m, [])
run m (op ∷ ops) = elim (call m op) [
  | none ↦ none
  | some (m', ret, pointer) ↦ elim (run m' ops) [
    | none ↦ none
    | some (m', replies) ↦ some (m', (ret, pointer) ∷ replies)
  ]
]

-- The replies are ones that the dynamic mode could give, and `d'` is what it would come to.
abbrev pub Answers : ℕ → Manager → List Op → List Reply → Manager → Type 0
Answers size d [] [] d' = d' ≡ d
Answers size d [] (r ∷ rs) d' = ⊥
Answers size d (op ∷ ops) [] d' = ⊥
Answers size d (op ∷ ops) ((ret, pointer) ∷ rs) d' =
    (next : Manager) × Answer size d op (next, ret, pointer) × Answers size next ops rs d'

Held-Separate : (b : StaticBuffer) (q : List Placed) → Held b q → Separate q
Held-Separate b [] h = tt
Held-Separate b (x ∷ q) h =
    let (t, e, laid) = h.place in Laid-Separate b.buffer (buffer_end b) t (x ∷ q) laid

Held-Inside :
    (b : StaticBuffer) (q : List Placed) → Held b q → All (Inside b.buffer (buffer_end b)) q
Held-Inside b [] h = tt
Held-Inside b (x ∷ q) h =
    let (t, e, laid) = h.place in Laid-Inside b.buffer (buffer_end b) t (x ∷ q) laid

StaysCall : StaticManager → Option (StaticManager × Status × Option ℕ) → Type 0
StaysCall m none = Unit
StaysCall m (some r) = Stays m r.0

answered-StaysCall :
    (m : StaticManager) (o : Option (StaticManager × Status))
    → StaysIf m o
    → StaysCall m (answered o)
unfolding StaysIf StaysPopped StaysCall answered
answered-StaysCall m none k = tt
answered-StaysCall m (some (m', ret)) k = k

call-StaysCall : (m : StaticManager) (op : Op) → StaysCall m (call m op)
unfolding call StaysCall
call-StaysCall m (add_back s) = limited_push_back-Stays m s
call-StaysCall m (add_front s) = limited_push_front-Stays m s
call-StaysCall m (drop_back s f) = answered-StaysCall m _ (pop_back-StaysIf m s f)
call-StaysCall m (drop_front s f) = answered-StaysCall m _ (pop_front-StaysIf m s f)

call-Stays :
    (m m' : StaticManager) (op : Op) (ret : Status) (pointer : Option ℕ)
    → call m op ≡ some (m', ret, pointer)
    → Stays m m'
unfolding StaysCall
call-Stays m m' op ret pointer e = subst (StaysCall m) e (call-StaysCall m op)

run_next :
    (m m' m'' : StaticManager) (op : Op) (ops : List Op) (ret : Status) (pointer : Option ℕ)
    (rs : List Reply)
    → call m op ≡ some (m', ret, pointer)
    → run m' ops ≡ some (m'', rs)
    → run m (op ∷ ops) ≡ some (m'', (ret, pointer) ∷ rs)
unfolding run
run_next m m' m'' op ops ret pointer rs e f = rw (e, run) (rw (f, run) refl)

-- `set_mode` gives an empty ring.
pub set_mode-Held :
    (ret max_size max_number : ℕ)
    → 0 < max_size
    → 0 < max_number
    → (m : StaticManager) × (set_mode ret max_size max_number ≡ some m) × Held m.static_buffer []
unfolding set_mode
set_mode-Held ret max_size max_number h k = (
  _,
  if_false ((max_size == 0) || (max_number == 0)) _ _ (ground arith),
  record {
    two = omega arith;
    few = omega arith;
    head = omega arith;
    tail = sym (mod-eq_of_lt {n = 0} {m = max_number + 1} (omega arith));
    slots = tt;
    fine = tt;
    place = (refl, inl refl);
  },
)

-- From a manager in static mode whose ring holds a list of blocks, every list of calls returns without
-- following a null pointer, where a block that is pushed has a size of at most 2 ^ 64 - 32. The replies
-- are those of the dynamic mode on the same list and limits, where `::malloc` gives an address each
-- time; only a push that meets other blocks or too little memory may also be refused. What the ring
-- then holds is what the dynamic mode comes to; its blocks do not overlap, and lie in the memory that
-- the manager started with.
pub run_agrees :
    (ops : List Op) (m : StaticManager) (q : List Placed)
    → Held m.static_buffer q
    → All Fits ops
    → (m' : StaticManager) × (q' : List Placed) × (replies : List Reply) × (run m ops
        ≡ some (m', replies))
      × Held m'.static_buffer q'
      × Answers m.static_buffer.size (as_dynamic m q) ops replies (as_dynamic m' q')
      × Separate q'
      × All (Inside m.static_buffer.buffer (buffer_end m.static_buffer)) q'
unfolding run Does
run_agrees [] m q h fits =
    (m, q, [], refl, h, refl, Held-Separate m.static_buffer q h, Held-Inside m.static_buffer q h)
run_agrees (op ∷ ops) m q h (fit, fits) =
    let (m1, q1, ret, pointer, e, h1, answer) = call-Does m q op h fit in
    let (m2, q2, rs, f, h2, answers, apart, inside) = run_agrees ops m1 q1 h1 fits in
    let same = call-Stays m m1 op ret pointer e in
    (
      m2,
      q2,
      (ret, pointer) ∷ rs,
      run_next m m1 m2 op ops ret pointer rs e f,
      h2,
      (
        as_dynamic m1 q1,
        answer,
        subst (λ (x : ℕ × ℕ). Answers x.1 (as_dynamic m1 q1) ops rs (as_dynamic m2 q2)) same
            answers,
      ),
      apart,
      subst (λ (x : ℕ × ℕ). All (Inside x.0 (x.0 + x.1)) q2) same inside,
    )
