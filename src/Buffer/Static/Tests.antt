-- ===== src/Buffer/Static/Tests.antt =====
-- Runs in a memory of 200 bytes for five blocks.
use libatbus.Base.{◌≡◌, refl, true, false, none, some, List, [], ◌∷◌, All, arith, inl}
use libatbus.Buffer.Static.{StaticManager, set_mode, buffer_end}
use libatbus.Buffer.Static.Layout.{Placed}
use libatbus.Buffer.Static.Separate.{Separate, Inside}
use libatbus.Buffer.Static.Slots.{Held}
use libatbus.Buffer.Static.View.{as_dynamic}
use libatbus.Buffer.Static.Spec.{Op, add_back, add_front, drop_back, drop_front, Reply}
use libatbus.Buffer.Static.Refine.{run, Answers, run_agrees}

abbrev manager : StaticManager
manager = record {
  static_buffer = record {
    buffer = 4096;
    size = 200;
    head = 0;
    tail = 0;
    circle_size = 6;
    circle_index = λ i. none;
    headers = λ p. record { size = 0; used = 0; pointer = 0 };
  };
  limit = record { cost_number = 0; cost_size = 0; limit_number = 5; limit_size = 200 };
}

made : set_mode 4096 200 5 ≡ some manager
unfolding set_mode
made = refl

manager-Held : Held manager.static_buffer []
manager-Held = record {
  two = omega arith;
  few = omega arith;
  head = omega arith;
  tail = refl;
  slots = tt;
  fine = tt;
  place = (refl, inl refl);
}

-- Two blocks, room at the start again, a block that goes round, and one at the front that does not
-- fit.
abbrev ops : List Op
ops =
    add_back 40
    ∷ add_back 60
    ∷ drop_front 40 true
    ∷ add_back 50
    ∷ add_back 30
    ∷ add_front 64
    ∷ drop_back 10 true
    ∷ drop_back 99 false
    ∷ drop_back 0 true
    ∷ []

run_agrees_example :
    (m' : StaticManager) × (q' : List Placed) × (replies : List Reply) × (run manager ops
      ≡ some (m', replies))
    × Held m'.static_buffer q'
    × Answers 200 (as_dynamic manager []) ops replies (as_dynamic m' q')
    × Separate q'
    × All (Inside 4096 (buffer_end manager.static_buffer)) q'
run_agrees_example = run_agrees ops manager [] manager-Held (
  omega arith,
  (omega arith, (tt, (omega arith, (omega arith, (omega arith, (tt, (tt, (tt, tt)))))))),
)
