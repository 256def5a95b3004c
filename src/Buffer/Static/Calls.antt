-- ===== src/Buffer/Static/Calls.antt =====
-- Each call in static mode answers as the dynamic mode does.
use libatbus.Base.{
  ℕ, ◌+◌, ◌^◌, ◌≤◌, ◌<◌, ◌≡◌, refl, sym, ap, subst, ◌∙◌, ◌⊎◌, inl, inr, false, Option, none, some,
  List, [], ◌∷◌, ◌++◌, arith, length, if_true, if_false, if◌then◌else◌, Bool-cases,
}
use libatbus.Status.{Status, success, buff_limit, is_error}
use libatbus.Buffer.Block.{Block, full_size, block_data, malloc}
use libatbus.Buffer.Manager
use libatbus.Buffer.Manager.{Manager, Limit, over_limit, charge}
use libatbus.Buffer.Manager.Ends.{push_back_made, push_front_made}
use libatbus.Buffer.Static.{StaticBuffer, StaticManager}
use libatbus.Buffer.Static.Grow.{
  static_push_back, static_push_front, static_pushed, limited_push_back, limited_push_front,
}
use libatbus.Buffer.Static.Shrink.{static_pop_back, static_pop_front}
use libatbus.Buffer.Static.Layout.{Placed}
use libatbus.Buffer.Static.Spec.{
  Op, add_back, add_front, drop_back, drop_front, Push, Pop, Answer, Fits,
}
use libatbus.Buffer.Static.Slots.{Held}
use libatbus.Buffer.Static.Opened.{fresh, create-fresh}
use libatbus.Buffer.Static.Push.{Pushes, NoneBack, at_back, static_push_back_lem}
use libatbus.Buffer.Static.PushFront.{NoneFront, at_front, static_push_front_lem}
use libatbus.Buffer.Static.View.{as_dynamic, blocks_of, blocks_of-append, Agrees}
use libatbus.Buffer.Static.PopFront.{static_pop_front-Agrees}
use libatbus.Buffer.Static.PopBack.{static_pop_back-Agrees}

-- A pop answers with its status alone.
unfoldable pub answered :
    Option (StaticManager × Status) → Option (StaticManager × Status × Option ℕ)
answered none = none
answered (some (m, ret)) = some (m, ret, none)

unfoldable pub call : StaticManager → Op → Option (StaticManager × Status × Option ℕ)
call m (add_back s) = some (limited_push_back m s)
call m (add_front s) = some (limited_push_front m s)
call m (drop_back s f) = answered (static_pop_back m s f)
call m (drop_front s f) = answered (static_pop_front m s f)

unfoldable pub Does :
    StaticManager → List Placed → Op → Option (StaticManager × Status × Option ℕ) → Type 0
Does m q op o =
    (m' : StaticManager) × (q' : List Placed) × (ret : Status) × (pointer : Option ℕ) × (o
      ≡ some (m', ret, pointer))
    × Held m'.static_buffer q'
    × Answer m.static_buffer.size (as_dynamic m q) op (as_dynamic m' q', ret, pointer)

length-blocks_of : (q : List Placed) → length (blocks_of q) ≡ length q
length-blocks_of [] = refl
length-blocks_of (x ∷ q) = omega (arith, length-blocks_of q)

malloc-fresh : (start s : ℕ) → malloc (some start) s ≡ some (fresh start s)
unfolding malloc
malloc-fresh start s = rw (create-fresh start (full_size s) s (omega arith), malloc) refl

data-fresh : (start s : ℕ) → block_data (fresh start s) ≡ start + 24
unfolding block_data
data-fresh start s = omega arith

-- Both push functions, with the list of blocks that a new one makes.
pushed_does :
    (m : StaticManager) (q : List Placed) (s : ℕ) (why why' : Type 0) (with_new : ℕ → List Placed)
    (pushed : StaticBuffer × Status × Option ℕ) (d : Option ℕ → Manager × Status × Option ℕ)
    → Held m.static_buffer q
    → (why → why')
    → ((start : ℕ)
        → over_limit m.limit s ≡ false
        → d (some start) ≡ (
          record { dynamic_buffer = blocks_of (with_new start); limit = charge m.limit s },
          success,
          some (start + 24),
        ))
    → Pushes why q with_new pushed
    → (m' : StaticManager) × (q' : List Placed) × (ret : Status) × (pointer : Option ℕ)
      × ((if over_limit m.limit s then (m, buff_limit, none) else static_pushed m s pushed)
          ≡ (m', ret, pointer))
      × Held m'.static_buffer q'
      × Push why' (as_dynamic m q) s d (as_dynamic m' q', ret, pointer)
unfolding static_pushed Pushes Push is_error
pushed_does m q s why why' with_new pushed d h so made result =
    elim (Bool-cases (over_limit m.limit s)) [
      | inl e ↦ (m, q, buff_limit, none, if_true (over_limit m.limit s) _ _ e, h, inl (refl, inl e))
      | inr e ↦ elim result [
        | inl (b, r, held, no') ↦ (
          record m { static_buffer = b },
          q,
          buff_limit,
          none,
          if_false (over_limit m.limit s) _ _ e ∙ ap (static_pushed m s) r,
          held,
          inl (refl, inr (so no')),
        )
        | inr (start, placed) ↦
            let (b, r, held) = placed in
            (
              record { static_buffer = b; limit = charge m.limit s },
              with_new start,
              success,
              some (start + 24),
              if_false (over_limit m.limit s) _ _ e ∙ ap (static_pushed m s) r,
              held,
              inr (start, sym (made start e)),
            )
      ]
    ]

push_back-Does :
    (m : StaticManager) (q : List Placed) (s : ℕ)
    → Held m.static_buffer q
    → s + 32 ≤ 2 ^ 64
    → Does m q (add_back s) (call m (add_back s))
unfolding limited_push_back Does call
push_back-Does m q s h small =
    let (m', q', ret, pointer, e, held, answer) =
      pushed_does m q s (NoneBack q m.static_buffer.size s)
        ((0 < length (blocks_of q)) ⊎ (m.static_buffer.size < full_size s)) (at_back q s)
        (static_push_back m.static_buffer s) (Manager.push_back (as_dynamic m q) s) h
        (λ why.
          subst (λ k. (0 < k) ⊎ (m.static_buffer.size < full_size s)) (sym (length-blocks_of q))
            why)
        made (static_push_back_lem m.static_buffer q s h small) in
    (m', q', ret, pointer, ap some e, held, answer)
  where
    made :
        (start : ℕ)
        → over_limit m.limit s ≡ false
        → Manager.push_back (as_dynamic m q) s (some start) ≡ (
          record { dynamic_buffer = blocks_of (at_back q s start); limit = charge m.limit s },
          success,
          some (start + 24),
        )
    made start e =
        push_back_made m.limit (blocks_of q) s (some start) (fresh start s) e (malloc-fresh start s)
        ∙ ap
            (λ k. (
              record {
                dynamic_buffer = blocks_of q ++ fresh start s ∷ [];
                limit = charge m.limit s;
              },
              success,
              some k,
            ))
            (data-fresh start s)
        ∙ ap
            (λ (bs : List Block). (
              record { dynamic_buffer = bs; limit = charge m.limit s },
              success,
              some (start + 24),
            ))
            (sym (blocks_of-append q ((start, fresh start s) ∷ [])))

push_front-Does :
    (m : StaticManager) (q : List Placed) (s : ℕ)
    → Held m.static_buffer q
    → s + 32 ≤ 2 ^ 64
    → Does m q (add_front s) (call m (add_front s))
unfolding limited_push_front Does call
push_front-Does m q s h small =
    let (m', q', ret, pointer, e, held, answer) =
      pushed_does m q s (NoneFront q m.static_buffer.size s)
        ((0 < length (blocks_of q)) ⊎ (m.static_buffer.size ≤ full_size s)) (at_front q s)
        (static_push_front m.static_buffer s) (Manager.push_front (as_dynamic m q) s) h
        (λ why.
          subst (λ k. (0 < k) ⊎ (m.static_buffer.size ≤ full_size s)) (sym (length-blocks_of q))
            why)
        made (static_push_front_lem m.static_buffer q s h small) in
    (m', q', ret, pointer, ap some e, held, answer)
  where
    made :
        (start : ℕ)
        → over_limit m.limit s ≡ false
        → Manager.push_front (as_dynamic m q) s (some start) ≡ (
          record { dynamic_buffer = blocks_of (at_front q s start); limit = charge m.limit s },
          success,
          some (start + 24),
        )
    made start e =
        push_front_made m.limit (blocks_of q) s (some start) (fresh start s) e
          (malloc-fresh start s)
        ∙ ap
            (λ k. (
              record { dynamic_buffer = fresh start s ∷ blocks_of q; limit = charge m.limit s },
              success,
              some k,
            ))
            (data-fresh start s)

Pop-does :
    (m : StaticManager) (q : List Placed) (o : Option (StaticManager × Status))
    (d : Manager × Status)
    → Agrees o d
    → (m' : StaticManager) × (q' : List Placed) × (ret : Status) × (pointer : Option ℕ) × (answered
          o
        ≡ some (m', ret, pointer))
      × Held m'.static_buffer q'
      × Pop d (as_dynamic m' q', ret, pointer)
unfolding Agrees Pop answered
Pop-does m q o d (m', q', ret, e, held, same) =
    (m', q', ret, none, ap answered e, held, ap (λ (r : Manager × Status). (r.0, r.1, none)) same)

pub call-Does :
    (m : StaticManager) (q : List Placed) (op : Op)
    → Held m.static_buffer q
    → Fits op
    → Does m q op (call m op)
unfolding call Does
call-Does m q (add_back s) h small = push_back-Does m q s h small
call-Does m q (add_front s) h small = push_front-Does m q s h small
call-Does m q (drop_back s f) h small = Pop-does m q _ _ (static_pop_back-Agrees m q s f h)
call-Does m q (drop_front s f) h small = Pop-does m q _ _ (static_pop_front-Agrees m q s f h)
