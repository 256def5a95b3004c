-- ===== src/Node/Table/Fits.antt =====
-- `insert_child` refuses an endpoint exactly where its domain meets one of the table.
use libatbus.Base.{
  ℕ, ◌+◌, ◌≤◌, ◌<◌, ◌≡◌, ◌↔◌, ◌⊎◌, inl, inr, refl, subst, some, true, false, [], ◌∷◌, arith, ltb,
  Bool-cases, Option-cases, ltb→lt, ltb-false→le, lt→==-false, alternatives_under,
}
use libatbus.Endpoint.Domain.{EndpointPtr, is_child_node, IsValid}
use libatbus.Endpoint.Domain.Interval.{
  min_id, max_id, Contains, Apart, Contains-self, is_child_node_iff, Apart-of_not,
}
use libatbus.Node.Table.{Collection, lower_bound, previous, get_last?, assign, insert_at, covers}
use libatbus.Node.Table.WellFormed.{WellFormed, Has, Has-min}
use libatbus.Node.Table.Insert.{Ends, Begins, Begins-cons}

-- What the walk to `lower_bound` has passed and where it stops.
previous-IsValid :
    (lo id : ℕ) (coll : Collection) (p : EndpointPtr)
    → WellFormed lo coll
    → previous id coll ≡ some p
    → IsValid p × (max_id p < id) × Has p coll
unfolding previous
previous-IsValid lo id [] p w e = cc
previous-IsValid lo id ((k, f) ∷ coll) p (v, key, le, w) e = elim (Bool-cases (ltb k id)) [
  | inl lt ↦ elim (Option-cases (previous id coll)) [
    | inl none' ↦
        let eq : f ≡ p = cc (rw (lt, none', previous) at e) in
        subst (λ p. IsValid p × (max_id p < id) × ((f ≡ p) ⊎ Has p coll)) eq
          (v, omega (arith, ltb→lt k id lt), inl refl)
    | inr (q, some') ↦
        let eq : q ≡ p = cc (rw (lt, some', previous) at e) in
        let (vq, below, has) = previous-IsValid (k + 1) id coll q w some' in
        subst (λ p. IsValid p × (max_id p < id) × ((f ≡ p) ⊎ Has p coll)) eq (vq, below, inr has)
  ]
  | inr ge ↦ cc (rw (ge, previous) at e)
]

lower_bound-IsValid :
    (lo id : ℕ) (coll : Collection) (k : ℕ) (e : EndpointPtr) (rest : Collection)
    → WellFormed lo coll
    → lower_bound id coll ≡ (k, e) ∷ rest
    → IsValid e × (id ≤ max_id e) × Has e coll
unfolding lower_bound
lower_bound-IsValid lo id [] k e rest w eq = cc
lower_bound-IsValid lo id ((j, f) ∷ coll) k e rest (v, key, le, w) eq =
    elim (Bool-cases (ltb j id)) [
      | inl lt ↦
          let (ve, above, has) = lower_bound-IsValid (j + 1) id coll k e rest w (rw lt at eq) in
          (ve, above, inr has)
      | inr ge ↦
          let same : f ≡ e = cc (rw ge at eq) in
          subst (λ e. IsValid e × (id ≤ max_id e) × ((f ≡ e) ⊎ Has e coll)) same
            (v, omega (arith, ltb-false→le j id ge), inl refl)
    ]

-- At the end of the table the entry before the iterator is the last one.
get_last?-previous :
    (id : ℕ) (coll : Collection) → lower_bound id coll ≡ [] → get_last? coll ≡ previous id coll
unfolding lower_bound previous get_last?
get_last?-previous id [] e = refl
get_last?-previous id ((k, f) ∷ coll) e = elim (Bool-cases (ltb k id)) [
  | inl lt ↦ rw (lt, get_last?-previous id coll (rw lt at e))
  | inr ge ↦ cc (rw ge at e)
]

-- What the tests of `insert_child` mean.
covers-false :
    (ep : EndpointPtr) (coll : Collection)
    → WellFormed 0 coll
    → IsValid ep
    → covers ep (previous ep.id coll) ≡ false
    → Begins ep (previous ep.id coll)
unfolding covers
covers-false ep coll w v no' = elim (Option-cases (previous ep.id coll)) [
  | inl none' ↦ rw none' tt
  | inr (p, some') ↦
      let (vp, below, has) = previous-IsValid 0 ep.id coll p w some' in
      let own = Contains-self v in
      let own' = Contains-self vp in
      let free : is_child_node ep p.id ≡ false = rw some' at no' in
      let away : ¬ Contains ep p.id = λ c. cc ((is_child_node_iff p.id v vp.id_bound).1 c) in
      let apart : Apart p ep = Apart-of_not vp v (λ c. absurd (omega arith)) away in
      rw some' (omega arith)
]

-- An accepted endpoint fits between its neighbours.
pub insert_at-true :
    (ep : EndpointPtr) (coll : Collection) (bound : Collection)
    → WellFormed 0 coll
    → IsValid ep
    → lower_bound ep.id coll ≡ bound
    → insert_at coll ep bound ≡ true
    → Ends ep bound × Begins ep (previous ep.id coll)
unfolding insert_at
insert_at-true ep coll [] w v at_end ok =
    let last = get_last?-previous ep.id coll at_end in
    (tt, covers-false ep coll w v (rw (← last) (ground arith)))
insert_at-true ep coll ((k, e) ∷ rest) w v at_entry ok =
    let (ve, above, has) = lower_bound-IsValid 0 ep.id coll k e rest w at_entry in
    let own = Contains-self v in
    let own' = Contains-self ve in
    let out : ¬ Contains e ep.id =
      λ c. ground (arith, (is_child_node_iff ep.id ve v.id_bound).1 c) in
    let out' : ¬ Contains ep e.id =
      λ c. ground (arith, (is_child_node_iff e.id v ve.id_bound).1 c) in
    let apart : Apart ep e = Apart-of_not v ve out' out in
    (omega arith, covers-false ep coll w v (ground arith))

-- An endpoint whose domain meets none of the table is accepted.
Apart-not : {e f : EndpointPtr} → IsValid e → IsValid f → Apart e f → is_child_node e f.id ≡ false
Apart-not {e} {f} ve vf apart =
    ground
      (arith, is_child_node_iff {e = e} f.id ve vf.id_bound, Contains-self ve, Contains-self vf)

Apart-swap : (e f : EndpointPtr) → Apart e f → Apart f e
Apart-swap e f (inl h) = inr h
Apart-swap e f (inr h) = inl h

covers-Apart :
    (ep : EndpointPtr) (coll : Collection)
    → WellFormed 0 coll
    → IsValid ep
    → ((e : EndpointPtr) → Has e coll → Apart e ep)
    → covers ep (previous ep.id coll) ≡ false
unfolding covers
covers-Apart ep coll w v apart = elim (Option-cases (previous ep.id coll)) [
  | inl none' ↦ rw none'
  | inr (p, some') ↦
      let (vp, below, has) = previous-IsValid 0 ep.id coll p w some' in
      rw some' (Apart-not v vp (Apart-swap p ep (apart p has)))
]

pub insert_at-Apart :
    (ep : EndpointPtr) (coll : Collection) (bound : Collection)
    → WellFormed 0 coll
    → IsValid ep
    → ((e : EndpointPtr) → Has e coll → Apart e ep)
    → lower_bound ep.id coll ≡ bound
    → insert_at coll ep bound ≡ true
unfolding insert_at
insert_at-Apart ep coll [] w v apart at_end =
    rw (get_last?-previous ep.id coll at_end, covers-Apart ep coll w v apart)
insert_at-Apart ep coll ((k, e) ∷ rest) w v apart at_entry =
    let (ve, above, has) = lower_bound-IsValid 0 ep.id coll k e rest w at_entry in
    let away = apart e has in
    ground (
      arith,
      Contains-self v,
      Contains-self ve,
      Apart-not ve v away,
      Apart-not v ve (Apart-swap e ep away),
      covers-Apart ep coll w v apart,
    )

-- The keys of the table are other than the new one, so `coll[key] = ep` replaces nothing.
pub Has-assign :
    (lo : ℕ) (coll : Collection) (ep e : EndpointPtr)
    → WellFormed lo coll
    → IsValid ep
    → ((f : EndpointPtr) → Has f coll → Apart f ep)
    → Has e (assign (max_id ep) ep coll) ↔ ((ep ≡ e) ⊎ Has e coll)
unfolding assign
Has-assign lo [] ep e w v apart = (λ h. h, λ h. h)
Has-assign lo ((k, f) ∷ coll) ep e (vf, key, le, w) v apart =
    let own = Contains-self v in
    let own' = Contains-self vf in
    let other = apart f (inl refl) in
    let deep = Has-assign (k + 1) coll ep e w v (λ g h. apart g (inr h)) in
    elim (Bool-cases (ltb k (max_id ep))) [
      | inl lt ↦ rw lt (alternatives_under deep)
      | inr ge ↦
          rw (ge, lt→==-false (max_id ep) k (omega (arith, ltb-false→le k (max_id ep) ge)))
            (λ h. h, λ h. h)
    ]

-- From the new domain on, or up to it.
pub Fits-Apart :
    (lo : ℕ) (coll : Collection) (ep e : EndpointPtr)
    → WellFormed lo coll
    → IsValid ep
    → Ends ep (lower_bound ep.id coll)
    → Begins ep (previous ep.id coll)
    → Has e coll
    → Apart e ep
unfolding lower_bound
Fits-Apart lo [] ep e w v ends begins has = absurd has
Fits-Apart lo ((k, f) ∷ coll) ep e (vf, key, le, w) v ends begins has =
    elim (Bool-cases (ltb k ep.id)) [
      | inl lt ↦
          let (after, begins') = Begins-cons k f ep coll key w lt begins in
          let ends' : Ends ep (lower_bound ep.id coll) = rw lt at ends in
          elim has [
            | inl eq ↦ subst (λ e. Apart e ep) eq (inl after)
            | inr has' ↦ Fits-Apart (k + 1) coll ep e w v ends' begins' has'
          ]
      | inr ge ↦
          let before : max_id ep < min_id f = rw ge at ends in
          elim has [
            | inl eq ↦ subst (λ e. Apart e ep) eq (inr before)
            | inr has' ↦ inr (omega (arith, Has-min (k + 1) coll e w has', Contains-self vf))
          ]
    ]
