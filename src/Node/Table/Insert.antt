-- ===== src/Node/Table/Insert.antt =====
-- What `insert_child` accepts, and that it keeps a table well formed.
use libatbus.Base.{
  ℕ, ◌+◌, ◌≤◌, ◌<◌, ◌≡◌, inl, inr, refl, some, none, Option, true, [], ◌∷◌, arith, ltb, Bool-cases,
  Option-cases, lt→ltb, le→ltb-false, lt→==-false,
}
use libatbus.Endpoint.Domain.{EndpointPtr, IsValid}
use libatbus.Endpoint.Domain.Interval.{min_id, max_id, Contains-self}
use libatbus.Node.Table.{Collection, lower_bound, previous, assign}
use libatbus.Node.Table.WellFormed.{WellFormed}

-- The new domain ends before that of the first entry from `lower_bound` on.
abbrev pub Ends : EndpointPtr → Collection → Type 0
Ends ep [] = Unit {0}
Ends ep ((k, e) ∷ rest) = max_id ep < min_id e

-- It begins after that of the entry before.
abbrev pub Begins : EndpointPtr → Option EndpointPtr → Type 0
Begins ep none = Unit {0}
Begins ep (some p) = max_id p < min_id ep

pub previous-le :
    (lo id : ℕ) (coll : Collection) (p : EndpointPtr)
    → WellFormed lo coll
    → previous id coll ≡ some p
    → lo ≤ max_id p
unfolding previous
previous-le lo id [] p w e = cc
previous-le lo id ((k, f) ∷ coll) p (v, key, le, w) e =
    let own = Contains-self v in
    elim (Option-cases (previous id coll)) [
      | inl none' ↦ ground (arith, none')
      | inr (q, some') ↦ ground (arith, some', previous-le (k + 1) id coll q w some')
    ]

-- Behind an entry whose key is below the id, the entry before is in the rest, or that entry.
pub Begins-cons :
    (k : ℕ) (e ep : EndpointPtr) (coll : Collection)
    → k ≡ max_id e
    → WellFormed (k + 1) coll
    → ltb k ep.id ≡ true
    → Begins ep (previous ep.id ((k, e) ∷ coll))
    → (max_id e < min_id ep) × Begins ep (previous ep.id coll)
unfolding previous
Begins-cons k e ep coll key w lt begins = elim (Option-cases (previous ep.id coll)) [
  | inl none' ↦ rw none' (rw (lt, none', previous) at begins, tt)
  | inr (q, some') ↦
      let b : max_id q < min_id ep = rw (lt, some', previous) at begins in
      rw some' (omega (arith, previous-le (k + 1) ep.id coll q w some'), b)
]

-- Where the new domain fits between its neighbours, the table stays well formed.
pub assign-WellFormed :
    (lo : ℕ) (coll : Collection) (ep : EndpointPtr)
    → WellFormed lo coll
    → IsValid ep
    → lo ≤ min_id ep
    → Ends ep (lower_bound ep.id coll)
    → Begins ep (previous ep.id coll)
    → WellFormed lo (assign (max_id ep) ep coll)
unfolding lower_bound assign
assign-WellFormed lo [] ep w v le ends begins = (v, refl, le, tt)
assign-WellFormed lo ((k, e) ∷ coll) ep (ve, key, le', w) v le ends begins =
    let own = Contains-self v in
    elim (Bool-cases (ltb k ep.id)) [
      | inl lt ↦
          let (after, begins') = Begins-cons k e ep coll key w lt begins in
          let ends' : Ends ep (lower_bound ep.id coll) = rw lt at ends in
          let deep = assign-WellFormed (k + 1) coll ep w v (omega arith) ends' begins' in
          rw (lt→ltb k (max_id ep) (omega arith)) (ve, key, le', deep)
      | inr ge ↦
          let before : max_id ep < min_id e = rw ge at ends in
          let own' = Contains-self ve in
          rw (le→ltb-false k (max_id ep) (omega arith), lt→==-false (max_id ep) k (omega arith))
            (v, refl, le, (ve, key, omega arith, w))
    ]
