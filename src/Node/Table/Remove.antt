-- ===== src/Node/Table/Remove.antt =====
-- What `remove_child` takes out of a well-formed table.
use libatbus.Base.{
  ℕ, ◌+◌, ◌^◌, ◌≤◌, ◌<◌, ◌≡◌, ◌↔◌, ◌⊎◌, inl, inr, refl, sym, subst, some, none, Option, true, false,
  [], ◌∷◌, arith, ◌==◌, ltb, ==_iff, Bool-cases, Option-ext, if◌then◌else◌, ltb→lt, ltb-false→le,
  lt→ltb, le→ltb-false, alternatives_under, ap, ◌∙◌, ◌≢◌,
}
use libatbus.Endpoint.Domain.{EndpointPtr, is_child_node}
use libatbus.Endpoint.Domain.Interval.{Contains-self}
use libatbus.Node.Table.{
  Collection, lower_bound, erase, remove_at, remove_child, find_child, find_at,
}
use libatbus.Node.Table.WellFormed.{WellFormed, Has, Has-min, Has-IsValid}
use libatbus.Node.Table.Find.{find_child_iff}

-- The invariant allows a lower start.
WellFormed-mono :
    (lo lo' : ℕ) (coll : Collection) → lo' ≤ lo → WellFormed lo coll → WellFormed lo' coll
WellFormed-mono lo lo' [] h w = tt
WellFormed-mono lo lo' ((k, e) ∷ coll) h (v, key, le, w) = (v, key, omega arith, w)

erase-WellFormed :
    (lo id : ℕ) (coll : Collection) → WellFormed lo coll → WellFormed lo (erase id coll)
unfolding erase
erase-WellFormed lo id [] w = tt
erase-WellFormed lo id ((k, e) ∷ coll) (v, key, le, w) =
    let own = Contains-self v in
    elim (Bool-cases (ltb k id)) [
      | inl lt ↦ rw lt (v, key, le, erase-WellFormed (k + 1) id coll w)
      | inr ge ↦ rw ge (WellFormed-mono (k + 1) lo coll (omega arith) w)
    ]

-- The table loses the entry that the iterator is at.
Has-erase :
    (lo id : ℕ) (coll : Collection) (k : ℕ) (gone : EndpointPtr) (rest : Collection)
    (e : EndpointPtr)
    → WellFormed lo coll
    → lower_bound id coll ≡ (k, gone) ∷ rest
    → Has e coll ↔ ((gone ≡ e) ⊎ Has e (erase id coll))
unfolding lower_bound erase
Has-erase lo id [] k gone rest e w at = cc
Has-erase lo id ((j, f) ∷ coll) k gone rest e (v, key, le, w) at = elim (Bool-cases (ltb j id)) [
  | inl lt ↦ rw lt (alternatives_under (Has-erase (j + 1) id coll k gone rest e w (rw lt at at)))
  | inr ge ↦ let same : f ≡ gone = cc (rw ge at at) in rw (ge, same) (λ h. h, λ h. h)
]

-- No entry that stays has the id.
erase-ne :
    (lo id : ℕ) (coll : Collection) (e : EndpointPtr)
    → WellFormed lo coll
    → Has e (erase id coll)
    → e.id ≢ id
unfolding erase
erase-ne lo id [] e w has = absurd has
erase-ne lo id ((k, f) ∷ coll) e (v, key, le, w) has = elim (Bool-cases (ltb k id)) [
  | inl lt ↦ elim (let h : (f ≡ e) ⊎ Has e (erase id coll) = rw lt at has in h) [
    | inl eq ↦ subst (λ e. e.id ≢ id) eq (omega (arith, Contains-self v, ltb→lt k id lt))
    | inr has' ↦ erase-ne (k + 1) id coll e w has'
  ]
  | inr ge ↦
      let has' : Has e coll = rw ge at has in
      let own = Contains-self (Has-IsValid (k + 1) coll e w has') in
      omega (arith, Has-min (k + 1) coll e w has', ltb-false→le k id ge)
]

-- The iterator stops at the entry with the id.
lower_bound-Has :
    (lo id : ℕ) (coll : Collection) (e : EndpointPtr)
    → WellFormed lo coll
    → Has e coll
    → e.id ≡ id
    → (k : ℕ) × (rest : Collection) × (lower_bound id coll ≡ (k, e) ∷ rest)
unfolding lower_bound
lower_bound-Has lo id [] e w has eq = absurd has
lower_bound-Has lo id ((k, f) ∷ coll) e (v, key, le, w) (inl same) eq =
    let eq' : f.id ≡ id = ap (λ (e : EndpointPtr). e.id) same ∙ eq in
    (k, coll, rw (le→ltb-false k id (omega (arith, Contains-self v)), same))
lower_bound-Has lo id ((k, f) ∷ coll) e (v, key, le, w) (inr has) eq =
    let own = Contains-self (Has-IsValid (k + 1) coll e w has) in
    let lt = lt→ltb k id (omega (arith, Has-min (k + 1) coll e w has)) in
    rw lt (lower_bound-Has (k + 1) id coll e w has eq)

differ : (f e : EndpointPtr) {id : ℕ} → f ≡ e → e.id ≡ id → (f.id == id) ≡ false → ⊥
differ f e same eq other = cc ((==_iff _ _).1 (ap (λ (e : EndpointPtr). e.id) same ∙ eq))

Has-remove_at :
    (coll bound : Collection) (id : ℕ) (e : EndpointPtr)
    → WellFormed 0 coll
    → lower_bound id coll ≡ bound
    → Has e (remove_at coll id bound).0 ↔ (Has e coll × (e.id ≢ id))
unfolding remove_at
Has-remove_at coll [] id e w at =
    (λ has. (has, λ eq. let (k, rest, at') = lower_bound-Has 0 id coll e w has eq in cc), λ h. h.0)
Has-remove_at coll ((k, f) ∷ rest) id e w at = elim (Bool-cases (f.id == id)) [
  | inl own ↦
      let here = Has-erase 0 id coll k f rest e w at in
      rw own (
        λ has. (here.1 (inr has), erase-ne 0 id coll e w has),
        λ h. elim (here.0 h.0) [
          | inl eq ↦ absurd (h.1 (ap (λ (e : EndpointPtr). e.id) (sym eq) ∙ (==_iff _ _).0 own))
          | inr has ↦ has
        ],
      )
  | inr other ↦ rw other (
    λ has. (
      has,
      λ eq. let (j, rest', at') = lower_bound-Has 0 id coll e w has eq in differ f e (cc) eq other,
    ),
    λ h. h.0,
  )
]

pub Has-remove_child :
    (coll : Collection) (id : ℕ) (e : EndpointPtr)
    → WellFormed 0 coll
    → Has e (remove_child coll id).0 ↔ (Has e coll × (e.id ≢ id))
unfolding remove_child
Has-remove_child coll id e w = Has-remove_at coll (lower_bound id coll) id e w refl

-- `remove_child` keeps the table well formed.
pub remove_child-WellFormed :
    (coll : Collection) (id : ℕ) → WellFormed 0 coll → WellFormed 0 (remove_child coll id).0
unfolding remove_child
remove_child-WellFormed coll id w = remove_at-WellFormed coll (lower_bound id coll) id w
  where
    remove_at-WellFormed :
        (coll bound : Collection) (id : ℕ)
        → WellFormed 0 coll
        → WellFormed 0 (remove_at coll id bound).0
    remove_at-WellFormed coll [] id w = w
    remove_at-WellFormed coll ((k, f) ∷ rest) id w = ground (arith, erase-WellFormed 0 id coll w)

-- A found endpoint, unless it has the id that was removed.
abbrev pub other_than : ℕ → Option EndpointPtr → Option EndpointPtr
other_than id none = none
other_than id (some e) = if e.id == id then none else some e

remove_at_finds :
    (coll bound : Collection) (id : ℕ)
    → (((remove_at coll id bound).1 ≡ true)
        × ((e : EndpointPtr) × ((find_at id bound ≡ some e) × ((e.id == id) ≡ true))))
      ⊎ ((remove_at coll id bound ≡ (coll, false))
          × (other_than id (find_at id bound) ≡ find_at id bound))
unfolding remove_at find_at
remove_at_finds coll [] id = inr (refl, refl)
remove_at_finds coll ((k, e) ∷ rest) id = elim (Bool-cases (e.id == id)) [
  | inl own ↦ inl (rw own refl, (e, (rw own refl, own)))
  | inr other ↦ inr (
    rw other refl,
    elim (Bool-cases (is_child_node e id)) [
      | inl c ↦ rw other (rw c (rw other refl))
      | inr c ↦ rw other (rw c refl)
    ],
  )
]

-- `remove_child` succeeds where a lookup gives an endpoint with the id, and changes nothing otherwise.
pub remove_child_finds :
    (coll : Collection) (id : ℕ)
    → (((remove_child coll id).1 ≡ true)
        × ((e : EndpointPtr) × ((find_child coll id ≡ some e) × ((e.id == id) ≡ true))))
      ⊎ ((remove_child coll id ≡ (coll, false))
          × (other_than id (find_child coll id) ≡ find_child coll id))
unfolding remove_child find_child
remove_child_finds coll id = remove_at_finds coll (lower_bound id coll) id

other_than-some :
    (id : ℕ) (o : Option EndpointPtr) (e : EndpointPtr)
    → (other_than id o ≡ some e) ↔ ((o ≡ some e) × (e.id ≢ id))
other_than-some id none e = (λ h. cc, λ h. cc (h.0))
other_than-some id (some f) e = ground arith

-- After `remove_child` a lookup finds what it found before, and nothing where that was the endpoint
-- with the removed id; a removal that finds no such endpoint changes no lookup.
pub find_child-remove_child :
    (coll : Collection) (id q : ℕ)
    → WellFormed 0 coll
    → q < 2 ^ 64
    → find_child (remove_child coll id).0 q ≡ other_than id (find_child coll q)
find_child-remove_child coll id q w h = Option-ext _ _ λ e.
    let after =
      find_child_iff 0 q (remove_child coll id).0 e (remove_child-WellFormed coll id w) h in
    let before = find_child_iff 0 q coll e w h in
    let kept = Has-remove_child coll id e w in
    let drop = other_than-some id (find_child coll q) e in
    (
      λ found.
          let (there, c) = after.0 found in
          let (old, ne) = kept.0 there in drop.1 (before.1 (old, c), ne),
      λ got.
          let (found, ne) = drop.0 got in
          let (there, c) = before.0 found in after.1 (kept.1 (there, ne), c),
    )
