-- ===== src/Node/Table/Find.antt =====
-- What `find_child` finds in a well-formed table.
use libatbus.Base.{
  ℕ, ◌+◌, ◌^◌, ◌<◌, ◌≡◌, ◌↔◌, inl, inr, subst, sym, Bool-cases, some, none, [], ◌∷◌, arith, ltb,
}
use libatbus.Endpoint.Domain.{EndpointPtr, IsValid}
use libatbus.Endpoint.Domain.Interval.{Contains, Contains-self, is_child_node_iff}
use libatbus.Node.Table.{Collection, lower_bound, find_at, find_child}
use libatbus.Node.Table.WellFormed.{WellFormed, Has, Has-min}

-- `find_at` looks at the first entry alone, whose own id is in its domain.
find_at-some :
    (id k : ℕ) (e : EndpointPtr) (rest : Collection)
    → IsValid e
    → id < 2 ^ 64
    → Contains e id
    → find_at id ((k, e) ∷ rest) ≡ some e
unfolding find_at
find_at-some id k e rest v h c = ground (arith, is_child_node_iff {e = e} id v h)

find_at-none :
    (id k : ℕ) (e : EndpointPtr) (rest : Collection)
    → IsValid e
    → id < 2 ^ 64
    → ¬ Contains e id
    → find_at id ((k, e) ∷ rest) ≡ none
unfolding find_at
find_at-none id k e rest v h c = ground (arith, is_child_node_iff {e = e} id v h, Contains-self v)

at_bound_complete :
    (lo id : ℕ) (coll : Collection) (e : EndpointPtr)
    → WellFormed lo coll
    → id < 2 ^ 64
    → Has e coll
    → Contains e id
    → find_at id (lower_bound id coll) ≡ some e
unfolding lower_bound
at_bound_complete lo id [] e w h has c = absurd has
at_bound_complete lo id ((k, f) ∷ coll) e (v, key, le, w) h (inl eq) c =
    let c' : Contains f id = subst (λ e. Contains e id) (sym eq) c in
    ground (arith, find_at-some id k f coll v h c', eq)
at_bound_complete lo id ((k, f) ∷ coll) e (v, key, le, w) h (inr has) c =
    ground (arith, Has-min (k + 1) coll e w has, at_bound_complete (k + 1) id coll e w h has c)

find_at_sound :
    (id k : ℕ) (f : EndpointPtr) (rest : Collection) (e : EndpointPtr)
    → IsValid f
    → id < 2 ^ 64
    → find_at id ((k, f) ∷ rest) ≡ some e
    → (f ≡ e) × Contains e id
unfolding find_at
find_at_sound id k f rest e v h found =
    ground (arith, is_child_node_iff {e = f} id v h, Contains-self v)

find_at-nil : (id : ℕ) (e : EndpointPtr) → ¬ (find_at id [] ≡ some e)
unfolding find_at
find_at-nil id e found = cc

at_bound_sound :
    (lo id : ℕ) (coll : Collection) (e : EndpointPtr)
    → WellFormed lo coll
    → id < 2 ^ 64
    → find_at id (lower_bound id coll) ≡ some e
    → Has e coll × Contains e id
unfolding lower_bound
at_bound_sound lo id [] e w h found = absurd (find_at-nil id e found)
at_bound_sound lo id ((k, f) ∷ coll) e (v, key, le, w) h found = elim (Bool-cases (ltb k id)) [
  | inl lt ↦ let (has, c) = at_bound_sound (k + 1) id coll e w h (rw lt at found) in (inr has, c)
  | inr ge ↦ let (eq, c) = find_at_sound id k f coll e v h (rw ge at found) in (inl eq, c)
]

-- In a well-formed table `find_child` finds exactly the endpoint whose domain holds the id.
pub find_child_iff :
    (lo id : ℕ) (coll : Collection) (e : EndpointPtr)
    → WellFormed lo coll
    → id < 2 ^ 64
    → (find_child coll id ≡ some e) ↔ (Has e coll × Contains e id)
unfolding find_child
find_child_iff lo id coll e w h =
    (at_bound_sound lo id coll e w h, λ c. at_bound_complete lo id coll e w h c.0 c.1)
