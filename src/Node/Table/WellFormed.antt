-- ===== src/Node/Table/WellFormed.antt =====
-- The invariant of a routing table: valid endpoints, keyed by the last id of their domains, in
-- ascending order and with domains that do not meet.
use libatbus.Base.{ℕ, ◌+◌, ◌≤◌, ◌≡◌, ◌⊎◌, inl, inr, subst, [], ◌∷◌, arith}
use libatbus.Endpoint.Domain.{EndpointPtr, IsValid}
use libatbus.Endpoint.Domain.Interval.{min_id, max_id, Contains-self}
use libatbus.Node.Table.{Collection}

-- Every domain begins at `lo` or later.
abbrev pub WellFormed : ℕ → Collection → Type 0
WellFormed lo [] = Unit {0}
WellFormed lo ((k, e) ∷ coll) =
    IsValid e × (k ≡ max_id e) × (lo ≤ min_id e) × WellFormed (k + 1) coll

-- `e` is in the table.
abbrev pub Has : EndpointPtr → Collection → Type 0
Has e [] = ⊥
Has e ((k, f) ∷ coll) = (f ≡ e) ⊎ Has e coll

pub Has-min :
    (lo : ℕ) (coll : Collection) (e : EndpointPtr) → WellFormed lo coll → Has e coll → lo ≤ min_id e
Has-min lo [] e w h = absurd h
Has-min lo ((k, f) ∷ coll) e (v, key, le, w) (inl eq) = subst (λ e. lo ≤ min_id e) eq le
Has-min lo ((k, f) ∷ coll) e (v, key, le, w) (inr h) =
    let (a, b) = Contains-self v in omega (arith, Has-min (k + 1) coll e w h)

pub Has-IsValid :
    (lo : ℕ) (coll : Collection) (e : EndpointPtr) → WellFormed lo coll → Has e coll → IsValid e
Has-IsValid lo [] e w h = absurd h
Has-IsValid lo ((k, f) ∷ coll) e (v, key, le, w) (inl eq) = subst IsValid eq v
Has-IsValid lo ((k, f) ∷ coll) e (v, key, le, w) (inr h) = Has-IsValid (k + 1) coll e w h
