-- ===== src/Endpoint/Select/Sorting.antt =====
-- The order of the data connections.
use libatbus.Base.{
  ℕ, ◌≤◌, ◌<◌, ◌≡◌, ◌⊎◌, ◌↔◌, inl, inr, Bool, true, false, List, [], ◌∷◌, arith, Bool-cases, subst,
}
use libatbus.Endpoint.Select.{Connection, sort_connection_cmp_fn, insert, sort}

-- The lower, the earlier: shared addresses first, then shared hosts.
abbrev pub rank_of : Bool → Bool → ℕ
rank_of true true = 0
rank_of true false = 1
rank_of false true = 2
rank_of false false = 3

abbrev pub rank : Connection → ℕ
rank c = rank_of c.access_share_addr c.access_share_host

abbrev pub Has : Connection → List Connection → Type 0
Has c [] = ⊥
Has c (x ∷ xs) = (x ≡ c) ⊎ Has c xs

abbrev pub Sorted : List Connection → Type 0
Sorted [] = Unit {0}
Sorted (x ∷ xs) = ((d : Connection) → Has d xs → rank x ≤ rank d) × Sorted xs

-- `sort_connection_cmp_fn` compares the ranks.
pub sort_connection_cmp_fn_iff :
    (l r : Connection) → (sort_connection_cmp_fn l r ≡ true) ↔ (rank l < rank r)
unfolding sort_connection_cmp_fn
sort_connection_cmp_fn_iff l r = ground arith

pub Has-insert :
    (x : Connection) (ys : List Connection) (d : Connection)
    → Has d (insert x ys) ↔ ((x ≡ d) ⊎ Has d ys)
unfolding insert
Has-insert x [] d = (λ h. h, λ h. h)
Has-insert x (y ∷ ys) d = elim (Bool-cases (sort_connection_cmp_fn y x)) [
  | inl before ↦ rw before (ground (arith, Has-insert x ys d))
  | inr behind ↦ rw behind (λ h. h, λ h. h)
]

-- Sorting neither drops a connection nor makes one up.
pub Has-sort : (xs : List Connection) (d : Connection) → Has d (sort xs) ↔ Has d xs
unfolding sort
Has-sort [] d = (λ h. h, λ h. h)
Has-sort (x ∷ xs) d = ground (arith, Has-insert x (sort xs) d, Has-sort xs d)

insert-Sorted : (x : Connection) (ys : List Connection) → Sorted ys → Sorted (insert x ys)
unfolding insert
insert-Sorted x [] s = (λ d h. absurd h, tt)
insert-Sorted x (y ∷ ys) s = elim (Bool-cases (sort_connection_cmp_fn y x)) [
  | inl before ↦ rw before (
    λ d h. elim ((Has-insert x ys d).0 h) [
      | inl e ↦
          subst (λ d. rank y ≤ rank d) e (omega (arith, (sort_connection_cmp_fn_iff y x).0 before))
      | inr h' ↦ s.0 d h'
    ],
    insert-Sorted x ys s.1,
  )
  | inr behind ↦ rw behind (
    λ d h. elim h [
      | inl e ↦ subst (λ d. rank x ≤ rank d) e (first behind)
      | inr h' ↦ omega (arith, first behind, s.0 d h')
    ],
    s,
  )
]
  where
    first : sort_connection_cmp_fn y x ≡ false → rank x ≤ rank y
    first behind = ground (arith, sort_connection_cmp_fn_iff y x)

pub sort-Sorted : (xs : List Connection) → Sorted (sort xs)
unfolding sort
sort-Sorted [] = tt
sort-Sorted (x ∷ xs) = insert-Sorted x (sort xs) (sort-Sorted xs)
