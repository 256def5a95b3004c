-- ===== src/Node/Members/Effect.antt =====
-- What `remove_endpoint` does to every place of the tree that a node knows.
use libatbus.Base.{
  ℕ, ◌^◌, ◌<◌, ◌≡◌, ◌≢◌, ◌↔◌, inl, inr, refl, sym, ap, ◌∙◌, Bool, true, false, Option, none, some,
  arith, Bool-cases, Option-cases, if◌then◌else◌, if_false, ◌==◌,
}
use libatbus.Status.{Status, success}
use libatbus.Endpoint.Domain.{EndpointPtr, is_parent_node}
use libatbus.Node.Table.{Collection, remove_child, find_child}
use libatbus.Node.Table.WellFormed.{WellFormed}
use libatbus.Node.Table.Remove.{find_child-remove_child, other_than, remove_child_finds}
use libatbus.Node.State.{Node, Family, is_child, is_brother, is_parent}
use libatbus.Node.Members.{
  removed, remove_brother, remove_own_child, remove_endpoint, lose_father, exact, get_endpoint,
}
use libatbus.Node.Members.Sound.{Sound}
use libatbus.Node.Members.Removal.{removed-family}

pub remove_brother-family :
    (n : Node) (id : ℕ)
    → (remove_brother n id).0.family ≡ record n.family { brother = (remove_child n.brother id).0 }
unfolding remove_brother removed
remove_brother-family n id = elim (remove_child_finds n.brother id) [
  | inl (yes', found) ↦ rw yes' (removed-family n _ _)
  | inr (no', same) ↦ rw no' refl
]

remove_own_child-family :
    (n : Node) (id : ℕ)
    → (remove_own_child n id).0.family
      ≡ record n.family { children = (remove_child n.children id).0 }
unfolding remove_own_child removed
remove_own_child-family n id = elim (remove_child_finds n.children id) [
  | inl (yes', found) ↦ rw yes' (removed-family n _ _)
  | inr (no', same) ↦ rw no' refl
]

lose_father-family : (n : Node) → (lose_father n).family ≡ record n.family { father = none }
unfolding lose_father
lose_father-family n = elim (Option-cases n.father) [
  | inl e ↦ rw (e, lose_father) refl
  | inr (p, e) ↦ rw (e, lose_father) refl
]

-- A lookup that wants an id exactly, and leaves out another.
exact-other_than :
    (x id : ℕ) (o : Option EndpointPtr) → exact x (other_than id o) ≡ other_than id (exact x o)
unfolding exact
exact-other_than x id none = refl
exact-other_than x id (some e) = ground arith

exact_ne : (x id : ℕ) (o : Option EndpointPtr) → x ≢ id → exact x o ≡ other_than id (exact x o)
unfolding exact
exact_ne x id none ne = refl
exact_ne x id (some e) ne = ground arith

kept_at :
    (x id : ℕ) (coll : Collection)
    → WellFormed 0 coll
    → x < 2 ^ 64
    → exact x (find_child (remove_child coll id).0 x) ≡ other_than id (exact x (find_child coll x))
kept_at x id coll w h =
    ap (exact x) (find_child-remove_child coll id x w h) ∙ exact-other_than x id (find_child coll x)

apart : (f : Family → ℕ → Bool) (n : Family) (x id : ℕ) → f n x ≡ true → f n id ≡ false → x ≢ id
apart f n x id yes' no' e = cc (ap (f n) e)

-- Where the father stays, a lookup follows the two tables.
module _ (f : Family) (b c : Collection) (id x : ℕ) (np : is_parent f id ≡ false) where
  same_father : is_parent f x ≡ true → f.father ≡ other_than id f.father
  unfolding is_parent is_parent_node
  same_father px = elim (Option-cases f.father) [
    | inl e ↦ rw e refl
    | inr (p, e) ↦ let px' = rw e at px in let np' = rw e at np in rw e (ground arith)
  ]

  get_endpoint_by_tables :
      (is_brother f x ≡ true
        → exact x (find_child b x) ≡ other_than id (exact x (find_child f.brother x)))
      → (is_brother f x ≡ false
          → is_child f x ≡ true
          → exact x (find_child c x) ≡ other_than id (exact x (find_child f.children x)))
      → get_endpoint (record f { brother = b; children = c }) x ≡ other_than id (get_endpoint f x)
  unfolding get_endpoint is_parent is_brother is_child
  get_endpoint_by_tables hb hc = elim (Bool-cases (is_parent f x)) [
    | inl px ↦ rw px (same_father px)
    | inr px ↦ elim (Bool-cases (is_brother f x)) [
      | inl bx ↦ rw px (rw bx (hb bx))
      | inr bx ↦ elim (Bool-cases (is_child f x)) [
        | inl cx ↦ rw px (rw bx (rw cx (hc bx cx)))
        | inr cx ↦ rw px (rw bx (rw cx refl))
      ]
    ]
  ]

module _ (n : Node) (id x : ℕ) (s : Sound n.family) (h : x < 2 ^ 64) where
  -- Where the id is not the father's.
  below_father :
      is_parent n.family id ≡ false
      → get_endpoint (remove_endpoint n id).0.family x ≡ other_than id (get_endpoint n.family x)
  unfolding remove_endpoint
  below_father np = elim (Bool-cases (is_brother n.family id)) [
    | inl b ↦ rw np (
        rw b (
          rw (remove_brother-family n id) (
            get_endpoint_by_tables n.family _ n.children id x np
              (λ bx. kept_at x id n.brother s.brother_formed h)
              (λ bx cx. exact_ne x id _ (λ e. cc (b, bx, ap (is_brother n.family) e))))))
    | inr nb ↦
        let brothers = λ (bx : is_brother n.family x ≡ true).
          exact_ne x id (find_child n.brother x) (apart is_brother n.family x id bx nb) in
        elim (Bool-cases (is_child n.family id)) [
          | inl c ↦ rw np (
              rw nb (
                rw c (
                  rw (remove_own_child-family n id) (
                    get_endpoint_by_tables n.family n.brother _ id x np brothers
                      (λ bx cx. kept_at x id n.children s.children_formed h)))))
          | inr nc ↦ rw np (
              rw nb (
                rw nc (
                  get_endpoint_by_tables n.family n.brother n.children id x np brothers
                    (λ bx cx. exact_ne x id _ (apart is_child n.family x id cx nc)))))
        ]
  ]

-- Whether a lookup gives an endpoint with the id.
exact_gone : (id : ℕ) (o : Option EndpointPtr) → other_than id o ≡ o → exact id o ≡ none
unfolding exact
exact_gone id none e = refl
exact_gone id (some ep) e = elim (Bool-cases (ep.id == id)) [
  | inl own ↦ cc (rw own at e)
  | inr other ↦ rw other refl
]

pub exact_found :
    (id : ℕ) (o : Option EndpointPtr) (ep : EndpointPtr)
    → o ≡ some ep
    → (ep.id == id) ≡ true
    → exact id o ≡ some ep
unfolding exact
exact_found id o ep e own = rw e (rw own refl)

-- A status that is not success answers a lookup that gives nothing.
neither :
    (s : Status) (o : Option EndpointPtr) → s ≢ success → o ≡ none → (s ≡ success) ↔ (o ≢ none)
neither s o ns no' = (λ e. absurd (ns e), λ some'. absurd (some' no'))

both :
    (s : Status) (o : Option EndpointPtr) (ep : EndpointPtr)
    → s ≡ success
    → o ≡ some ep
    → (s ≡ success) ↔ (o ≢ none)
both s o ep ok e = (λ h no'. cc, λ h. ok)

removed_ok : (n : Node) (f : Family) (o : Option EndpointPtr) → (removed n f true o).1 ≡ success
unfolding removed
removed_ok n f none = refl
removed_ok n f (some ep) = refl

remove_brother_ok :
    (n : Node) (id : ℕ)
    → ((remove_brother n id).1 ≡ success) ↔ (exact id (find_child n.brother id) ≢ none)
unfolding remove_brother removed
remove_brother_ok n id = elim (remove_child_finds n.brother id) [
  | inl (yes', (ep, (found, own))) ↦
      both _ _ ep (rw yes' (removed_ok n _ _)) (exact_found id _ ep found own)
  | inr (no', same) ↦ neither _ _ (rw no' (λ e. cc)) (exact_gone id _ same)
]

remove_own_child_ok :
    (n : Node) (id : ℕ)
    → ((remove_own_child n id).1 ≡ success) ↔ (exact id (find_child n.children id) ≢ none)
unfolding remove_own_child removed
remove_own_child_ok n id = elim (remove_child_finds n.children id) [
  | inl (yes', (ep, (found, own))) ↦
      both _ _ ep (rw yes' (removed_ok n _ _)) (exact_found id _ ep found own)
  | inr (no', same) ↦ neither _ _ (rw no' (λ e. cc)) (exact_gone id _ same)
]

no_father : (f : Family) (id : ℕ) → is_parent f id ≡ true → f.father ≢ none
unfolding is_parent
no_father f id p e = cc (rw e at p)

remove_endpoint_ok :
    (n : Node) (id : ℕ) → ((remove_endpoint n id).1 ≡ success) ↔ (get_endpoint n.family id ≢ none)
unfolding remove_endpoint get_endpoint
remove_endpoint_ok n id = elim (Bool-cases (is_parent n.family id)) [
  | inl p ↦ rw p (λ ok gone. no_father n.family id p gone, λ h. refl)
  | inr np ↦ elim (Bool-cases (is_brother n.family id)) [
    | inl b ↦ rw np (rw b (remove_brother_ok n id))
    | inr nb ↦ elim (Bool-cases (is_child n.family id)) [
      | inl c ↦ rw np (rw nb (rw c (remove_own_child_ok n id)))
      | inr nc ↦ rw np (rw nb (rw nc (λ e. cc, λ h. absurd (h refl))))
    ]
  ]
]

-- In a sound family `remove_endpoint` reports success exactly where `get_endpoint` finds the id. With
-- the id of the father it takes away the father alone. With any other id, found or not, a lookup of
-- each 64-bit id then gives what it gave, and nothing where that had the removed id.
pub get_endpoint-remove_endpoint_each :
    (n : Node) (id x : ℕ)
    → Sound n.family
    → x < 2 ^ 64
    → (((remove_endpoint n id).1 ≡ success) ↔ (get_endpoint n.family id ≢ none))
      × (get_endpoint (remove_endpoint n id).0.family x ≡ (
          if is_parent n.family id
          then get_endpoint (record n.family { father = none }) x
          else other_than id (get_endpoint n.family x)))
unfolding remove_endpoint
get_endpoint-remove_endpoint_each n id x s h = (
  remove_endpoint_ok n id,
  elim (Bool-cases (is_parent n.family id)) [
    | inl p ↦ rw p (rw (lose_father-family n) refl)
    | inr np ↦ below_father n id x s h np ∙ sym (if_false _ _ _ np)
  ],
)
