-- ===== src/Node/Table/Accept.antt =====
-- `insert_child` as a whole: what it accepts, that the table stays well formed, and what is found
-- afterwards.
use libatbus.Base.{
  ℕ, ◌^◌, ◌<◌, ◌≡◌, ◌↔◌, ◌⊎◌, inl, inr, refl, some, true, false, arith, Bool-cases, Option-ext,
  subst, sym, if◌then◌else◌, ◌&&◌,
}
use libatbus.Endpoint.Domain.{EndpointPtr, is_child_node, IsValid}
use libatbus.Endpoint.Domain.Interval.{Contains, Apart, is_child_node_iff}
use libatbus.Node.Table.{Collection, lower_bound, insert_at, insert_child, find_child}
use libatbus.Node.Table.WellFormed.{WellFormed, Has}
use libatbus.Node.Table.Find.{find_child_iff}
use libatbus.Node.Table.Insert.{assign-WellFormed}
use libatbus.Node.Table.Fits.{insert_at-true, insert_at-Apart, Fits-Apart, Has-assign}

-- `insert_child` keeps the table well formed, whether it accepts the endpoint or not.
pub insert_child-WellFormed :
    (coll : Collection) (ep : EndpointPtr)
    → WellFormed 0 coll
    → IsValid ep
    → WellFormed 0 (insert_child coll ep).0
unfolding insert_child
insert_child-WellFormed coll ep w v =
    elim (Bool-cases (insert_at coll ep (lower_bound ep.id coll))) [
      | inl ok ↦
          let (ends, begins) = insert_at-true ep coll _ w v refl ok in
          rw ok (assign-WellFormed 0 coll ep w v (omega arith) ends begins)
      | inr no' ↦ rw no' w
    ]

-- On a well-formed table `insert_child` accepts an endpoint exactly where its domain lies apart from
-- that of every endpoint in the table.
pub insert_child_iff :
    (coll : Collection) (ep : EndpointPtr)
    → WellFormed 0 coll
    → IsValid ep
    → ((insert_child coll ep).1 ≡ true) ↔ ((e : EndpointPtr) → Has e coll → Apart e ep)
unfolding insert_child
insert_child_iff coll ep w v = (
  λ ok e has.
      let (ends, begins) = insert_at-true ep coll _ w v refl (ground arith) in
      Fits-Apart 0 coll ep e w v ends begins has,
  λ apart. rw (insert_at-Apart ep coll _ w v apart refl),
)

-- What is found after a successful insertion.
found_after :
    (coll after : Collection) (ep : EndpointPtr) (id : ℕ)
    → WellFormed 0 coll
    → WellFormed 0 after
    → IsValid ep
    → id < 2 ^ 64
    → ((e : EndpointPtr) → Has e after ↔ ((ep ≡ e) ⊎ Has e coll))
    → find_child after id ≡ (if is_child_node ep id then some ep else find_child coll id)
found_after coll after ep id w w' v h has = elim (Bool-cases (is_child_node ep id)) [
  | inl c ↦ rw c (
      (find_child_iff 0 id after ep w' h).1 ((has ep).1 (inl refl), (is_child_node_iff id v h).0 c))
  | inr out ↦ rw out (
      Option-ext _ _ λ e. (
        kept out e,
        λ found.
            let (there, c) = (find_child_iff 0 id coll e w h).0 found in
            (find_child_iff 0 id after e w' h).1 ((has e).1 (inr there), c),
      ))
]
  where
    kept :
        is_child_node ep id ≡ false
        → (e : EndpointPtr) → find_child after id ≡ some e
        → find_child coll id ≡ some e
    kept out e found =
        let (there, c) = (find_child_iff 0 id after e w' h).0 found in
        elim ((has e).0 there) [
          | inl eq ↦ cc ((is_child_node_iff id v h).1 (subst (λ e. Contains e id) (sym eq) c))
          | inr old ↦ (find_child_iff 0 id coll e w h).1 (old, c)
        ]

-- After `insert_child` every id of the new domain is found at the new endpoint, if it was accepted;
-- every other id, and after a refusal every id, is found where it was found before.
pub find_child-insert_child :
    (coll : Collection) (ep : EndpointPtr) (id : ℕ)
    → WellFormed 0 coll
    → IsValid ep
    → id < 2 ^ 64
    → find_child (insert_child coll ep).0 id
      ≡ (if (insert_child coll ep).1 && is_child_node ep id then some ep else find_child coll id)
unfolding insert_child
find_child-insert_child coll ep id w v h =
    elim (Bool-cases (insert_at coll ep (lower_bound ep.id coll))) [
      | inl ok ↦
          let (ends, begins) = insert_at-true ep coll _ w v refl ok in
          rw ok (
            found_after coll _ ep id w (assign-WellFormed 0 coll ep w v (omega arith) ends begins) v
              h λ e. Has-assign 0 coll ep e w v (λ f. Fits-Apart 0 coll ep f w v ends begins))
      | inr no' ↦ rw no'
    ]

-- The table after `insert_child` holds the new endpoint, if it was accepted, and what it held.
pub Has-insert_child :
    (coll : Collection) (ep e : EndpointPtr)
    → WellFormed 0 coll
    → IsValid ep
    → Has e (insert_child coll ep).0 ↔ ((((insert_child coll ep).1 ≡ true) × (ep ≡ e)) ⊎ Has e coll)
unfolding insert_child
Has-insert_child coll ep e w v = elim (Bool-cases (insert_at coll ep (lower_bound ep.id coll))) [
  | inl ok ↦
      let (ends, begins) = insert_at-true ep coll _ w v refl ok in
      let has = Has-assign 0 coll ep e w v (λ f. Fits-Apart 0 coll ep f w v ends begins) in
      rw ok (ground (arith, has))
  | inr no' ↦ rw no' (ground arith)
]
