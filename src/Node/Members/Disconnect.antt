-- ===== src/Node/Members/Disconnect.antt =====
-- What `disconnect` does to every place of the tree that a node knows.
use libatbus.Base.{
  ℕ, ◌^◌, ◌<◌, ◌≡◌, ◌≢◌, ◌↔◌, ◌⊎◌, inl, inr, refl, sym, ap, ◌∙◌, Bool, true, false, Option, none,
  Bool-cases, Option-cases, if◌then◌else◌, if_false,
}
use libatbus.Status.{success}
use libatbus.Endpoint.Domain.{EndpointPtr}
use libatbus.Node.Table.{Collection, find_child}
use libatbus.Node.Table.WellFormed.{WellFormed}
use libatbus.Node.Table.Remove.{find_child-remove_child, other_than, remove_child_finds}
use libatbus.Node.State.{Node, Family}
use libatbus.Node.Members.{
  remove_brother, disconnect, reset_endpoint, is_father, drop_father, exact,
}
use libatbus.Node.Members.Sound.{Sound}
use libatbus.Node.Members.Removal.{reset_endpoint-family}
use libatbus.Node.Members.Effect.{exact_found, remove_brother-family}

-- A lookup that does not give an id exactly where the id is asked for gives it nowhere.
not_there :
    (coll : Collection) (id x : ℕ)
    → WellFormed 0 coll
    → x < 2 ^ 64
    → exact id (find_child coll id) ≡ none
    → find_child coll x ≡ other_than id (find_child coll x)
unfolding exact
not_there coll id x w h gone = elim (remove_child_finds coll id) [
  | inl (yes', (ep, (found, own))) ↦ cc (exact_found id _ ep found own, gone)
  | inr (no', same) ↦
      ap (λ (r : Collection × Bool). find_child r.0 x) (sym no')
      ∙ find_child-remove_child coll id x w h
]

-- What a place of the tree holds after a call.
abbrev Left : Node → Node → Option EndpointPtr → ℕ → Option EndpointPtr → Type 0
Left n n' father x found =
    (n'.father ≡ father) × (n'.children ≡ n.children) × (find_child n'.brother x ≡ found)

drop_father-family : (n : Node) → (drop_father n).family ≡ record n.family { father = none }
unfolding drop_father
drop_father-family n = elim (Option-cases n.father) [
  | inl e ↦ rw (e, drop_father) (ap (λ (o : Option EndpointPtr). record n.family { father = o }) e)
  | inr (p, e) ↦
      rw (e, drop_father)
        (ap (λ (f : Family). record f { father = none }) (reset_endpoint-family n p))
]

module _ (n : Node) (id x : ℕ) (s : Sound n.family) (h : x < 2 ^ 64) where
  reset_and_removed :
      (ep : EndpointPtr)
      → Left n
          (remove_brother (reset_endpoint n ep) id).0
          n.father
          x
          (other_than id (find_child n.brother x))
  reset_and_removed ep = rw (remove_brother-family (reset_endpoint n ep) id) (
      rw (reset_endpoint-family n ep)
        (refl, refl, find_child-remove_child n.brother id x s.brother_formed h))

  beside_father :
      is_father n.family id ≡ false
      → Left n (disconnect n id).0 n.father x (other_than id (find_child n.brother x))
  unfolding disconnect
  beside_father np = elim (Option-cases (exact id (find_child n.brother id))) [
    | inr (b, eb) ↦ rw np (rw (eb, disconnect) (reset_and_removed b))
    | inl nb ↦ elim (Option-cases (exact id (find_child n.children id))) [
      | inr (c, ec) ↦ rw np (rw (nb, disconnect) (rw ec (reset_and_removed c)))
      | inl nc ↦
          rw np (
            rw (nb, disconnect)
              (rw nc (refl, refl, not_there n.brother id x s.brother_formed h nb)))
    ]
  ]

-- Success is reported where one of the three places has the id.
disconnect_ok :
    (n : Node) (id : ℕ)
    → ((disconnect n id).1 ≡ success) ↔ (
        (is_father n.family id ≡ true)
        ⊎ ((exact id (find_child n.brother id) ≢ none)
            ⊎ (exact id (find_child n.children id) ≢ none)))
unfolding disconnect
disconnect_ok n id = elim (Bool-cases (is_father n.family id)) [
  | inl p ↦ rw p (λ e. inl refl, λ k. refl)
  | inr np ↦ elim (Option-cases (exact id (find_child n.brother id))) [
    | inr (b, eb) ↦ rw np (rw (eb, disconnect) (λ e. inr (inl (λ no'. cc no')), λ k. refl))
    | inl nb ↦ elim (Option-cases (exact id (find_child n.children id))) [
      | inr (c, ec) ↦
          rw np (rw (nb, disconnect) (rw ec (λ e. inr (inr (λ no'. cc no')), λ k. refl)))
      | inl nc ↦ rw np (
          rw (nb, disconnect)
            (rw nc (
              λ e. cc e,
              λ k. elim k [
                | inl no' ↦ cc no'
                | inr (inl ne) ↦ absurd (ne refl)
                | inr (inr ne) ↦ absurd (ne refl)
              ],
            )))
    ]
  ]
]

-- `disconnect` reports success exactly where the father, a brother or a child is found with the id. In
-- a sound family, with the id of the father it takes away the father and leaves both tables. With any
-- other id it leaves the father and the table of the children, and a lookup of each 64-bit id among
-- the brothers then gives what it gave, and nothing where that had the id.
pub disconnect_each :
    (n : Node) (id x : ℕ)
    → Sound n.family
    → x < 2 ^ 64
    → (((disconnect n id).1 ≡ success) ↔ (
        (is_father n.family id ≡ true)
        ⊎ ((exact id (find_child n.brother id) ≢ none)
            ⊎ (exact id (find_child n.children id) ≢ none))))
      × (((disconnect n id).0.father ≡ (if is_father n.family id then none else n.father))
          × ((disconnect n id).0.children ≡ n.children)
          × (find_child (disconnect n id).0.brother x ≡ (
              if is_father n.family id
              then find_child n.brother x
              else other_than id (find_child n.brother x))))
unfolding disconnect
disconnect_each n id x s h = (
  disconnect_ok n id,
  elim (Bool-cases (is_father n.family id)) [
    | inl p ↦ rw p (rw (drop_father-family n) (refl, refl, refl))
    | inr np ↦
        let (fa, ch, br) = beside_father n id x s h np in
        (fa ∙ sym (if_false _ _ _ np), ch, br ∙ sym (if_false _ _ _ np))
  ],
)
