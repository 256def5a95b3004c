-- ===== src/Endpoint/Select/Choice.antt =====
-- Which connection `get_data_connection` takes.
use libatbus.Base.{
  ◌≤◌, ◌≡◌, ◌≢◌, ◌↔◌, inl, inr, refl, ap, Bool, true, false, Option, none, some, List, [], ◌∷◌,
  arith, Bool-cases, Option-cases, sym, subst, ◌==◌,
}
use libatbus.Endpoint.Select.{
  Connection, Endpoint, is_connected, usable, choose, share_pid, share_host, sorted,
  get_ctrl_connection, get_data_connection,
}
use libatbus.Endpoint.Select.Sorting.{rank, Has, Sorted, Has-sort, sort-Sorted}

abbrev Fit : Bool → Bool → Connection → Type 0
Fit pid host c = (is_connected c.state ≡ true) × (usable pid host c ≡ true)

-- What the loop finds among connections `xs`.
Chosen : Bool → Bool → List Connection → Option Connection → Type 0
Chosen pid host xs none = (d : Connection) → Has d xs → Fit pid host d → ⊥
Chosen pid host xs (some c) =
    Has c xs × Fit pid host c × ((d : Connection) → Has d xs → Fit pid host d → rank c ≤ rank d)

Chosen-skip :
    (pid host : Bool) (x : Connection) (xs : List Connection) (o : Option Connection)
    → (Fit pid host x → ⊥)
    → Chosen pid host xs o
    → Chosen pid host (x ∷ xs) o
unfolding Chosen
Chosen-skip pid host x xs none no' h = λ d has fit. elim has [
  | inl e ↦ no' (subst (Fit pid host) (sym e) fit)
  | inr has' ↦ h d has' fit
]
Chosen-skip pid host x xs (some c) no' h = (
  inr h.0,
  h.1,
  λ d has fit. elim has [
    | inl e ↦ absurd (no' (subst (Fit pid host) (sym e) fit))
    | inr has' ↦ h.2 d has' fit
  ],
)

choose-Chosen :
    (pid host : Bool) (xs : List Connection) → Sorted xs → Chosen pid host xs (choose pid host xs)
unfolding choose Chosen
choose-Chosen pid host [] s = λ d has fit. has
choose-Chosen pid host (x ∷ xs) s = elim (Bool-cases (is_connected x.state)) [
  | inr down ↦
      rw (down, choose)
        (Chosen-skip pid host x xs _ (λ fit. ground arith) (choose-Chosen pid host xs s.1))
  | inl up ↦ elim (Bool-cases (usable pid host x)) [
    | inr unfit ↦
        rw (up, choose)
          (rw unfit
            (Chosen-skip pid host x xs _ (λ fit. ground arith) (choose-Chosen pid host xs s.1)))
    | inl fits ↦
        rw (up, choose)
          (rw fits (
            inl refl,
            (up, fits),
            λ d has fit. elim has [
              | inl e ↦ subst (λ d. rank x ≤ rank d) e (omega arith)
              | inr has' ↦ s.0 d has'
            ],
          ))
  ]
]

-- The flag of an endpoint is set only where its data connections are sorted.
abbrev pub FlagHolds : Endpoint → Type 0
FlagHolds ep = ep.connection_sorted ≡ true → Sorted ep.data_conn

-- The connection `c` is connected, and `self` may use it to reach `ep`.
abbrev pub Usable : Endpoint → Endpoint → Connection → Type 0
Usable self ep c = Fit (share_pid self ep) (share_host self ep) c

sorted_lem :
    (ep : Endpoint)
    → FlagHolds ep
    → Sorted (sorted ep).data_conn
      × ((d : Connection) → Has d (sorted ep).data_conn ↔ Has d ep.data_conn)
unfolding sorted
sorted_lem ep h = elim (Bool-cases ep.connection_sorted) [
  | inl e ↦ rw e (h e, λ d. (λ k. k, λ k. k))
  | inr e ↦ rw e (sort-Sorted ep.data_conn, Has-sort ep.data_conn)
]

search_result :
    (self ep : Endpoint)
    → FlagHolds ep
    → Chosen
        (share_pid self ep)
        (share_host self ep)
        (sorted ep).data_conn
        (choose (share_pid self ep) (share_host self ep) (sorted ep).data_conn)
search_result self ep h = choose-Chosen _ _ _ (sorted_lem ep h).0

-- `self` is not `ep`.
handle_lem : (self ep : Endpoint) → self.handle ≢ ep.handle → (self.handle == ep.handle) ≡ false
handle_lem self ep ne = ground arith

-- Where an endpoint other than `self` has a data connection that `self` may use,
-- `get_data_connection` takes one of them, and of the best rank: a shared address is better than none,
-- then a shared host.
pub get_data_connection_best :
    (self ep : Endpoint) (c : Connection)
    → FlagHolds ep
    → self.handle ≢ ep.handle
    → Has c ep.data_conn
    → Usable self ep c
    → (d : Connection) × ((get_data_connection self (some ep)).1 ≡ some d)
      × Has d ep.data_conn
      × Usable self ep d
      × (rank d ≤ rank c)
unfolding get_data_connection Chosen
get_data_connection_best self ep c h ne has fit =
    let same = (sorted_lem ep h).1 in
    elim (Option-cases (choose (share_pid self ep) (share_host self ep) (sorted ep).data_conn)) [
      | inl e ↦ absurd (subst (Chosen _ _ _) e (search_result self ep h) c ((same c).1 has) fit)
      | inr (d, e) ↦
          let found = subst (Chosen _ _ _) e (search_result self ep h) in
          (
            d,
            rw (handle_lem self ep ne) (rw e refl),
            (same d).0 found.0,
            found.1,
            found.2 c ((same c).1 has) fit,
          )
    ]

-- Where `self` may use none of the data connections of another endpoint, `get_data_connection` gives
-- what `get_ctrl_connection` gives.
pub get_data_connection_ctrl :
    (self ep : Endpoint)
    → FlagHolds ep
    → self.handle ≢ ep.handle
    → ((c : Connection) → Has c ep.data_conn → Usable self ep c → ⊥)
    → (get_data_connection self (some ep)).1 ≡ get_ctrl_connection self (some ep)
unfolding get_data_connection Chosen
get_data_connection_ctrl self ep h ne no' =
    let same = (sorted_lem ep h).1 in
    elim (Option-cases (choose (share_pid self ep) (share_host self ep) (sorted ep).data_conn)) [
      | inl e ↦ rw (handle_lem self ep ne) (rw e refl)
      | inr (d, e) ↦
          let found = subst (Chosen _ _ _) e (search_result self ep h) in
          absurd (no' d ((same d).0 found.0) found.1)
    ]

-- `get_data_connection` leaves the endpoint with the same data connections, in the order that its
-- flag says.
get_data_connection-FlagHolds :
    (self ep ep' : Endpoint)
    → FlagHolds ep
    → (get_data_connection self (some ep)).0 ≡ some ep'
    → FlagHolds ep' × ((d : Connection) → Has d ep'.data_conn ↔ Has d ep.data_conn)
unfolding get_data_connection
get_data_connection-FlagHolds self ep ep' h e =
    subst Kept (ap got e) (elim (Bool-cases (self.handle == ep.handle)) [
      | inl same ↦ rw (same, get_data_connection) (h, λ d. (λ k. k, λ k. k))
      | inr other ↦
          let (order, same) = sorted_lem ep h in
          rw (other, get_data_connection) ((λ flag. order), same)
    ])
  where
    got : Option Endpoint → Endpoint
    got none = ep
    got (some x) = x

    Kept : Endpoint → Type 0
    Kept x = FlagHolds x × ((d : Connection) → Has d x.data_conn ↔ Has d ep.data_conn)
