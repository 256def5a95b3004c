-- ===== src/Endpoint/Domain/Interval.antt =====
-- The ids below an endpoint are an interval, and two such intervals are nested or apart.
use native.Mathlib.Nat.{
  pow-suc, one-le-pow, div-lt_iff_lt-mul, div-mul-le_self, lt-div-mul-add, div-eq_of_lt-le,
}
use native.Mathlib.Decide.{dec_lt}
use libatbus.Base.{
  ℕ, zero, suc, ◌+◌, ◌-◌, ◌*◌, ◌/◌, ◌^◌, ◌≤◌, ◌<◌, ◌≡◌, ◌↔◌, ◌⊎◌, inl, inr, refl, true, arith, ap,
  ==_iff,
}
use libatbus.Base.Bits.{bit_and-high_mask, bit_or-low_mask, round_down}
use libatbus.Endpoint.Domain.{
  EndpointPtr, low_ones, complement, is_child_node, get_children_min_id, get_children_max_id,
  IsValid,
}

complement_lem : (m : ℕ) → m < 31 → complement (low_ones m) ≡ 2 ^ 64 - 2 ^ m
complement_lem m h = omega (arith, one-le-pow m 2)

mask_lem :
    (m x : ℕ)
    → m < 31
    → x < 2 ^ 64
    → Prim.Native.Nat.bit_and x (complement (low_ones m)) ≡ round_down m x
mask_lem m x h b = rw (complement_lem m h) (bit_and-high_mask m 64 x (omega arith) b)

-- The first and the last id of the domain of an endpoint.
abbrev pub min_id : EndpointPtr → ℕ
min_id e = get_children_min_id e.id e.children_mask

abbrev pub max_id : EndpointPtr → ℕ
max_id e = get_children_max_id e.id e.children_mask

pub min_id_lem : {e : EndpointPtr} → IsValid e → min_id e ≡ round_down e.children_mask e.id
unfolding get_children_min_id
min_id_lem v = mask_lem _ _ v.mask_bound v.id_bound

pub max_id_lem :
    (e : EndpointPtr) → max_id e ≡ round_down e.children_mask e.id + (2 ^ e.children_mask - 1)
unfolding get_children_max_id
max_id_lem e = bit_or-low_mask e.children_mask e.id

abbrev pub Contains : EndpointPtr → ℕ → Type 0
Contains e id = (min_id e ≤ id) × (id ≤ max_id e)

-- `a` rounds down to the same multiple of `p` as `b` exactly within the next `p` numbers.
same_multiple :
    (p a b : ℕ) → 0 < p → (a / p * p ≡ b / p * p) ↔ ((b / p * p ≤ a) × (a ≤ b / p * p + (p - 1)))
same_multiple p a b h = (
  λ e. omega (arith, div-mul-le_self a p, lt-div-mul-add {a = a} h),
  λ (lo, hi). ap (λ (q : ℕ). q * p) (div-eq_of_lt-le p lo (omega (arith))),
)

-- `is_child_node` is membership in the interval from `get_children_min_id` to `get_children_max_id`.
pub is_child_node_iff :
    {e : EndpointPtr} (id : ℕ)
    → IsValid e
    → id < 2 ^ 64
    → (is_child_node e id ≡ true) ↔ Contains e id
unfolding is_child_node
is_child_node_iff {e} id v h =
    rw
      (
        mask_lem e.children_mask id v.mask_bound h,
        mask_lem e.children_mask e.id v.mask_bound v.id_bound,
        min_id_lem v,
        max_id_lem e,
      )
      (λ e. same.0 ((==_iff _ _).0 e), λ c. (==_iff _ _).1 (same.1 c))
  where
    same : (round_down e.children_mask id ≡ round_down e.children_mask e.id) ↔ (
        (round_down e.children_mask e.id ≤ id)
        × (id ≤ round_down e.children_mask e.id + (2 ^ e.children_mask - 1)))
    same = same_multiple (2 ^ e.children_mask) id e.id (one-le-pow e.children_mask 2 (omega arith))

-- The own id of an endpoint is in its domain, which ends below 2 ^ 64.
pub Contains-self : {e : EndpointPtr} → IsValid e → Contains e e.id
Contains-self {e} v =
    (is_child_node_iff e.id v v.id_bound).0 (unfold is_child_node in (==_iff _ _).1 refl)

before_multiple : (p q a : ℕ) → 0 < p → a < q * p → a / p * p + p ≤ q * p
before_multiple p q a h lt = let le : a / p < q = (div-lt_iff_lt-mul h).1 lt in grind arith

after_multiple : (p q a : ℕ) → 0 < p → q * p ≤ a → q * p ≤ a / p * p
after_multiple p q a h le = elim (dec_lt (a / p) q) [
  | yes lt ↦ absurd (omega (arith, (div-lt_iff_lt-mul h).0 lt))
  | no ge ↦ grind arith
]

-- The domain of a small mask lies in that of a large one, before it or after it.
small_large :
    (p r a b : ℕ)
    → 0 < p
    → 0 < r
    → let lo = b / (p * r) * (p * r) in
      ((lo ≤ a) × (a ≤ lo + (p * r - 1)))
      ⊎ ((a / p * p + (p - 1) < lo) ⊎ (lo + (p * r - 1) < a / p * p))
small_large p r a b hp hr =
    let q = b / (p * r) * r in
    let below : a < q * p → a / p * p + p ≤ q * p = before_multiple p q a hp in
    let above : (q + r) * p ≤ a → (q + r) * p ≤ a / p * p = after_multiple p (q + r) a hp in
    let pos : 0 < p * r = grind arith in
    elim (dec_lt a (b / (p * r) * (p * r))) [
      | yes lt ↦ inr (inl (omega (arith, below (omega arith))))
      | no ge ↦ elim (dec_lt (b / (p * r) * (p * r) + (p * r - 1)) a) [
        | yes lt ↦ inr (inr (omega (arith, above (omega arith))))
        | no le ↦ inl (omega arith)
      ]
    ]

-- The larger of two powers of two is a multiple of the smaller.
pow_multiple : (m n : ℕ) → m ≤ n → (r : ℕ) × (0 < r) × (2 ^ n ≡ 2 ^ m * r)
pow_multiple zero n h = (2 ^ n, one-le-pow n 2 (omega arith), omega arith)
pow_multiple (suc m) zero h = absurd (omega arith)
pow_multiple (suc m) (suc n) h =
    let (r, pos, e) = pow_multiple m n (omega arith) in
    (r, pos, omega (arith, pow-suc 2 m, pow-suc 2 n, ap (λ (t : ℕ). t * r) (pow-suc 2 m), e))

-- The two intervals lie apart.
abbrev pub Apart : EndpointPtr → EndpointPtr → Type 0
Apart e f = (max_id e < min_id f) ⊎ (max_id f < min_id e)

pub nested_or_Apart :
    {e f : EndpointPtr}
    → IsValid e
    → IsValid f
    → e.children_mask ≤ f.children_mask
    → Contains f e.id ⊎ Apart e f
nested_or_Apart {e} {f} ve vf h =
    let (r, pos, eq) = pow_multiple e.children_mask f.children_mask h in
    let small = one-le-pow e.children_mask 2 (omega arith) in
    let cases = small_large (2 ^ e.children_mask) r e.id f.id small pos in
    ground (arith, rw (← eq) at cases, min_id_lem ve, min_id_lem vf, max_id_lem e, max_id_lem f)

-- The domains of two endpoints lie apart unless one endpoint has the id of the other in its domain.
pub Apart-of_not :
    {e f : EndpointPtr} → IsValid e → IsValid f → ¬ Contains e f.id → ¬ Contains f e.id → Apart e f
Apart-of_not {e} {f} ve vf ne nf = elim (dec_lt f.children_mask e.children_mask) [
  | yes lt ↦ elim (nested_or_Apart vf ve (omega arith)) [
    | inl c ↦ absurd (ne c)
    | inr (inl a) ↦ inr a
    | inr (inr a) ↦ inl a
  ]
  | no ge ↦ elim (nested_or_Apart ve vf (omega arith)) [ inl c ↦ absurd (nf c) | inr a ↦ a ]
]
