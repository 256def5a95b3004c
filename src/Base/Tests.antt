-- ===== src/Base/Tests.antt =====
-- Boolean tests on the native numbers, the conditional, and case lemmas.
use Prim.Native.Nat.{ℕ, ◌≤◌, ◌<◌, compare, Ordering}
use mathlib.Core.Path.{◌≡◌, refl, sym}
use mathlib.Core.Logic.{◌↔◌, ◌⊎◌, inl, inr}
use mathlib.Core.Bool.{Bool, true, false}
use mathlib.Core.Option.{Option, none, some}
use native.Mathlib.Omega.{arith}

-- These compute to `compare`, which `ground` and `grind` read with no lemma listed.
abbrev pub ltb : ℕ → ℕ → Bool
ltb a b = elim (compare a b) [ Ordering.lt ↦ true | _ ↦ false ]

abbrev pub leb : ℕ → ℕ → Bool
leb a b = elim (compare a b) [ Ordering.gt ↦ false | _ ↦ true ]

infix 50 ◌==◌
abbrev pub ◌==◌ : ℕ → ℕ → Bool
a == b = elim (compare a b) [ Ordering.eq ↦ true | _ ↦ false ]

infix 1 if◌then◌else◌
abbrev pub if◌then◌else◌ {ℓ} : {A : Type ℓ} → Bool → A → A → A
if true then x else y = x
if false then x else y = y

pub ltb→lt : (a b : ℕ) → ltb a b ≡ true → a < b
ltb→lt a b h = ground arith

pub ltb-false→le : (a b : ℕ) → ltb a b ≡ false → b ≤ a
ltb-false→le a b h = ground arith

pub lt→ltb : (a b : ℕ) → a < b → ltb a b ≡ true
lt→ltb a b h = ground arith

pub le→ltb-false : (a b : ℕ) → b ≤ a → ltb a b ≡ false
le→ltb-false a b h = ground arith

pub le→leb : (a b : ℕ) → a ≤ b → leb a b ≡ true
le→leb a b h = ground arith

pub lt→leb-false : (a b : ℕ) → b < a → leb a b ≡ false
lt→leb-false a b h = ground arith

pub lt→==-false : (a b : ℕ) → a < b → (b == a) ≡ false
lt→==-false a b h = ground arith

pub ==_iff : (a b : ℕ) → ((a == b) ≡ true) ↔ (a ≡ b)
==_iff a b = ground arith

-- To split on a computed value and keep the equation.
pub Bool-cases : (b : Bool) → (b ≡ true) ⊎ (b ≡ false)
Bool-cases true = inl refl
Bool-cases false = inr refl

pub Option-cases {ℓ} : {A : Type ℓ} (o : Option A) → (o ≡ none) ⊎ ((a : A) × (o ≡ some a))
Option-cases none = inl refl
Option-cases (some a) = inr (a, refl)

-- Two results are equal where they return the same values.
pub Option-ext {ℓ} : {A : Type ℓ} (a b : Option A) → ((x : A) → (a ≡ some x) ↔ (b ≡ some x)) → a ≡ b
Option-ext none none h = refl
Option-ext none (some y) h = (h y).1 refl
Option-ext (some x) b h = sym ((h x).0 refl)

-- An alternative `B` in front of both sides of an equivalence.
pub alternatives_under : {A B C D : Type 0} → D ↔ (A ⊎ C) → (B ⊎ D) ↔ (A ⊎ (B ⊎ C))
alternatives_under deep = (
  λ h. elim h [
    | inl b ↦ inr (inl b)
    | inr d ↦ elim (deep.0 d) [ inl a ↦ inl a | inr c ↦ inr (inr c) ]
  ],
  λ h. elim h [
    | inl a ↦ inr (deep.1 (inl a))
    | inr (inl b) ↦ inl b
    | inr (inr c) ↦ inr (deep.1 (inr c))
  ],
)

pub some_inj {ℓ} : {A : Type ℓ} {a b : A} → some a ≡ some b → a ≡ b
some_inj e = cc

-- A property of both branches.
pub on_either {ℓ κ} :
    {A : Type ℓ} {x y : A} (P : A → Type κ) → P x → P y → (b : Bool) → P (if b then x else y)
on_either P hx hy = elim [ true ↦ hx | false ↦ hy ]

module _ {ℓ} {A : Type ℓ} where
  pub if_true : (b : Bool) (x y : A) → b ≡ true → (if b then x else y) ≡ x
  if_true b x y h = rw h refl

  pub if_false : (b : Bool) (x y : A) → b ≡ false → (if b then x else y) ≡ y
  if_false b x y h = rw h refl

-- Each branch is taken under its test.
pub on_test {ℓ κ} :
    {A : Type ℓ} (P : A → Type κ) (b : Bool) {x y : A}
    → (b ≡ true → P x)
    → (b ≡ false → P y)
    → P (if b then x else y)
on_test P true hx hy = hx refl
on_test P false hx hy = hy refl
