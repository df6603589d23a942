-- ===== src/Prelude/Tests.antt =====
-- Boolean tests on the native numbers, the conditional, and equality tests as instances.
use Prim.Native.Nat.{ℕ, ◌≤◌, ◌<◌, compare, Ordering}
use Prim.Native.String.{String}
use mathlib.Core.Path.{◌≡◌, refl}
use mathlib.Core.Logic.{◌↔◌, ◌⊎◌, inl, inr}
use mathlib.Core.Bool.{Bool, true, false, ◌&&◌}
use mathlib.Core.Option.{Option, none, some}
use mathlib.Core.List.{List, [], ◌∷◌}
use native.Mathlib.Omega.{arith}
use text.Mathlib.Text.{◌==◌ as text_eq}
use text.Mathlib.TextEquality.{eq_iff}

abbrev pub ltb : ℕ → ℕ → Bool
ltb a b = elim (compare a b) [ Ordering.lt ↦ true | _ ↦ false ]

abbrev pub leb : ℕ → ℕ → Bool
leb a b = elim (compare a b) [ Ordering.gt ↦ false | _ ↦ true ]

abbrev pub eqb : ℕ → ℕ → Bool
eqb a b = elim (compare a b) [ Ordering.eq ↦ true | _ ↦ false ]

infix 1 if◌then◌else◌
abbrev pub if◌then◌else◌ {ℓ} : {A : Type ℓ} → Bool → A → A → A
if true then x else y = x
if false then x else y = y

-- The derived `PartialEq` of a type: a test that decides equality.
pub record Eq {ℓ} (A : Type ℓ) : Type ℓ where
  pub test : (left right : A) → Bool
  pub test_iff : (left right : A) → (test left right ≡ true) ↔ (left ≡ right)

module _ {ℓ} {A : Type ℓ} where
  infix 50 ◌==◌
  abbrev pub ◌==◌ : ⦃equality : Eq A⦄ → A → A → Bool
  ◌==◌ ⦃equality⦄ = equality.test

pub eqb_iff : (a b : ℕ) → (eqb a b ≡ true) ↔ (a ≡ b)
eqb_iff a b = ground arith

instance abbrev pub string_eq : Eq String
string_eq = record { test_iff = eq_iff; test = text_eq }

instance abbrev pub nat_eq : Eq ℕ
nat_eq = record { test_iff = eqb_iff; test = eqb }

abbrev pub unit_eqb : Unit {0} → Unit {0} → Bool
unit_eqb a b = true

module _ {ℓ κ} {A : Type ℓ} {B : Type κ} ⦃e : Eq A⦄ ⦃f : Eq B⦄ where
  abbrev pub pair_eqb : A × B → A × B → Bool
  pair_eqb (a, b) (c, d) = e.test a c && f.test b d

  pub pair_eqb_iff : (p q : A × B) → (pair_eqb p q ≡ true) ↔ (p ≡ q)
  pair_eqb_iff (a, b) (c, d) = (
    λ h. ground (arith, e.test_iff a c, f.test_iff b d),
    λ h. ground (arith, e.test_iff a c, f.test_iff b d),
  )

instance abbrev pub pair_eq {ℓ κ} : {A : Type ℓ} {B : Type κ} ⦃e : Eq A⦄ ⦃f : Eq B⦄ → Eq (A × B)
pair_eq = record { test = pair_eqb; test_iff = pair_eqb_iff }

module _ {ℓ} {A : Type ℓ} ⦃e : Eq A⦄ where
  abbrev pub option_eqb : Option A → Option A → Bool
  option_eqb none none = true
  option_eqb (some a) (some b) = e.test a b
  option_eqb _ _ = false

  pub option_eqb_iff : (p q : Option A) → (option_eqb p q ≡ true) ↔ (p ≡ q)
  option_eqb_iff none none = (λ h. refl, λ h. refl)
  option_eqb_iff none (some b) = (λ h. cc, λ h. cc)
  option_eqb_iff (some a) none = (λ h. cc, λ h. cc)
  option_eqb_iff (some a) (some b) =
      (λ h. ground (arith, e.test_iff a b), λ h. ground (arith, e.test_iff a b))

instance abbrev pub option_eq {ℓ} : {A : Type ℓ} ⦃e : Eq A⦄ → Eq (Option A)
option_eq = record { test = option_eqb; test_iff = option_eqb_iff }

module _ {ℓ} {A : Type ℓ} ⦃e : Eq A⦄ where
  abbrev pub list_eqb : List A → List A → Bool
  list_eqb [] [] = true
  list_eqb [] (y ∷ ys) = false
  list_eqb (x ∷ xs) [] = false
  list_eqb (x ∷ xs) (y ∷ ys) = e.test x y && list_eqb xs ys

  pub list_eqb_iff : (xs ys : List A) → (list_eqb xs ys ≡ true) ↔ (xs ≡ ys)
  list_eqb_iff [] [] = (λ h. refl, λ h. refl)
  list_eqb_iff [] (y ∷ ys) = (λ h. cc, λ h. cc)
  list_eqb_iff (x ∷ xs) [] = (λ h. cc, λ h. cc)
  list_eqb_iff (x ∷ xs) (y ∷ ys) = (
    λ h. ground (arith, e.test_iff x y, list_eqb_iff xs ys),
    λ h. ground (arith, e.test_iff x y, list_eqb_iff xs ys),
  )

instance abbrev pub list_eq {ℓ} : {A : Type ℓ} ⦃e : Eq A⦄ → Eq (List A)
list_eq = record { test = list_eqb; test_iff = list_eqb_iff }

pub test_refl {ℓ} : {A : Type ℓ} ⦃e : Eq A⦄ (a : A) → (a == a) ≡ true
test_refl ⦃e⦄ a = (e.test_iff a a).1 refl

-- To split on a computed value and keep the equation.
pub Bool-cases : (b : Bool) → (b ≡ true) ⊎ (b ≡ false)
Bool-cases true = inl refl
Bool-cases false = inr refl

pub Option-cases {ℓ} : {A : Type ℓ} (o : Option A) → (o ≡ none) ⊎ ((a : A) × (o ≡ some a))
Option-cases none = inl refl
Option-cases (some a) = inr (a, refl)

pub ltb→lt : (a b : ℕ) → ltb a b ≡ true → a < b
ltb→lt a b h = ground arith

pub leb→le : (a b : ℕ) → leb a b ≡ true → a ≤ b
leb→le a b h = ground arith
