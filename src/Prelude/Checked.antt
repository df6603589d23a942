-- ===== src/Prelude/Checked.antt =====
-- Calls that can panic under a lock: `none` is the panic of an `assert!`, an `expect` or an
-- `unreachable!`. `Safe P` says that a call does not panic and that what it leaves has `P`.
use mathlib.Core.Path.{◌≡◌, refl, sym, subst}
use mathlib.Core.Bool.{Bool, true, false}
use mathlib.Core.Option.{Option, none, some}
use native.Mathlib.Omega.{arith}

module _ {A B : Type 0} where
  infixl 5 ◌>>=◌ ◌>>◌
  abbrev pub ◌>>=◌ : Option A → (A → Option B) → Option B
  none >>= rest = none
  some x >>= rest = rest x

  abbrev pub ◌>>◌ : Option A → Option B → Option B
  call >> rest = call >>= λ _. rest

-- assert!(test)
abbrev pub assert : Bool → Option (Unit {0})
assert false = none
assert true = some tt

pub record Safe {A : Type 0} (P : A → Type 0) (call : Option A) : Type 0 where
  pub result : A
  pub runs : call ≡ some result
  pub holds : P result

module _ {A : Type 0} where
  pub Safe-some : {P : A → Type 0} (x : A) → P x → Safe P (some x)
  Safe-some x p = record { result = x; runs = refl; holds = p }

  pub Safe-assert :
      {P : A → Type 0} (b : Bool) (rest : Option A)
      → b ≡ true
      → Safe P rest
      → Safe P (assert b >> rest)
  Safe-assert b rest h p = rw h p

  pub Safe-map :
      {P Q : A → Type 0} {call : Option A} → Safe P call → ((x : A) → P x → Q x) → Safe Q call
  Safe-map p f = record { result = p.result; runs = p.runs; holds = f p.result p.holds }

module _ {A B : Type 0} where
  pub Safe-bind :
      {P : A → Type 0} {Q : B → Type 0} (call : Option A) (rest : A → Option B)
      → Safe P call
      → ((x : A) → P x → Safe Q (rest x))
      → Safe Q (call >>= rest)
  Safe-bind call rest p next =
      let q = next p.result p.holds in
      record { result = q.result; runs = rw p.runs q.runs; holds = q.holds }

  -- An answer is added to what a call leaves.
  pub Safe-attach :
      {C : Type 0} {P : B → Type 0} (call : Option A) (f : A → B) (answer : C)
      → Safe P (call >>= λ x. some (f x))
      → Safe (λ (y : B × C). P y.0) (call >>= λ x. some (f x, answer))
  Safe-attach none f answer p = absurd (ground (arith, p.runs))
  Safe-attach {P = P} (some x) f answer p =
      Safe-some (f x, answer) (subst P (sym (ground (arith, p.runs))) p.holds)

abbrev pub is_some {ℓ} : {A : Type ℓ} → Option A → Bool
is_some none = false
is_some (some a) = true

abbrev pub is_none {ℓ} : {A : Type ℓ} → Option A → Bool
is_none none = true
is_none (some a) = false
