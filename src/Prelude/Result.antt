-- ===== src/Prelude/Result.antt =====
-- What a call of the source comes to: the `Ok` or `Err` of Rust's `Result`, or a panic. The bind is
-- the `?` operator, and a panic ends the call.
use mathlib.Core.Bool.{Bool, true, false}
use mathlib.Core.Path.{◌≡◌, refl}
use mathlib.Core.Option.{Option, none, some}

pub data Result {ℓ} (E A : Type ℓ) : Type ℓ where
  panic : Result E A
  err : E → Result E A
  ok : A → Result E A

module _ {ℓ} {E A B : Type ℓ} where
  infixl 5 ◌>>=◌ ◌>>◌
  abbrev pub ◌>>=◌ : Result E A → (A → Result E B) → Result E B
  panic >>= next = panic
  err why >>= next = err why
  ok answer >>= next = next answer

  abbrev pub ◌>>◌ : Result E A → Result E B → Result E B
  first >> second = first >>= λ _. second

  -- A chain that succeeds: its first call succeeded, and so did the rest.
  pub >>=-eq-ok :
      (first : Result E A) (next : A → Result E B) {final : B} (done : first >>= next ≡ ok final)
      → (answer : A) × (first ≡ ok answer) × (next answer ≡ ok final)
  >>=-eq-ok panic next done = cc
  >>=-eq-ok (err why) next done = cc
  >>=-eq-ok (ok answer) next done = (answer, refl, done)

module _ {ℓ} {E A : Type ℓ} where
  -- ok_or
  abbrev pub ok_or : E → Option A → Result E A
  ok_or why none = err why
  ok_or why (some answer) = ok answer

  abbrev pub map_err : {F : Type ℓ} → (E → F) → Result E A → Result F A
  map_err change panic = panic
  map_err change (err why) = err (change why)
  map_err change (ok answer) = ok answer

-- `if test { return Err(why) }`
abbrev pub reject_if : {E : Type 0} → Bool → E → Result E (Unit {0})
reject_if true why = err why
reject_if false why = ok tt

-- A chain that succeeds passed the check at its head, or found the value there.
pub check_passed :
    {E B : Type 0} (test : Bool) (why : E) (next : Unit → Result E B) {b : B}
    → reject_if test why >>= next ≡ ok b
    → (test ≡ false) × (next tt ≡ ok b)
check_passed true why next h = cc
check_passed false why next h = (refl, h)

pub value_found :
    {E A B : Type 0} (why : E) (o : Option A) (next : A → Result E B) {b : B}
    → ok_or why o >>= next ≡ ok b
    → (a : A) × (o ≡ some a) × (next a ≡ ok b)
value_found why none next h = cc
value_found why (some a) next h = (a, refl, h)

pub ok_inj : {E A : Type 0} {a b : A} → ◌≡◌ {A = Result E A} (ok a) (ok b) → a ≡ b
ok_inj h = cc
