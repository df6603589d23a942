-- ===== src/Prelude/Counts.antt =====
-- Sums over the entries of a map, and maps that hold the nonzero values of a count.
use Prim.Native.Nat.{ℕ, zero, suc, ◌+◌, ◌-◌, ◌≤◌, ◌<◌}
use mathlib.Core.Path.{◌≡◌, refl}
use mathlib.Core.Logic.{inl, inr}
use mathlib.Core.Bool.{Bool, true, false}
use mathlib.Core.Option.{Option, none, some}
use mathlib.Core.List.{List, [], ◌∷◌}
use native.Mathlib.Omega.{arith}
use vecton.Prelude.Tests.{Eq, if◌then◌else◌, Bool-cases}
use vecton.Prelude.Maps.{
  Map, get, insert, remove, Unique, get-insert, get-remove, insert-Unique, remove-Unique,
}

module _ {ℓ} {K V : Type ℓ} where
  -- The sum of a measure over all entries.
  unfoldable pub total : (K → V → ℕ) → Map K V → ℕ
  total f [] = 0
  total f ((k, v) ∷ m) = f k v + total f m

  abbrev pub worth : (K → V → ℕ) → K → Option V → ℕ
  worth f k none = 0
  worth f k (some v) = f k v

  -- len()
  unfoldable pub size : Map K V → ℕ
  size m = total (λ _ _. 1) m

module _ {ℓ} {K V : Type ℓ} ⦃e : Eq K⦄ where
  pub total-insert :
      (f : K → V → ℕ) (k : K) (v : V) (m : Map K V)
      → total f (insert k v m) + worth f k (get k m) ≡ total f m + f k v
  unfolding total get insert
  total-insert f k v [] = omega arith
  total-insert f k v ((j, w) ∷ m) = elim (Bool-cases (e.test j k)) [
    | inl hit ↦ rw (hit, (e.test_iff j k).0 hit) (omega arith)
    | inr miss ↦ rw miss (omega (arith, total-insert f k v m))
  ]

  pub total-remove :
      (f : K → V → ℕ) (k : K) (m : Map K V) → total f (remove k m) + worth f k (get k m) ≡ total f m
  unfolding total get remove
  total-remove f k [] = omega arith
  total-remove f k ((j, w) ∷ m) = elim (Bool-cases (e.test j k)) [
    | inl hit ↦ rw (hit, (e.test_iff j k).0 hit) (omega arith)
    | inr miss ↦ rw miss (omega (arith, total-remove f k m))
  ]

  pub worth-le-total : (f : K → V → ℕ) (k : K) (m : Map K V) → worth f k (get k m) ≤ total f m
  worth-le-total f k m = omega (arith, total-remove f k m)

-- A map of counts holds a key exactly while its count is not zero.
abbrev pub nonzero : ℕ → Option ℕ
nonzero zero = none
nonzero (suc n) = some (suc n)

abbrev pub or_zero : Option ℕ → ℕ
or_zero none = 0
or_zero (some n) = n

or_zero-nonzero : (n : ℕ) → or_zero (nonzero n) ≡ n
or_zero-nonzero zero = refl
or_zero-nonzero (suc n) = refl

abbrev pub is_empty {ℓ} : {A : Type ℓ} → List A → Bool
is_empty [] = true
is_empty (x ∷ xs) = false

module _ {ℓ} {K : Type ℓ} ⦃e : Eq K⦄ where
  abbrev pub at_key : K → K → ℕ
  at_key k j = if e.test k j then 1 else 0

module _ {K : Type 0} ⦃e : Eq K⦄ where
  -- *map.entry(k).or_default() += 1
  unfoldable pub bump : K → Map K ℕ → Map K ℕ
  bump k m = insert k (or_zero (get k m) + 1) m

  decrement_to : K → ℕ → Map K ℕ → Option (Map K ℕ)
  decrement_to k zero m = none
  decrement_to k (suc zero) m = some (remove k m)
  decrement_to k (suc (suc n)) m = some (insert k (suc n) m)

  -- get_mut(k).expect(..), count - 1, and remove(k) at zero; `none` is the panic.
  unfoldable pub decrement : K → Map K ℕ → Option (Map K ℕ)
  unfolding decrement_to
  decrement k m = decrement_to k (or_zero (get k m)) m

  pub record Counts (m : Map K ℕ) (c : K → ℕ) : Type 0 where
    pub unique : Unique m
    pub at : (j : K) → get j m ≡ nonzero (c j)

  pub Counts-ext : {m : Map K ℕ} {c d : K → ℕ} → ((j : K) → c j ≡ d j) → Counts m c → Counts m d
  Counts-ext same h = record { unique = h.unique; at = λ j. ground (arith, h.at j, same j) }

  pub Counts-or_zero : {m : Map K ℕ} {c : K → ℕ} → Counts m c → (k : K) → or_zero (get k m) ≡ c k
  Counts-or_zero {m} {c} h k = rw (h.at k) (or_zero-nonzero (c k))

  pub bump-Counts :
      {m : Map K ℕ} {c : K → ℕ} (k : K) → Counts m c → Counts (bump k m) (λ j. c j + at_key k j)
  unfolding bump
  bump-Counts {m} {c} k h = record {
    unique = insert-Unique k _ m h.unique;
    at = λ j.
        ground (arith, h.at j, h.at k, e.test_iff k j, get-insert k j (or_zero (get k m) + 1) m);
  }

  decrement_to-Counts :
      (n : ℕ) {m : Map K ℕ} {c : K → ℕ} (k : K)
      → Counts m c
      → c k ≡ suc n
      → (m' : Map K ℕ) × (decrement_to k (suc n) m ≡ some m') × Counts m' (λ j. c j - at_key k j)
  unfolding decrement_to
  decrement_to-Counts zero {m} {c} k h p = (
    remove k m,
    refl,
    record {
      unique = remove-Unique k m h.unique;
      at = λ j. ground (arith, h.at j, e.test_iff k j, get-remove k j m h.unique);
    },
  )
  decrement_to-Counts (suc n) {m} {c} k h p = (
    insert k (suc n) m,
    refl,
    record {
      unique = insert-Unique k _ m h.unique;
      at = λ j. ground (arith, h.at j, e.test_iff k j, get-insert k j (suc n) m);
    },
  )

  -- A decrement succeeds where the count is positive, and lowers it by one.
  pub decrement-Counts :
      {m : Map K ℕ} {c : K → ℕ} (k : K)
      → Counts m c
      → 0 < c k
      → (m' : Map K ℕ) × (decrement k m ≡ some m') × Counts m' (λ j. c j - at_key k j)
  unfolding decrement
  decrement-Counts {m} {c} k h p =
      let e0 : c k ≡ suc (c k - 1) = omega arith in
      let e1 : or_zero (get k m) ≡ suc (c k - 1) = omega (arith, Counts-or_zero h k) in
      rw e1 (decrement_to-Counts (c k - 1) k h e0)
