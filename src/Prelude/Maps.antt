-- ===== src/Prelude/Maps.antt =====
-- Maps as association lists, for HashMap, BTreeMap and, with `Unit` for the values, the sets.
-- `insert` writes the first entry of a key and `remove` drops it; `Unique` says that no key stands
-- twice, as in a Rust map. A sum over the entries gives the sizes and counts that indexes cache.
use mathlib.Core.Path.{◌≡◌, refl}
use mathlib.Core.Bool.{false}
use mathlib.Core.Option.{Option, none, some}
use mathlib.Core.List.{List, [], ◌∷◌}
use native.Mathlib.Omega.{arith}
use vecton.Prelude.Tests.{Eq, test_refl, if◌then◌else◌}

abbrev pub Map {ℓ} : Type ℓ → Type ℓ → Type ℓ
Map K V = List (K × V)

module _ {ℓ} {K V : Type ℓ} ⦃e : Eq K⦄ where
  unfoldable pub get : K → Map K V → Option V
  get k [] = none
  get k ((j, v) ∷ m) = if e.test j k then some v else get k m

  unfoldable pub insert : K → V → Map K V → Map K V
  insert k v [] = (k, v) ∷ []
  insert k v ((j, w) ∷ m) = if e.test j k then (j, v) ∷ m else (j, w) ∷ insert k v m

  unfoldable pub remove : K → Map K V → Map K V
  remove k [] = []
  remove k ((j, w) ∷ m) = if e.test j k then m else (j, w) ∷ remove k m

  abbrev pub Unique : Map K V → Type ℓ
  Unique [] = Unit
  Unique ((j, v) ∷ m) = (get j m ≡ none) × Unique m

  pub get-insert :
      (k j : K) (v : V) (m : Map K V)
      → get j (insert k v m) ≡ (if e.test k j then some v else get j m)
  unfolding get insert
  get-insert k j v [] = refl
  get-insert k j v ((i, w) ∷ m) =
      ground (arith, e.test_iff k j, e.test_iff i k, e.test_iff i j, get-insert k j v m)

  pub get-insert_self : (k : K) (v : V) (m : Map K V) → get k (insert k v m) ≡ some v
  get-insert_self k v m = ground (arith, get-insert k k v m, test_refl k)

  pub insert-Unique : (k : K) (v : V) (m : Map K V) → Unique m → Unique (insert k v m)
  unfolding get insert
  insert-Unique k v [] u = (refl, tt)
  insert-Unique k v ((i, w) ∷ m) u =
      ground (arith, get-insert k i v m, e.test_iff i k, e.test_iff k i, insert-Unique k v m u.1)

  pub get-remove_ne : (k j : K) (m : Map K V) → e.test k j ≡ false → get j (remove k m) ≡ get j m
  unfolding get remove
  get-remove_ne k j [] h = refl
  get-remove_ne k j ((i, w) ∷ m) h =
      ground (arith, e.test_iff k j, e.test_iff i k, e.test_iff i j, get-remove_ne k j m h)

  pub get-remove_self : (k : K) (m : Map K V) → Unique m → get k (remove k m) ≡ none
  unfolding get remove
  get-remove_self k [] u = refl
  get-remove_self k ((i, w) ∷ m) u = ground (arith, e.test_iff i k, get-remove_self k m u.1, u.0)

  pub get-remove :
      (k j : K) (m : Map K V)
      → Unique m
      → get j (remove k m) ≡ (if e.test k j then none else get j m)
  get-remove k j m u = ground (arith, e.test_iff k j, get-remove_ne k j m, get-remove_self k m u)

  pub remove-Unique : (k : K) (m : Map K V) → Unique m → Unique (remove k m)
  unfolding get remove
  remove-Unique k [] u = tt
  remove-Unique k ((i, w) ∷ m) u =
      ground (arith, e.test_iff i k, e.test_iff k i, remove-Unique k m u.1, get-remove_ne k i m)
