-- ===== src/Prelude/Indexes.antt =====
-- Maps that index the entries of another map by a key computed from each entry.
use mathlib.Core.Path.{◌≡◌}
use mathlib.Core.Logic.{inl, inr}
use mathlib.Core.Option.{Option, none, some}
use native.Mathlib.Omega.{arith}
use vecton.Prelude.Tests.{Eq, Bool-cases}
use vecton.Prelude.Maps.{
  Map, get, insert, remove, Unique, get-insert, get-remove, insert-Unique, remove-Unique,
}

module _ {J K V W : Type 0} ⦃e : Eq J⦄ ⦃f : Eq K⦄ (of : K → W) (key : K → V → Option J) where
  -- `index` holds exactly the keys of the entries of `m`, each with what `of` says.
  pub record Indexes (index : Map J W) (m : Map K V) : Type 0 where
    pub unique : Unique index
    pub sound :
        (j : J) (w : W)
        → get j index ≡ some w
        → (k : K) × (v : V) × (get k m ≡ some v) × (key k v ≡ some j) × (of k ≡ w)
    pub complete :
        (k : K) (v : V) (j : J) → get k m ≡ some v → key k v ≡ some j → get j index ≡ some (of k)

  pub Indexes-insert :
      {index : Map J W} {m : Map K V} (k : K) (v : V) (j : J)
      → get j index ≡ none
      → get k m ≡ none
      → key k v ≡ some j
      → Indexes index m
      → Indexes (insert j (of k) index) (insert k v m)
  Indexes-insert {index} {m} k v j free new at h = record {
    unique = insert-Unique j (of k) index h.unique;
    sound = λ i w g. elim (Bool-cases (e.test j i)) [
      | inl hit ↦ (
        k,
        v,
        ground (arith, get-insert k k v m, f.test_iff k k),
        ground (arith, e.test_iff j i),
        ground (arith, get-insert j i (of k) index),
      )
      | inr miss ↦
          let (k', v', found, at', w') =
            h.sound i w (ground (arith, get-insert j i (of k) index)) in
          (k', v', ground (arith, get-insert k k' v m, f.test_iff k k'), at', w')
    ];
    complete = λ k' v' i g at'. elim (Bool-cases (f.test k k')) [
      | inl hit ↦
          ground (
            arith,
            get-insert k k' v m,
            f.test_iff k k',
            get-insert j i (of k) index,
            e.test_iff j i,
          )
      | inr miss ↦
          let old = h.complete k' v' i (ground (arith, get-insert k k' v m)) at' in
          ground (arith, get-insert j i (of k) index, e.test_iff j i)
    ];
  }

  pub Indexes-insert_keyless :
      {index : Map J W} {m : Map K V} (k : K) (v : V)
      → get k m ≡ none
      → key k v ≡ none
      → Indexes index m
      → Indexes index (insert k v m)
  Indexes-insert_keyless {index} {m} k v new at h = record {
    unique = h.unique;
    sound = λ i w g.
        let (k', v', found, at', w') = h.sound i w g in
        (k', v', ground (arith, get-insert k k' v m, f.test_iff k k'), at', w');
    complete = λ k' v' i g at'. elim (Bool-cases (f.test k k')) [
      | inl hit ↦ absurd (ground (arith, get-insert k k' v m, f.test_iff k k'))
      | inr miss ↦ h.complete k' v' i (ground (arith, get-insert k k' v m)) at'
    ];
  }

  -- An entry is written again under the same key.
  pub Indexes-replace :
      {index : Map J W} {m : Map K V} (k : K) (v v' : V)
      → get k m ≡ some v
      → key k v' ≡ key k v
      → Indexes index m
      → Indexes index (insert k v' m)
  Indexes-replace {index} {m} k v v1 old same h = record {
    unique = h.unique;
    sound = λ i w g.
        let (k', v', found, at', w') = h.sound i w g in
        elim (Bool-cases (f.test k k')) [
          | inl hit ↦ (
            k,
            v1,
            ground (arith, get-insert k k v1 m, f.test_iff k k),
            ground (arith, f.test_iff k k'),
            ground (arith, f.test_iff k k'),
          )
          | inr miss ↦ (k', v', ground (arith, get-insert k k' v1 m), at', w')
        ];
    complete = λ k' v' i g at'. elim (Bool-cases (f.test k k')) [
      | inl hit ↦
          h.complete k' v i (ground (arith, f.test_iff k k'))
            (ground (arith, get-insert k k' v1 m, f.test_iff k k'))
      | inr miss ↦ h.complete k' v' i (ground (arith, get-insert k k' v1 m)) at'
    ];
  }

  pub Indexes-remove :
      {index : Map J W} {m : Map K V} (k : K) (v : V) (j : J)
      → Unique m
      → get k m ≡ some v
      → key k v ≡ some j
      → ((k' : K) (v' : V) → get k' m ≡ some v' → key k' v' ≡ some j → k ≡ k')
      → Indexes index m
      → Indexes (remove j index) (remove k m)
  Indexes-remove {index} {m} k v j u old at only h = record {
    unique = remove-Unique j index h.unique;
    sound = λ i w g.
        let (k', v', found, at', w') =
          h.sound i w (ground (arith, get-remove j i index h.unique)) in
        (
          k',
          v',
          ground (
            arith,
            get-remove k k' m u,
            f.test_iff k k',
            get-remove j i index h.unique,
            e.test_iff j i,
          ),
          at',
          w',
        );
    complete = λ k' v' i g at'.
        let found : get k' m ≡ some v' = ground (arith, get-remove k k' m u) in
        let was = h.complete k' v' i found at' in
        elim (Bool-cases (e.test j i)) [
          | inl hit ↦ absurd (
              ground
                (arith, get-remove k k' m u, f.test_iff k k', e.test_iff j i, only k' v' found))
          | inr miss ↦ ground (arith, get-remove j i index h.unique)
        ];
  }

  pub Indexes-remove_keyless :
      {index : Map J W} {m : Map K V} (k : K) (v : V)
      → Unique m
      → get k m ≡ some v
      → key k v ≡ none
      → Indexes index m
      → Indexes index (remove k m)
  Indexes-remove_keyless {index} {m} k v u old at h = record {
    unique = h.unique;
    sound = λ i w g.
        let (k', v', found, at', w') = h.sound i w g in
        (k', v', ground (arith, get-remove k k' m u, f.test_iff k k'), at', w');
    complete = λ k' v' i g at'. h.complete k' v' i (ground (arith, get-remove k k' m u)) at';
  }

  -- An entry is written again under another key.
  pub Indexes-move :
      {index : Map J W} {m : Map K V} (k : K) (v v' : V) (j j' : J)
      → get k m ≡ some v
      → key k v ≡ some j
      → key k v' ≡ some j'
      → ((k' : K) (u : V) → get k' m ≡ some u → key k' u ≡ some j → k ≡ k')
      → ((k' : K) (u : V) → get k' m ≡ some u → key k' u ≡ some j' → k ≡ k')
      → Indexes index m
      → Indexes (insert j' (of k) (remove j index)) (insert k v' m)
  Indexes-move {index} {m} k v v1 j j' old at at1 only only' h = record {
    unique = insert-Unique j' (of k) _ (remove-Unique j index h.unique);
    sound = λ i w g. elim (Bool-cases (e.test j' i)) [
      | inl hit ↦ (
        k,
        v1,
        ground (arith, get-insert k k v1 m, f.test_iff k k),
        ground (arith, e.test_iff j' i),
        ground (arith, get-insert j' i (of k) (remove j index)),
      )
      | inr miss ↦
          let (k', u, found, at', w') = h.sound i w (
            ground
              (arith, get-insert j' i (of k) (remove j index), get-remove j i index h.unique)) in
          (
            k',
            u,
            ground (
              arith,
              get-insert k k' v1 m,
              f.test_iff k k',
              get-insert j' i (of k) (remove j index),
              get-remove j i index h.unique,
              e.test_iff j i,
            ),
            at',
            w',
          )
    ];
    complete = λ k' u i g at'. elim (Bool-cases (f.test k k')) [
      | inl hit ↦ ground (
        arith,
        get-insert k k' v1 m,
        f.test_iff k k',
        get-insert j' i (of k) (remove j index),
        e.test_iff j' i,
      )
      | inr miss ↦
          let found : get k' m ≡ some u = ground (arith, get-insert k k' v1 m) in
          let was = h.complete k' u i found at' in
          ground (
            arith,
            get-insert j' i (of k) (remove j index),
            get-remove j i index h.unique,
            e.test_iff j i,
            e.test_iff j' i,
            f.test_iff k k',
            only k' u found,
            only' k' u found,
          )
    ];
  }
