-- ===== src/Namespace/Tree/Walks.antt =====
-- The loop of CreateDirectory along the components of its path
-- (beryl-metadata/src/raft/state_machine/namespace.rs).
use vecton.Prelude.{
  ℕ, ◌≡◌, ◌≤◌, ◌⊎◌, refl, sym, subst, ap, ◌∙◌, not, none, some, String, List, [], ◌∷◌, ◌++◌, nat_eq,
  string_eq, pair_eq, inl, inr, arith, Option-cases, checked_add, pair_eqb_iff,
}
use vecton.Prelude.Maps.{get, insert, get-insert}
use vecton.Prelude.Result.{ok, check_passed, value_found, ok_inj}
use vecton.Types.Values.{InodeId}
use vecton.Inode.{Inode, InodeAttrs, dir, initialize}
use vecton.Storage.{Store, is_dir}
use vecton.Storage.Batches.{create_batch, create_batches, RecursiveMkdirEntry}
use vecton.Namespace.{walk_components, touched, new_dir}
use vecton.Namespace.Tree.{Past, Dentries, Childless, IsForest, Since}
use vecton.Namespace.Tree.Commands.{grow, is_dir-dir}

-- The names of a path lead from one inode to another.
abbrev pub Leads : Dentries → InodeId → List String → InodeId → Type 0
Leads dentries k [] j = k ≡ j
Leads dentries k (n ∷ names) j =
    (c : InodeId) × (get (k, n) dentries ≡ some c) × Leads dentries c names j

-- No name is lost or moved.
abbrev pub Extends : Dentries → Dentries → Type 0
Extends dentries dentries' =
    (p : InodeId) (n : String) (c : InodeId)
    → get (p, n) dentries ≡ some c
    → get (p, n) dentries' ≡ some c

create_batches-snoc :
    (entries : List RecursiveMkdirEntry) (e : RecursiveMkdirEntry) (s : Store)
    → create_batches (entries ++ (e ∷ [])) s
      ≡ create_batch e.parent_inode_id e.name e.inode e.updated_parent (create_batches entries s)
unfolding create_batches
create_batches-snoc [] e s = refl
create_batches-snoc (d ∷ entries) e s =
    create_batches-snoc entries e (create_batch d.parent_inode_id d.name d.inode d.updated_parent s)

-- Where the loop stands: the batch so far keeps the invariant, and the directory at hand is one of
-- the store before anything is added, or a new one without entries.
pub record Stands (past : Past) (s w : Store) (first : InodeId) (parent : Inode) (next_raw : ℕ)
    (entries : List RecursiveMkdirEntry) : Type 0 where
  pub forest : IsForest past w.inodes w.dentries w.detached_roots w.mounts (some next_raw)
  pub directory : parent.kind ≡ dir
  pub here : Inode
  pub found : get parent.inode_id w.inodes ≡ some here
  pub kind : here.kind ≡ dir
  pub mount : here.mount_id ≡ parent.mount_id
  pub fresh :
      ((w ≡ s) × (entries ≡ []))
      ⊎ ((first ≤ parent.inode_id) × Childless w.dentries parent.inode_id)

abbrev entry_of : InodeAttrs → ℕ → Inode → ℕ → String → RecursiveMkdirEntry
entry_of attrs now parent next_raw name = record {
  parent_inode_id = parent.inode_id;
  name = name;
  inode = new_dir next_raw (initialize attrs now) parent.mount_id;
  updated_parent = touched parent now;
}

module _ {past : Past} (s : Store) (t : Since past s) (attrs : InodeAttrs) (now : ℕ) where
  -- The directory at hand has no such name in the batch if the store has none.
  free :
      (w : Store) (parent : Inode) (next_raw : ℕ) (entries : List RecursiveMkdirEntry) (n : String)
      → Stands past s w t.next parent next_raw entries
      → get (parent.inode_id, n) s.dentries ≡ none
      → get (parent.inode_id, n) w.dentries ≡ none
  free w parent next_raw entries n st none_there = elim st.fresh [
    | inl (same, _) ↦ ap (λ (x : Store). get (parent.inode_id, n) x.dentries) same ∙ none_there
    | inr (_, childless) ↦ childless n
  ]

  -- A round that adds a directory.
  added :
      (w : Store) (parent : Inode) (next_raw next' : ℕ) (entries : List RecursiveMkdirEntry)
      (n : String)
      → Stands past s w t.next parent next_raw entries
      → t.next ≤ next_raw
      → get (parent.inode_id, n) s.dentries ≡ none
      → checked_add next_raw 1 ≡ some next'
      → let e = entry_of attrs now parent next_raw n in
        let w' = create_batch e.parent_inode_id e.name e.inode e.updated_parent w in
        Stands past s w' t.next e.inode next' (entries ++ (e ∷ []))
        × Extends w.dentries w'.dentries
        × (get (parent.inode_id, n) w'.dentries ≡ some next_raw)
  unfolding create_batch touched
  added w parent next_raw next' entries n st beyond none_there sum =
      let i = new_dir next_raw (initialize attrs now) parent.mount_id in
      let gap = free w parent next_raw entries n st none_there in
      let id : next_raw ≡ st.forest.next = ground (arith, st.forest.next_is) in
      let bound = st.forest.key parent.inode_id st.here st.found in
      let f =
        grow st.forest parent.inode_id n st.here (touched parent now) i next' st.found st.kind
          (sym bound.0) (st.directory ∙ sym st.kind) (sym st.mount) gap id (sym st.mount)
          (ground (arith, sum, id)) (λ x e. cc) in
      (
        record {
          forest = f;
          directory = refl;
          here = i;
          found = ground (
            arith,
            get-insert (touched parent now).inode_id next_raw (touched parent now)
                (insert next_raw i w.inodes),
            get-insert next_raw next_raw i w.inodes,
            bound.1,
            id,
          );
          kind = refl;
          mount = refl;
          fresh = inr (
            beyond,
            λ m. elim (Option-cases (get (next_raw, m) w.dentries)) [
              | inl nothing ↦ ground (
                arith,
                get-insert (parent.inode_id, n) (next_raw, m) next_raw w.dentries,
                nothing,
                bound.1,
                id,
              )
              | inr (c, g) ↦
                  let j = st.forest.entry next_raw m c g in
                  absurd
                    (omega (arith, (st.forest.key next_raw j.parent.inode j.parent.found).1, id))
            ],
          );
        },
        (λ p m c g. ground (
          arith,
          get-insert (parent.inode_id, n) (p, m) next_raw w.dentries,
          g,
          gap,
          pair_eqb_iff (parent.inode_id, n) (p, m),
          λ (h : ◌≡◌ {A = InodeId × String} (parent.inode_id, n) (p, m)).
              ap (λ z. get z w.dentries) h,
        )),
        ground (
          arith,
          get-insert (parent.inode_id, n) (parent.inode_id, n) next_raw w.dentries,
          pair_eqb_iff (parent.inode_id, n) (parent.inode_id, n),
        ),
      )

  -- What the loop leaves: the path that it has walked leads to the directory at hand.
  abbrev Ends :
      List RecursiveMkdirEntry → Inode → List String → Inode × ℕ × List RecursiveMkdirEntry → Type 0
  Ends entries parent components (last, next', entries') =
      Stands past s (create_batches entries' s) t.next last next' entries'
      × Extends (create_batches entries s).dentries (create_batches entries' s).dentries
      × Leads (create_batches entries' s).dentries parent.inode_id components last.inode_id

  -- A round that finds a directory.
  passed :
      (w : Store) (parent child : Inode) (next_raw : ℕ) (entries : List RecursiveMkdirEntry)
      (n : String) (c : InodeId)
      → Stands past s w t.next parent next_raw entries
      → get (parent.inode_id, n) s.dentries ≡ some c
      → get c s.inodes ≡ some child
      → child.kind ≡ dir
      → Stands past s w t.next child next_raw entries
        × (child.inode_id ≡ c)
        × (get (parent.inode_id, n) w.dentries ≡ some c)
  passed w parent child next_raw entries n c st named found kind = elim st.fresh [
    | inr (beyond, _) ↦
        let j = t.entry parent.inode_id n c named in
        absurd (omega (arith, (t.key parent.inode_id j.parent.inode j.parent.found).1, beyond))
    | inl (same, none_yet) ↦
        let id = (t.key c child found).0 in
        (
          record {
            forest = st.forest;
            directory = kind;
            here = child;
            found =
                ap (λ (x : Store). get child.inode_id x.inodes) same
                ∙ ap (λ (x : InodeId). get x s.inodes) id
                ∙ found;
            kind = kind;
            mount = refl;
            fresh = inl (same, none_yet);
          },
          id,
          ap (λ (x : Store). get (parent.inode_id, n) x.dentries) same ∙ named,
        )
  ]

  pub walk_components-Ends :
      (components : List String) (entries : List RecursiveMkdirEntry) (parent : Inode)
      (next_raw : ℕ) {x : Inode × ℕ × List RecursiveMkdirEntry}
      → Stands past s (create_batches entries s) t.next parent next_raw entries
      → t.next ≤ next_raw
      → walk_components s attrs now parent next_raw entries components ≡ ok x
      → Ends entries parent components x
  unfolding walk_components
  walk_components-Ends [] entries parent next_raw {x} st beyond h =
      subst (Ends entries parent []) (ok_inj h) (st, (λ p n c g. g), refl)
  walk_components-Ends (n ∷ components) entries parent next_raw {x} st beyond h =
      elim (Option-cases (get (parent.inode_id, n) s.dentries)) [
        | inl nothing ↦
            let h0 = rw (walk_components, nothing) at h in
            let (next', sum, h1) = value_found _ (checked_add next_raw 1) _ h0 in
            let e = entry_of attrs now parent next_raw n in
            let (st', grows, named) =
              added (create_batches entries s) parent next_raw next' entries n st beyond nothing
                sum in
            let is = create_batches-snoc entries e s in
            let ends =
              walk_components-Ends components (entries ++ (e ∷ [])) e.inode next'
                (subst (λ w. Stands past s w t.next e.inode next' (entries ++ (e ∷ []))) (sym is)
                  st')
                (ground (arith, beyond, sum)) h1 in
            let wider : Extends (create_batches entries s).dentries
                (create_batches (entries ++ (e ∷ [])) s).dentries =
              subst (λ (w : Store). Extends (create_batches entries s).dentries w.dentries) (sym is)
                grows in
            (
              ends.0,
              (λ p m c g. ends.1 p m c (wider p m c g)),
              (
                next_raw,
                ends.1 parent.inode_id n next_raw
                    (ap (λ (w : Store). get (parent.inode_id, n) w.dentries) is ∙ named),
                ends.2,
              ),
            )
        | inr (c, named) ↦
            let h0 = rw (walk_components, named) at h in
            let (child, found, h1) = value_found _ (get c s.inodes) _ h0 in
            let (d, h2) = check_passed (not (is_dir child)) _ _ h1 in
            let (st', id, there) =
              passed (create_batches entries s) parent child next_raw entries n c st named found
                (is_dir-dir child (ground (arith, d))) in
            let ends = walk_components-Ends components entries child next_raw st' beyond h2 in
            (
              ends.0,
              ends.1,
              (
                c,
                ends.1 parent.inode_id n c there,
                subst (λ k. Leads (create_batches x.2 s).dentries k components x.0.inode_id) id
                    ends.2,
              ),
            )
      ]
