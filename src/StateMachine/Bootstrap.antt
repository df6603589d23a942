-- ===== src/StateMachine/Bootstrap.antt =====
-- What a bootstrap finds and writes (beryl-metadata/src/raft/state_machine/namespace.rs).
use vecton.Prelude.{
  ℕ, ◌≡◌, refl, sym, subst, ap, ◌⊎◌, inl, inr, none, some, [], arith, nat_eq, string_eq, pair_eq,
  Option-cases, option_eq,
}
use vecton.Prelude.Maps.{get, insert}
use vecton.Prelude.Result.{ok, >>=-eq-ok}
use vecton.Types.Values.{MountId}
use vecton.Types.Watermark.{GroupName}
use vecton.Inode.{Inode, initialize}
use vecton.Storage.{
  Store, MountEntry, BootstrapNamespaceState, bootstrap_namespace_state, namespace_has_any_state,
  empty, matching, conflicting, root_inode_id, matching_inode,
}
use vecton.Storage.Batches.{bootstrap_namespace_atomic, commit_applied_state, batch_put_inode}
use vecton.Namespace.{apply_bootstrap_namespace, new_dir, new_attrs, root_mount}
use vecton.Namespace.Tree.{Past, IsNamespace, Since, IsRoot}

-- A store before the first bootstrap.
pub record IsBlank (s : Store) : Type 0 where
  pub inodes : s.inodes ≡ []
  pub dentries : s.dentries ≡ []
  pub detached : s.detached_roots ≡ []
  pub mounts : s.mounts ≡ []
  pub next : s.next_inode_id ≡ none

-- The namespace of one directory.
root-Since :
    (s : Store) (g : GroupName) (now r : ℕ)
    → IsBlank s
    → IsNamespace (
        bootstrap_namespace_atomic s
          (new_dir root_inode_id (initialize new_attrs now) 1)
          (root_mount g)
          r)
unfolding bootstrap_namespace_atomic batch_put_inode initialize get insert
root-Since s g now r b =
    rw (b.inodes, b.dentries, b.detached, b.mounts)
      (record {
        next = 2;
        steady = record {
          grows = omega arith;
          kept = λ k o i f g. absurd (ground (arith, f));
          gone = λ k lt g. absurd (omega (arith, lt));
        };
        next_is = refl;
        unique = (refl, tt);
        names_unique = tt;
        key = λ k i f. (ground (arith, f), ground (arith, f));
        valid = λ k i f g is. absurd (ground (arith, g, is));
        entry = λ p n c f. absurd (ground (arith, f));
        single = λ p n q n' c f. absurd (ground (arith, f));
        detached_root = λ k d f. absurd (ground (arith, f));
        mounted = λ m e f.
            let at : m ≡ 1 = ground (arith, f) in
            let entry : e ≡ root_mount g = ground (arith, f) in
            subst
              (λ (x : MountId).
                IsRoot (insert 1 (new_dir root_inode_id (initialize new_attrs now) 1) []) [] [] x e)
              (sym at)
              (subst
                (λ (x : MountEntry).
                  IsRoot (insert 1 (new_dir root_inode_id (initialize new_attrs now) 1) []) [] [] 1
                    x)
                (sym entry)
                (record {
                  mount = refl;
                  directory = record {
                    inode = new_dir root_inode_id (initialize new_attrs now) 1;
                    found = refl;
                    kind = refl;
                    mount = refl;
                  };
                  unnamed = λ p n h. absurd (ground (arith, h));
                  attached = refl;
                }));
      })

-- A bootstrap sees a namespace by its allocator and by its root.
empty-next :
    (s : Store) (g : GroupName) → bootstrap_namespace_state s g ≡ ok empty → s.next_inode_id ≡ none
unfolding bootstrap_namespace_state namespace_has_any_state
empty-next s g h = elim (Option-cases s.next_inode_id) [
  | inl absent ↦ absent
  | inr (n, is) ↦
      let (occupied, x, h1) = >>=-eq-ok (namespace_has_any_state s) _ h in
      absurd (ground (arith, x, h1, is))
]

matching-root :
    (s : Store) (g : GroupName)
    → bootstrap_namespace_state s g ≡ ok matching
    → (i : Inode) × (get root_inode_id s.inodes ≡ some i)
unfolding bootstrap_namespace_state matching_inode
matching-root s g h =
    let (occupied, _, h1) = >>=-eq-ok (namespace_has_any_state s) _ h in
    elim (Option-cases (get root_inode_id s.inodes)) [
      | inl absent ↦ absurd (ground (arith, h1, absent))
      | inr found ↦ found
    ]

module _ (s s' : Store) (g : GroupName) (now r : ℕ) (e : MountEntry) where
  -- What a bootstrap does in each state that it finds.
  abbrev pub Done : Type 0
  Done =
      (e ≡ root_mount g)
      × (((bootstrap_namespace_state s g ≡ ok matching) × (commit_applied_state s r ≡ s'))
          ⊎ ((bootstrap_namespace_state s g ≡ ok empty)
              × (bootstrap_namespace_atomic s (new_dir root_inode_id (initialize new_attrs now) 1)
                    (root_mount g) r
                  ≡ s')))

  pub bootstrap_done : apply_bootstrap_namespace s g now r ≡ ok (s', e) → Done
  unfolding apply_bootstrap_namespace
  bootstrap_done h =
      let (state, found, _) = >>=-eq-ok (bootstrap_namespace_state s g) _ h in go state found
    where
      go : (state : BootstrapNamespaceState) → bootstrap_namespace_state s g ≡ ok state → Done
      go conflicting found = absurd (ground (arith, rw (apply_bootstrap_namespace, found) at h))
      go matching found =
          let x = rw (apply_bootstrap_namespace, found) at h in
          (ground (arith, x), inl (found, ground (arith, x)))
      go empty found =
          let x = rw (apply_bootstrap_namespace, found) at h in
          (ground (arith, x), inr (found, ground (arith, x)))

  -- A bootstrap of a namespace that is there changes nothing in it.
  pub bootstrap-Since :
      {past : Past}
      → apply_bootstrap_namespace s g now r ≡ ok (s', e)
      → Since past s
      → Since past s'
  unfolding commit_applied_state
  bootstrap-Since h t = elim (bootstrap_done h).1 [
    | inl (_, at) ↦ subst (Since _) at t
    | inr (found, _) ↦ absurd (ground (arith, empty-next s g found, t.next_is))
  ]

  pub bootstrap_blank-Since :
      apply_bootstrap_namespace s g now r ≡ ok (s', e) → IsBlank s → IsNamespace s'
  unfolding get
  bootstrap_blank-Since h b = elim (bootstrap_done h).1 [
    | inl (found, _) ↦
        let (i, there) = matching-root s g found in
        let gone : get root_inode_id s.inodes ≡ none = ap (get root_inode_id) b.inodes in
        absurd (ground (arith, there, gone))
    | inr (_, at) ↦ subst (Since _) at (root-Since s g now r b)
  ]
