-- ===== src/StateMachine/Guarantees.antt =====
-- What the routing table may rely on when a command is applied
-- (beryl-metadata/src/raft/state_machine/mod.rs).
use vecton.Prelude.{
  ℕ, ◌≡◌, refl, sym, subst, arith, inl, inr, ap, ◌∙◌, true, nat_eq, [], ◌∷◌, Map, some, none,
  string_eq, option_eqb_iff, eqb_iff,
}
use vecton.Prelude.Result.{Result, ok, err, panic, ◌>>=◌, >>=-eq-ok}
use vecton.Prelude.Maps.{get, get-insert_self}
use vecton.Types.Values.{MountId}
use vecton.Types.Watermark.{GroupName}
use vecton.MetadataError.{MetadataError}
use vecton.Storage.{
  Store, MountEntry, list_mounts, matching_mount, bootstrap_namespace_state,
  namespace_has_any_state, matching, root_mount_prefix,
}
use vecton.Namespace.{root_mount, apply_bootstrap_namespace}
use vecton.Namespace.Tree.{IsNamespace}
use vecton.StateMachine.Bootstrap.{bootstrap_done}
use vecton.Storage.Batches.{commit_applied_state, bootstrap_namespace_atomic}
use vecton.Apply.{from_metadata_error}
use vecton.StateMachine.{
  Command, bootstrap_namespace, create_directory, create_file, delete, rename, on_file,
  ApplySuccess, CommittedApply, success, unchanged, upserted, routing_intent, keep, delta,
  mount_upserted, apply_command, apply_committed, respond,
}

-- The mount of a bootstrap that finds its own namespace.
matching_mount-root :
    (g : GroupName) (mounts : Map MountId MountEntry)
    → matching_mount g (list_mounts mounts) ≡ true
    → (k : MountId) × (mounts ≡ (k, root_mount g) ∷ [])
unfolding matching_mount list_mounts
matching_mount-root g [] h = cc
matching_mount-root g ((k, e) ∷ []) h =
    let is : e ≡ root_mount g = ground (
      arith,
      h,
      string_eq.test_iff e.mount_prefix root_mount_prefix,
      string_eq.test_iff e.namespace_owner_group_name g,
      option_eqb_iff e.ufs_uri none,
    ) in
    (k, ap (λ (x : MountEntry). (k, x) ∷ []) is)
matching_mount-root g ((k, e) ∷ (_, d) ∷ mounts) h = absurd (ground (arith, h))

matching_state-mount :
    (s : Store) (g : GroupName)
    → bootstrap_namespace_state s g ≡ ok matching
    → matching_mount g (list_mounts s.mounts) ≡ true
unfolding bootstrap_namespace_state
matching_state-mount s g h =
    let (occupied, _, h1) = >>=-eq-ok (namespace_has_any_state s) _ h in ground (arith, h1)

only_mount :
    (k : MountId) (e : MountEntry) (mounts : Map MountId MountEntry)
    → mounts ≡ (k, e) ∷ []
    → get k mounts ≡ some e
unfolding get
only_mount k e mounts only = ap (get k) only ∙ ground (arith, eqb_iff k k)

bootstrap-mount :
    (s s' : Store) (g : GroupName) (now r : ℕ) (e : MountEntry)
    → apply_bootstrap_namespace s g now r ≡ ok (s', e)
    → IsNamespace s
    → get e.mount_id s'.mounts ≡ some e
unfolding bootstrap_namespace_atomic commit_applied_state
bootstrap-mount s s' g now r e h t =
    let (is, done) = bootstrap_done s s' g now r e h in
    subst (λ (x : MountEntry). get x.mount_id s'.mounts ≡ some x) (sym is)
      (elim done [
        | inl (found, at) ↦
            let (k, only) = matching_mount-root g s.mounts (matching_state-mount s g found) in
            let there = only_mount k (root_mount g) s.mounts only in
            subst (λ (x : Store). get 1 x.mounts ≡ some (root_mount g)) at
              (subst (λ x. get x s.mounts ≡ some (root_mount g))
                (sym (t.mounted k (root_mount g) there).mount) there)
        | inr (found, at) ↦
            subst (λ (x : Store). get 1 x.mounts ≡ some (root_mount g)) at
              (get-insert_self 1 (root_mount g) s.mounts)
      ])

kept_routing :
    (s s' : Store) (c : Command) (r : ℕ) (a : CommittedApply)
    (m : Result MetadataError (Store × ApplySuccess))
    → routing_intent c ≡ keep
    → respond s c r m ≡ ok (s', a)
    → a.routing_delta ≡ unchanged
unfolding respond delta
kept_routing s s' c r a (ok (s1, b)) k q = ground (arith, q, k)
kept_routing s s' c r a (err y) k q =
    let (z, _, q1) = >>=-eq-ok (from_metadata_error y) _ q in ground (arith, q1, k)
kept_routing s s' c r a panic k q = cc

-- From a namespace, a committed command publishes to the routing only a mount that its success
-- names and that the store then holds under its identity.
pub delta-stored :
    (s s' : Store) (c : Command) (r : ℕ) (a : CommittedApply) (m : MountEntry)
    → IsNamespace s
    → apply_committed s c r ≡ ok (s', a)
    → a.routing_delta ≡ upserted m
    → (a.response ≡ success (mount_upserted m)) × (get m.mount_id s'.mounts ≡ some m)
unfolding apply_committed respond delta apply_command
delta-stored s s' (bootstrap_namespace now g) r a m t h is =
    go (apply_bootstrap_namespace s g now r) refl h
  where
    go :
        (x : Result MetadataError (Store × MountEntry))
        → apply_bootstrap_namespace s g now r ≡ x
        → respond s (bootstrap_namespace now g) r (do (s1, e) ← x; ok (s1, mount_upserted e))
          ≡ ok (s', a)
        → (a.response ≡ success (mount_upserted m)) × (get m.mount_id s'.mounts ≡ some m)
    go (ok (s1, e)) found q =
        let at : s1 ≡ s' = ground (arith, q) in
        let same : e ≡ m = ground (arith, q, is) in
        (
          ground (arith, q, is),
          subst (λ (x : Store). get m.mount_id x.mounts ≡ some m) at
              (subst (λ (x : MountEntry). get x.mount_id s1.mounts ≡ some x) same
                (bootstrap-mount s s1 g now r e found t)),
        )
    go (err y) found q =
        let (z, _, q1) = >>=-eq-ok (from_metadata_error y) _ q in absurd (ground (arith, q1, is))
    go panic found q = cc
delta-stored s s' (create_directory now root components attrs recursive) r a m t h is = absurd (
    ground (
      arith,
      kept_routing s s' (create_directory now root components attrs recursive) r a _ refl h,
      is,
    ))
delta-stored s s' (create_file now q) r a m t h is =
    absurd (ground (arith, kept_routing s s' (create_file now q) r a _ refl h, is))
delta-stored s s' (delete now q) r a m t h is =
    absurd (ground (arith, kept_routing s s' (delete now q) r a _ refl h, is))
delta-stored s s' (rename now q) r a m t h is =
    absurd (ground (arith, kept_routing s s' (rename now q) r a _ refl h, is))
delta-stored s s' (on_file c) r a m t h is =
    absurd (ground (arith, kept_routing s s' (on_file c) r a _ refl h, is))
