-- ===== src/Namespace/Tree/Growth.antt =====
-- Paths in a store to which a file has been added
-- (beryl-metadata/src/raft/state_machine/namespace.rs).
use vecton.Prelude.{
  ℕ, ◌≡◌, refl, sym, ap, ◌∙◌, false, not, some, String, List, [], ◌∷◌, nat_eq, string_eq, pair_eq,
  list_eq, option_eq, inl, inr, arith, Bool-cases, eqb, eqb_iff, ◌||◌, pair_eqb, pair_eqb_iff,
}
use vecton.Prelude.Maps.{get, insert, get-insert}
use vecton.Prelude.Result.{ok, >>=-eq-ok, check_passed, value_found}
use vecton.Types.Values.{InodeId, MountId}
use vecton.Inode.{Inode, initialize}
use vecton.Registry.{operation_eq}
use vecton.Storage.{Store, MountEntry, CreateFileReplayRecord, is_dir, get_dentry}
use vecton.Namespace.{touched}
use vecton.Namespace.Create.{CreateFileRequest, leased, resolve_create_parent, walk_to_parent}
use vecton.Namespace.Paths.{validate_relative_components}
use vecton.Namespace.Tree.{nothing_past, IsNamespace}
use vecton.Namespace.Tree.Files.{resolve_create_parent-directory}
use vecton.Namespace.Tree.Creates.{Created}

-- A store in which every inode and every name is still there.
pub record Grown (s s' : Store) : Type 0 where
  inode :
      (k : InodeId) (i : Inode)
      → get k s.inodes ≡ some i
      → (i' : Inode) × (get k s'.inodes ≡ some i')
        × (i'.inode_id ≡ i.inode_id)
        × (i'.kind ≡ i.kind)
        × (i'.mount_id ≡ i.mount_id)
  name :
      (p : InodeId) (n : String) (c : InodeId)
      → get (p, n) s.dentries ≡ some c
      → get (p, n) s'.dentries ≡ some c
  mounts : s'.mounts ≡ s.mounts

walk-Grown :
    (s s' : Store) (m : MountId) (i i' : Inode) (components : List String) (p : InodeId)
    (n : String) (parent : Inode)
    → Grown s s'
    → i'.inode_id ≡ i.inode_id
    → walk_to_parent s m i components ≡ ok (p, n, parent)
    → (parent' : Inode) × (walk_to_parent s' m i' components ≡ ok (p, n, parent'))
unfolding walk_to_parent
walk-Grown s s' m i i' [] p n parent g same h = cc
walk-Grown s s' m i i' (c ∷ []) p n parent g same h = (i', ground (arith, same, h))
walk-Grown s s' m i i' (c ∷ d ∷ components) p n parent g same h =
    let (k, named, h1) = value_found _ (get_dentry s i.inode_id c) _ h in
    let (j, below, h2) = value_found _ (get k s.inodes) _ h1 in
    let (own, h3) = check_passed (not (eqb j.inode_id k) || not (eqb j.mount_id m)) _ _ h2 in
    let (directory, h4) = check_passed (not (is_dir j)) _ _ h3 in
    let (j', below', id, kind, mount) = g.inode k j below in
    let (parent', rest) = walk-Grown s s' m j j' (d ∷ components) p n parent g id h4 in
    let named' : get_dentry s' i'.inode_id c ≡ some k =
      ap (λ x. get_dentry s' x c) same ∙ g.name i.inode_id c k named in
    let own' : (not (eqb j'.inode_id k) || not (eqb j'.mount_id m)) ≡ false = rw (id, mount) own in
    let directory' : not (is_dir j') ≡ false = rw kind directory in
    (parent', rw (named', below', own', directory') rest)

resolves :
    (s : Store) (m : MountId) (epoch : ℕ) (root : InodeId) (components : List String)
    (e : MountEntry) (i : Inode) (x : InodeId × String × Inode) (u : Unit)
    → validate_relative_components components ≡ ok u
    → get m s.mounts ≡ some e
    → (not (eqb e.mount_epoch epoch) || not (eqb e.root_inode_id root)) ≡ false
    → get root s.inodes ≡ some i
    → (not (eqb i.inode_id root) || not (eqb i.mount_id m) || not (is_dir i)) ≡ false
    → walk_to_parent s m i components ≡ ok x
    → resolve_create_parent s m epoch root components ≡ ok x
unfolding resolve_create_parent
resolves s m epoch root components e i x u valid mounted epochs found own rest =
    rw (valid, mounted, epochs, found, own) rest

pub resolve-Grown :
    (s s' : Store) (m : MountId) (epoch : ℕ) (root : InodeId) (components : List String)
    (p : InodeId) (n : String) (parent : Inode)
    → Grown s s'
    → resolve_create_parent s m epoch root components ≡ ok (p, n, parent)
    → (parent' : Inode) × (resolve_create_parent s' m epoch root components ≡ ok (p, n, parent'))
unfolding resolve_create_parent
resolve-Grown s s' m epoch root components p n parent g h =
    let (_, valid, h1) = >>=-eq-ok (validate_relative_components components) _ h in
    let (e, mounted, h2) = value_found _ (get m s.mounts) _ h1 in
    let (epochs, h3) =
      check_passed (not (eqb e.mount_epoch epoch) || not (eqb e.root_inode_id root)) _ _ h2 in
    let (i, found, h4) = value_found _ (get root s.inodes) _ h3 in
    let (own, h5) =
      check_passed (not (eqb i.inode_id root) || not (eqb i.mount_id m) || not (is_dir i)) _ _ h4 in
    let (i', found', id, kind, mount) = g.inode root i found in
    let (parent', rest) = walk-Grown s s' m i i' components p n parent g id h5 in
    let mounted' : get m s'.mounts ≡ some e = ap (get m) g.mounts ∙ mounted in
    let own' : (not (eqb i'.inode_id root) || not (eqb i'.mount_id m) || not (is_dir i')) ≡ false =
      rw (id, mount, kind) own in
    (
      parent',
      resolves s' m epoch root components e i' (p, n, parent') _ valid mounted' epochs found' own'
          rest,
    )

pub Created-Grown :
    (s s' : Store) (q : CreateFileRequest) (now : ℕ) (r : CreateFileReplayRecord)
    → IsNamespace s
    → Created nothing_past s s' q now r
    → Grown s s'
unfolding touched
Created-Grown s s' q now r t c = record {
  inode = λ k i found.
      let (there, _, _) =
        resolve_create_parent-directory s q.mount_id q.expected_mount_epoch q.mount_root_inode_id
          q.relative_components r.parent_inode_id r.name c.parent c.resolved in
      let new = leased c.next (initialize q.attrs now) c.parent.mount_id q.layout in
      let at = (t.key r.parent_inode_id c.parent there).0 in
      let seen =
        ap (get k) c.inodes
        ∙ get-insert c.parent.inode_id k (touched c.parent now) (insert c.next new s.inodes) in
      elim (Bool-cases (eqb c.parent.inode_id k)) [
        | inl hit ↦
            let same : c.parent ≡ i = ground (
              arith,
              there,
              found,
              ap (λ x. get x s.inodes) (sym at ∙ (eqb_iff c.parent.inode_id k).0 hit),
            ) in
            (
              touched c.parent now,
              seen ∙ rw hit refl,
              ap (λ (x : Inode). x.inode_id) same,
              ap (λ (x : Inode). x.kind) same,
              ap (λ (x : Inode). x.mount_id) same,
            )
        | inr miss ↦
            let apart : eqb c.next k ≡ false =
              ground (arith, t.next_is, c.next_is, (t.key k i found).1) in
            (
              i,
              seen ∙ rw miss (get-insert c.next k new s.inodes ∙ rw apart found),
              refl,
              refl,
              refl,
            )
      ];
  name = λ p n k named.
      ap (get (p, n)) c.dentries
      ∙ get-insert (r.parent_inode_id, r.name) (p, n) c.next s.dentries
      ∙ (elim (Bool-cases (pair_eqb (r.parent_inode_id, r.name) (p, n))) [
        | inl hit ↦ absurd (
            ground (
              arith,
              c.free,
              named,
              ap (λ x. get x s.dentries) ((pair_eqb_iff (r.parent_inode_id, r.name) (p, n)).0 hit),
            ))
        | inr miss ↦ rw miss named
      ]);
  mounts = c.mounts;
}
