-- ===== src/Namespace/Tree/Deletes.antt =====
-- Which name a Delete takes away (beryl-metadata/src/raft/state_machine/namespace.rs).
use vecton.Prelude.{
  ℕ, ◌≡◌, refl, sym, subst, ap, ◌∙◌, Bool, not, ◌||◌, Option, none, some, String, List, [], ◌∷◌,
  nat_eq, string_eq, pair_eq, option_eq, inl, inr, arith, Bool-cases, eqb, eqb_iff, if◌then◌else◌,
  ◌==◌, pair_eqb, ltb, length, ◌-◌,
}
use vecton.Prelude.Maps.{get, remove, get-remove}
use vecton.Prelude.Checked.{is_some}
use vecton.Prelude.Result.{ok, >>=-eq-ok, check_passed, value_found, ok_inj}
use vecton.Types.Values.{InodeId, MountId, LeaseEpoch}
use vecton.Inode.{Inode}
use vecton.Storage.{Store, is_dir, get_dentry, is_directory_empty, get_layout_optional, list_mounts}
use vecton.Storage.Batches.{unlink_inode_atomic, detach_directory_atomic}
use vecton.Namespace.Paths.{
  validate_relative_components, add_lengths, target_path_bytes, target_path, max_path_bytes,
}
use vecton.Namespace.Delete.{
  apply_unlink, apply_delete_empty_dir, apply_detach_directory, apply_delete, resolve_delete_target,
  walk_to_target, check_file_authority, file_lease_epoch, find_mount, contains_mount, is_mount_root,
}
use vecton.Namespace.Tree.{IsNamespace}
use vecton.Namespace.Tree.Walks.{Leads}

-- The path leads to the target by the name that the walk returns.
record Aimed (s : Store) (k : InodeId) (components : List String) (p : InodeId) (n : String)
    (child : Inode) : Type 0 where
  leads : Leads s.dentries k components child.inode_id
  named : get (p, n) s.dentries ≡ some child.inode_id

walk-Aimed :
    (s : Store) (m : MountId) (i : Inode) (components : List String) (p : InodeId) (n : String)
    (child : Inode)
    → walk_to_target s m i components ≡ ok (p, n, child)
    → Aimed s i.inode_id components p n child
unfolding walk_to_target
walk-Aimed s m i [] p n child h = cc
walk-Aimed s m i (c ∷ []) p n child h =
    let (k, named, h1) = value_found _ (get_dentry s i.inode_id c) _ h in
    let (j, below, h2) = value_found _ (get k s.inodes) _ h1 in
    let (own, h3) = check_passed (not (eqb j.inode_id k)) _ _ h2 in
    let (_, h4) = check_passed (not (eqb j.mount_id m)) _ _ h3 in
    let (_, h5) = check_passed (is_mount_root k (list_mounts s.mounts)) _ _ h4 in
    let at : get (i.inode_id, c) s.dentries ≡ some j.inode_id =
      named ∙ ap some (sym ((eqb_iff j.inode_id k).0 (ground (arith, own)))) in
    subst (λ (x : InodeId × String × Inode). Aimed s i.inode_id (c ∷ []) x.0 x.1 x.2) (ok_inj h5)
      (record { leads = (j.inode_id, at, refl); named = at })
walk-Aimed s m i (c ∷ d ∷ components) p n child h =
    let (k, named, h1) = value_found _ (get_dentry s i.inode_id c) _ h in
    let (j, below, h2) = value_found _ (get k s.inodes) _ h1 in
    let (own, h3) = check_passed (not (eqb j.inode_id k)) _ _ h2 in
    let (_, h4) = check_passed (not (eqb j.mount_id m)) _ _ h3 in
    let (_, h5) = check_passed (not (is_dir j)) _ _ h4 in
    let at : get (i.inode_id, c) s.dentries ≡ some j.inode_id =
      named ∙ ap some (sym ((eqb_iff j.inode_id k).0 (ground (arith, own)))) in
    let rest = walk-Aimed s m j (d ∷ components) p n child h5 in
    record { leads = (j.inode_id, at, rest.leads); named = rest.named }

resolve-Aimed :
    (s : Store) (m : MountId) (epoch : ℕ) (root : InodeId) (components : List String) (p : InodeId)
    (n : String) (child : Inode)
    → resolve_delete_target s m epoch root components ≡ ok (p, n, child)
    → Aimed s root components p n child
unfolding resolve_delete_target
resolve-Aimed s m epoch root components p n child h =
    let (_, _, h1) = >>=-eq-ok (validate_relative_components components) _ h in
    let (e, _, h2) = value_found _ (find_mount m (list_mounts s.mounts)) _ h1 in
    let (_, h3) =
      check_passed (not (eqb e.mount_epoch epoch) || not (eqb e.root_inode_id root)) _ _ h2 in
    let (a, _, h4) = value_found _ (add_lengths (length components - 1) components) _ h3 in
    let (b, _, h5) = value_found _ (target_path_bytes e a) _ h4 in
    let (_, h6) = check_passed (ltb max_path_bytes b) _ _ h5 in
    let (_, h7) =
      check_passed (contains_mount m (target_path e components) (list_mounts s.mounts)) _ _ h6 in
    let (i, _, h8) = value_found _ (get root s.inodes) _ h7 in
    let (own, h9) = check_passed (not (eqb i.inode_id root)) _ _ h8 in
    let (_, h10) = check_passed (not (is_dir i)) _ _ h9 in
    let (_, h11) = check_passed (not (eqb i.mount_id m)) _ _ h10 in
    subst (λ x. Aimed s x components p n child) ((eqb_iff i.inode_id root).0 (ground (arith, own)))
      (walk-Aimed s m i components p n child h11)

unlink-dentries :
    (s s' : Store) (p : InodeId) (n : String) (now r : ℕ)
    → apply_unlink s p n now r ≡ ok s'
    → s'.dentries ≡ remove (p, n) s.dentries
unfolding apply_unlink unlink_inode_atomic
unlink-dentries s s' p n now r h =
    let (c, _, h1) = value_found _ (get_dentry s p n) _ h in
    let (child, _, h2) = value_found _ (get c s.inodes) _ h1 in
    let (_, h3) = check_passed (is_dir child) _ _ h2 in
    let (parent, _, h4) = value_found _ (get p s.inodes) _ h3 in
    let (_, _, h5) = >>=-eq-ok (check_file_authority s c child) _ h4 in
    ap (λ (x : Store). x.dentries) (sym (ok_inj h5))

empty_dir-dentries :
    (s s' : Store) (p : InodeId) (n : String) (now r : ℕ)
    → apply_delete_empty_dir s p n now r ≡ ok s'
    → s'.dentries ≡ remove (p, n) s.dentries
unfolding apply_delete_empty_dir unlink_inode_atomic
empty_dir-dentries s s' p n now r h =
    let (c, _, h1) = value_found _ (get_dentry s p n) _ h in
    let (child, _, h2) = value_found _ (get c s.inodes) _ h1 in
    let (_, h3) = check_passed (not (is_dir child)) _ _ h2 in
    let (b, _, h4) = >>=-eq-ok (is_directory_empty s c) _ h3 in
    let (_, h5) = check_passed (not b) _ _ h4 in
    let (parent, _, h6) = value_found _ (get p s.inodes) _ h5 in
    ap (λ (x : Store). x.dentries) (sym (ok_inj h6))

detach-dentries :
    (s s' : Store) (p : InodeId) (n : String) (root : InodeId) (now r : ℕ)
    → apply_detach_directory s p n root now r ≡ ok s'
    → s'.dentries ≡ remove (p, n) s.dentries
unfolding apply_detach_directory detach_directory_atomic
detach-dentries s s' p n root now r h =
    let (c, _, h1) = value_found _ (get_dentry s p n) _ h in
    let (_, h2) = check_passed (not (eqb c root)) _ _ h1 in
    let (inode, _, h3) = value_found _ (get root s.inodes) _ h2 in
    let (_, h4) = check_passed (not (is_dir inode)) _ _ h3 in
    let (layout, _, h5) =
      >>=-eq-ok (if eqb inode.inode_id root then get_layout_optional s root else ok none) _ h4 in
    let (_, h6) = check_passed (not (eqb inode.inode_id root) || is_some layout) _ _ h5 in
    let (_, h7) = check_passed (is_some (get root s.detached_roots)) _ _ h6 in
    let (parent, _, h8) = value_found _ (get p s.inodes) _ h7 in
    let (_, h9) = check_passed (not (is_dir parent)) _ _ h8 in
    let (_, h10) = check_passed (not (eqb parent.mount_id inode.mount_id)) _ _ h9 in
    ap (λ (x : Store). x.dentries) (sym (ok_inj h10))

-- What a Delete has done to the names.
pub record Deleted (s s' : Store) (root : InodeId) (components : List String) (expected : InodeId)
    : Type 0 where
  pub parent : InodeId
  pub name : String
  pub leads : Leads s.dentries root components expected
  pub named : get (parent, name) s.dentries ≡ some expected
  pub gone :
      (place : InodeId × String)
      → get place s'.dentries
        ≡ (if pair_eqb (parent, name) place then none else get place s.dentries)

-- A Delete that succeeds on a namespace, of a file, an empty directory or recursively, takes away
-- one name: its path led from the root that the command names to the expected inode, the name that
-- led to it is free, and every other name leads where it did.
pub apply_delete-Deleted :
    (s s' : Store) (m : MountId) (epoch : ℕ) (mount_root : InodeId) (components : List String)
    (expected : InodeId) (lease : Option LeaseEpoch) (recursive : Bool) (now r : ℕ)
    → apply_delete s m epoch mount_root components expected lease recursive now r ≡ ok s'
    → IsNamespace s
    → Deleted s s' mount_root components expected
unfolding apply_delete
apply_delete-Deleted s s' m epoch mount_root components expected lease recursive now r h t =
    let ((p, n, child), resolved, h1) =
      >>=-eq-ok (resolve_delete_target s m epoch mount_root components) _ h in
    let (same, h2) = check_passed (not (eqb child.inode_id expected)) _ _ h1 in
    let aimed = resolve-Aimed s m epoch mount_root components p n child resolved in
    let is : child.inode_id ≡ expected =
      (eqb_iff child.inode_id expected).0 (ground (arith, same)) in
    let left : s'.dentries ≡ remove (p, n) s.dentries = elim (Bool-cases (is_dir child)) [
      | inl directory ↦
          let h3 = rw directory at h2 in
          let (_, h4) = check_passed (is_some lease) _ _ h3 in
          elim (Bool-cases recursive) [
            | inl all ↦ detach-dentries s s' p n child.inode_id now r (rw all at h4)
            | inr only ↦ empty_dir-dentries s s' p n now r (rw only at h4)
          ]
      | inr other ↦
          let h3 = rw other at h2 in
          let (_, h4) = check_passed (not (file_lease_epoch child == lease)) _ _ h3 in
          unlink-dentries s s' p n now r h4
    ] in
    record {
      parent = p;
      name = n;
      leads = subst (Leads s.dentries mount_root components) is aimed.leads;
      named = subst (λ x. get (p, n) s.dentries ≡ some x) is aimed.named;
      gone = λ place. ap (get place) left ∙ get-remove (p, n) place s.dentries t.names_unique;
    }
