-- ===== src/Namespace/Tree/Removals.antt =====
-- The commands that remove a name keep the invariant of the namespace
-- (beryl-metadata/src/raft/state_machine/namespace.rs).
use vecton.Prelude.{
  ℕ, ◌≡◌, refl, sym, subst, ap, ◌∙◌, Bool, false, not, ◌||◌, Option, none, some, String, List, [],
  ◌∷◌, Map, nat_eq, string_eq, pair_eq, inl, inr, arith, Bool-cases, Option-cases, eqb, eqb_iff,
  if◌then◌else◌, ◌==◌, option_eq,
}
use vecton.Prelude.Maps.{get, insert, remove, get-insert, get-remove}
use vecton.Prelude.Checked.{is_some}
use vecton.Prelude.Result.{ok, >>=-eq-ok, check_passed, value_found, ok_inj}
use vecton.Types.Values.{InodeId, MountId, LeaseEpoch}
use vecton.Inode.{Inode}
use vecton.Storage.{
  Store, MountEntry, DetachedRoot, is_dir, get_dentry, has_entry, is_directory_empty,
  get_layout_optional,
}
use vecton.Storage.Batches.{unlink_inode_atomic, detach_directory_atomic}
use vecton.Namespace.{touched}
use vecton.Namespace.Delete.{
  apply_unlink, apply_delete_empty_dir, apply_detach_directory, apply_delete, resolve_delete_target,
  check_file_authority, file_lease_epoch,
}
use vecton.Namespace.Tree.{Past, Inodes, Dentries, HasDir, Childless, IsForest, Since}
use vecton.Namespace.Tree.Changes.{touch, discard}
use vecton.Namespace.Tree.Names.{unname, unname-Unnamed, named_no_root, mark}
use vecton.Namespace.Tree.Commands.{is_dir-dir}

pub has_entry-Childless :
    (c : InodeId) (dentries : Dentries) → has_entry c dentries ≡ false → Childless dentries c
unfolding has_entry get
has_entry-Childless c [] h n = refl
has_entry-Childless c (((p, m), k) ∷ dentries) h n =
    ground (arith, has_entry-Childless c dentries (ground (arith, h)) n)

pub is_directory_empty-Childless :
    (s : Store) (c : InodeId) (b : Bool)
    → is_directory_empty s c ≡ ok b
    → not b ≡ false
    → Childless s.dentries c
unfolding is_directory_empty
is_directory_empty-Childless s c b h yes_empty =
    let (_, h1) = check_passed (is_some (get_dentry s c "")) _ _ h in
    has_entry-Childless c s.dentries (ground (arith, ok_inj h1, yes_empty))

module _ {past : Past} {inodes : Inodes} {dentries : Dentries} {detached : Map InodeId DetachedRoot}
    {mounts : Map MountId MountEntry} {next_inode_id : Option InodeId}
    (t : IsForest past inodes dentries detached mounts next_inode_id) where
  pub file-Childless :
      (c : InodeId) (i : Inode) → get c inodes ≡ some i → is_dir i ≡ false → Childless dentries c
  file-Childless c i found kind n = elim (Option-cases (get (c, n) dentries)) [
    | inl nothing ↦ nothing
    | inr (k, g) ↦
        let j = t.entry c n k g in
        absurd (ground (arith, found, j.parent.found, kind, j.parent.kind))
  ]

  -- A directory stays one where the time of a directory changes.
  pub dir-touched :
      (p : InodeId) (parent parent' : Inode) (k : InodeId) (m : MountId)
      → get p inodes ≡ some parent
      → parent'.inode_id ≡ parent.inode_id
      → parent'.kind ≡ parent.kind
      → parent'.mount_id ≡ parent.mount_id
      → HasDir inodes k m
      → HasDir (insert parent'.inode_id parent' inodes) k m
  dir-touched p parent parent' k m found id kind mount d =
      let at : parent'.inode_id ≡ p = id ∙ (t.key p parent found).0 in
      elim (Bool-cases (eqb parent'.inode_id k)) [
        | inr other ↦ record {
          inode = d.inode;
          found = get-insert parent'.inode_id k parent' inodes ∙ rw other (d.found);
          kind = d.kind;
          mount = d.mount;
        }
        | inl hit ↦
            let here : p ≡ k = sym at ∙ (eqb_iff parent'.inode_id k).0 hit in
            let same : parent ≡ d.inode =
              ground (arith, found, d.found, ap (λ (x : InodeId). get x inodes) here) in
            record {
              inode = parent';
              found = get-insert parent'.inode_id k parent' inodes ∙ rw hit;
              kind = kind ∙ ap (λ (x : Inode). x.kind) same ∙ d.kind;
              mount = mount ∙ ap (λ (x : Inode). x.mount_id) same ∙ d.mount;
            }
      ]

  -- The loss of a name and of the inode under it.
  pub shed :
      (p : InodeId) (n : String) (c : InodeId)
      → get (p, n) dentries ≡ some c
      → Childless dentries c
      → IsForest past (remove c inodes) (remove (p, n) dentries) detached mounts next_inode_id
  shed p n c named childless =
      discard (unname t (p, n)) c (unname-Unnamed t p n c named)
        (λ m. ground (arith, get-remove (p, n) (c, m) dentries t.names_unique, childless m))
        (t.entry p n c named).attached (named_no_root t p n c named)

  -- The directory of a name is not the inode under it, if that has no entries.
  pub parent_apart :
      (p : InodeId) (n : String) (c : InodeId)
      → get (p, n) dentries ≡ some c
      → Childless dentries c
      → eqb c p ≡ false
  parent_apart p n c named childless = elim (Bool-cases (eqb c p)) [
    | inr other ↦ other
    | inl hit ↦ absurd (
        ground (
          arith,
          named,
          childless n,
          ap (λ (x : InodeId). get (x, n) dentries) ((eqb_iff c p).0 hit),
        ))
  ]

  pub prune :
      (p : InodeId) (n : String) (c : InodeId) (parent parent' : Inode)
      → get (p, n) dentries ≡ some c
      → Childless dentries c
      → get p inodes ≡ some parent
      → parent'.inode_id ≡ parent.inode_id
      → parent'.kind ≡ parent.kind
      → parent'.mount_id ≡ parent.mount_id
      → IsForest past
          (insert parent'.inode_id parent' (remove c inodes))
          (remove (p, n) dentries)
          detached
          mounts
          next_inode_id
  prune p n c parent parent' named childless found id kind mount =
      touch (shed p n c named childless) p parent parent'
        (get-remove c p inodes t.unique ∙ rw (parent_apart p n c named childless) found) id kind
        mount

pub unlink-Since :
    {past : Past} (s s' : Store) (p : InodeId) (n : String) (now r : ℕ)
    → apply_unlink s p n now r ≡ ok s'
    → Since past s
    → Since past s'
unfolding apply_unlink unlink_inode_atomic touched
unlink-Since s s' p n now r h t =
    let (c, named, h1) = value_found _ (get_dentry s p n) _ h in
    let (child, found, h2) = value_found _ (get c s.inodes) _ h1 in
    let (kind, h3) = check_passed (is_dir child) _ _ h2 in
    let (parent, above, h4) = value_found _ (get p s.inodes) _ h3 in
    let (_, _, h5) = >>=-eq-ok (check_file_authority s c child) _ h4 in
    subst (Since _) (ok_inj h5) (
      prune t p n c parent (touched parent now) named (file-Childless t c child found kind) above
        refl refl refl)

pub delete_empty_dir-Since :
    {past : Past} (s s' : Store) (p : InodeId) (n : String) (now r : ℕ)
    → apply_delete_empty_dir s p n now r ≡ ok s'
    → Since past s
    → Since past s'
unfolding apply_delete_empty_dir unlink_inode_atomic touched
delete_empty_dir-Since s s' p n now r h t =
    let (c, named, h1) = value_found _ (get_dentry s p n) _ h in
    let (child, _, h2) = value_found _ (get c s.inodes) _ h1 in
    let (_, h3) = check_passed (not (is_dir child)) _ _ h2 in
    let (b, nothing, h4) = >>=-eq-ok (is_directory_empty s c) _ h3 in
    let (yes_empty, h5) = check_passed (not b) _ _ h4 in
    let (parent, above, h6) = value_found _ (get p s.inodes) _ h5 in
    subst (Since _) (ok_inj h6) (
      prune t p n c parent (touched parent now) named
        (is_directory_empty-Childless s c b nothing yes_empty) above refl refl refl)

pub detach-Since :
    {past : Past} (s s' : Store) (p : InodeId) (n : String) (root : InodeId) (now r : ℕ)
    → apply_detach_directory s p n root now r ≡ ok s'
    → Since past s
    → Since past s'
unfolding apply_detach_directory detach_directory_atomic touched
detach-Since s s' p n root now r h t =
    let (c, named, h1) = value_found _ (get_dentry s p n) _ h in
    let (at, h2) = check_passed (not (eqb c root)) _ _ h1 in
    let (inode, found, h3) = value_found _ (get root s.inodes) _ h2 in
    let (kind, h4) = check_passed (not (is_dir inode)) _ _ h3 in
    let (layout, _, h5) =
      >>=-eq-ok (if eqb inode.inode_id root then get_layout_optional s root else ok none) _ h4 in
    let (_, h6) = check_passed (not (eqb inode.inode_id root) || is_some layout) _ _ h5 in
    let (_, h7) = check_passed (is_some (get root s.detached_roots)) _ _ h6 in
    let (parent, above, h8) = value_found _ (get p s.inodes) _ h7 in
    let (_, h9) = check_passed (not (is_dir parent)) _ _ h8 in
    let (_, h10) = check_passed (not (eqb parent.mount_id inode.mount_id)) _ _ h9 in
    let is : c ≡ root = ground (arith, at, eqb_iff c root) in
    let named' : get (p, n) s.dentries ≡ some root = named ∙ ap (λ (x : InodeId). some x) is in
    let d : DetachedRoot = record { mount_id = inode.mount_id; detached_at_ms = now } in
    let t1 = touch (unname t (p, n)) p parent (touched parent now) above refl refl refl in
    let directory =
      dir-touched t p parent (touched parent now) root inode.mount_id above refl refl refl (record {
        inode = inode;
        found = found;
        kind = is_dir-dir inode (ground (arith, kind));
        mount = refl;
      }) in
    subst (Since _) (ok_inj h10) (
      mark t1 root d (unname-Unnamed t p n root named') directory (named_no_root t p n root named'))

-- A Delete that succeeds keeps the invariant.
pub delete-Since :
    {past : Past} (s s' : Store) (m : MountId) (epoch : ℕ) (mount_root : InodeId)
    (components : List String) (expected : InodeId) (lease : Option LeaseEpoch) (recursive : Bool)
    (now r : ℕ)
    → apply_delete s m epoch mount_root components expected lease recursive now r ≡ ok s'
    → Since past s
    → Since past s'
unfolding apply_delete
delete-Since s s' m epoch mount_root components expected lease recursive now r h t =
    let ((p, n, child), _, h1) =
      >>=-eq-ok (resolve_delete_target s m epoch mount_root components) _ h in
    let (_, h2) = check_passed (not (eqb child.inode_id expected)) _ _ h1 in
    elim (Bool-cases (is_dir child)) [
      | inl directory ↦
          let h3 = rw directory at h2 in
          let (_, h4) = check_passed (is_some lease) _ _ h3 in
          elim (Bool-cases recursive) [
            | inl yes_all ↦ detach-Since s s' p n child.inode_id now r (rw yes_all at h4) t
            | inr only ↦ delete_empty_dir-Since s s' p n now r (rw only at h4) t
          ]
      | inr other ↦
          let h3 = rw other at h2 in
          let (_, h4) = check_passed (not (file_lease_epoch child == lease)) _ _ h3 in
          unlink-Since s s' p n now r h4 t
    ]
