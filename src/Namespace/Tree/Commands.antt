-- ===== src/Namespace/Tree/Commands.antt =====
-- The commands that add a name keep the invariant of the namespace
-- (beryl-metadata/src/raft/state_machine/namespace.rs).
use vecton.Prelude.{
  ℕ, ◌+◌, ◌≡◌, ◌<◌, ◌≤◌, refl, subst, ◌∙◌, true, false, not, Option, none, some, String, [], ◌∷◌,
  Map, nat_eq, string_eq, pair_eq, inl, inr, arith, Option-cases, eqb, eqb_iff, checked_add, ltb,
  leb, ◌||◌,
}
use vecton.Prelude.Maps.{get, insert, get-insert}
use vecton.Prelude.Checked.{is_some}
use vecton.Prelude.Result.{ok, >>=-eq-ok, check_passed, value_found, ok_inj}
use vecton.Types.Values.{InodeId, MountId}
use vecton.Inode.{initialize, Inode, InodeAttrs, FileData, file, dir, validate}
use vecton.Storage.{
  Store, MountEntry, DetachedRoot, InodeAllocation, is_dir, get_dentry, prepare_inode_allocation,
  max_inode_id,
}
use vecton.Storage.Batches.{create_dir_atomic, validate_inode_allocation_targets}
use vecton.Namespace.{apply_mkdir, touched, new_dir}
use vecton.Namespace.Tree.{Past, Inodes, Dentries, Unnamed, IsForest, Since}
use vecton.Namespace.Tree.Changes.{touch, add}
use vecton.Namespace.Tree.Names.{name}

pub is_dir-dir : (i : Inode) → is_dir i ≡ true → i.kind ≡ dir
is_dir-dir i h = ground arith

pub prepare_inode_allocation-next :
    (s : Store) (a : InodeAllocation)
    → prepare_inode_allocation s ≡ ok a
    → (s.next_inode_id ≡ some a.inode_id) × (a.next_inode_id ≡ a.inode_id + 1)
unfolding prepare_inode_allocation
prepare_inode_allocation-next s a h =
    let (i, at, h1) = value_found _ s.next_inode_id _ h in
    let (_, h2) = check_passed (ltb i 2) _ _ h1 in
    let (last, _, h3) = >>=-eq-ok (max_inode_id s) _ h2 in
    let (high, _, h4) = value_found _ last _ h3 in
    let (_, h5) = check_passed (leb i high || is_some (get i s.inodes)) _ _ h4 in
    let (next, sum, h6) = value_found _ (checked_add i 1) _ h5 in
    (ground (arith, at, h6), ground (arith, sum, h6))

-- What the batches of a new inode write, in any store with these maps.
module _ {past : Past} {inodes : Inodes} {dentries : Dentries} {detached : Map InodeId DetachedRoot}
    {mounts : Map MountId MountEntry} {next_inode_id : Option InodeId}
    (t : IsForest past inodes dentries detached mounts next_inode_id) where
  -- No name leads to an inode that is not there, and no marker stands for it.
  fresh-Unnamed : (c : InodeId) → t.next ≤ c → Unnamed dentries c
  fresh-Unnamed c beyond p n g =
      let j = t.entry p n c g in omega (arith, (t.key c j.child.inode j.child.found).1, beyond)

  fresh_attached : (c : InodeId) → t.next ≤ c → get c detached ≡ none
  fresh_attached c beyond = elim (Option-cases (get c detached)) [
    | inl absent ↦ absent
    | inr (r, g) ↦
        let d = t.detached_root c r g in absurd (omega (arith, (t.key c d.inode d.found).1, beyond))
  ]

  fresh_no_root :
      (c : InodeId)
      → t.next ≤ c
      → (m : MountId) (e : MountEntry) → get m mounts ≡ some e
      → eqb e.root_inode_id c ≡ false
  fresh_no_root c beyond m e g =
      let d = (t.mounted m e g).directory in
      ground (arith, (t.key e.root_inode_id d.inode d.found).1)

  -- A new inode under a new name in a directory, whose time moves on.
  pub grow :
      (p : InodeId) (n : String) (parent parent' i : Inode) (next' : ℕ)
      → get p inodes ≡ some parent
      → parent.kind ≡ dir
      → parent'.inode_id ≡ parent.inode_id
      → parent'.kind ≡ parent.kind
      → parent'.mount_id ≡ parent.mount_id
      → get (p, n) dentries ≡ none
      → i.inode_id ≡ t.next
      → i.mount_id ≡ parent.mount_id
      → t.next < next'
      → ((f : FileData) → i.kind ≡ file f → validate t.next f ≡ ok tt)
      → IsForest past
          (insert parent'.inode_id parent' (insert i.inode_id i inodes))
          (insert (p, n) i.inode_id dentries)
          detached
          mounts
          (some next')
  grow p n parent parent' i next' found kind pid pkind pmount free id mount lt valid =
      let t1 = add t i next' id lt valid in
      let apart : eqb i.inode_id p ≡ false = ground (arith, (t.key p parent found).1, id) in
      let found1 : get p (insert i.inode_id i inodes) ≡ some parent =
        get-insert i.inode_id p i inodes ∙ rw apart found in
      let beyond : t.next ≤ i.inode_id = omega (arith, id) in
      let named =
        name t1 p n i.inode_id free (fresh-Unnamed i.inode_id beyond)
          (record {
            mount = parent.mount_id;
            parent = record { inode = parent; found = found1; kind = kind; mount = refl };
            child = record {
              inode = i;
              found =
                  ground (
                    arith,
                    get-insert i.inode_id i.inode_id i inodes,
                    eqb_iff i.inode_id i.inode_id,
                  );
              mount = mount;
            };
            attached = fresh_attached i.inode_id beyond;
          })
          (fresh_no_root i.inode_id beyond) in
      touch named p parent parent' found1 pid pkind pmount

pub mkdir-Since :
    {past : Past} (s s' : Store) (p : InodeId) (n : String) (attrs at : InodeAttrs) (now r : ℕ)
    (c : InodeId)
    → apply_mkdir s p n attrs now r ≡ ok (s', c, at)
    → Since past s
    → Since past s'
unfolding apply_mkdir create_dir_atomic touched
mkdir-Since s s' p n attrs at now r c h t =
    let (parent, found, h1) = value_found _ (get p s.inodes) _ h in
    let (d, h2) = check_passed (not (is_dir parent)) _ _ h1 in
    let (free, h3) = check_passed (is_some (get_dentry s p n)) _ _ h2 in
    let (a, prepared, h4) = >>=-eq-ok (prepare_inode_allocation s) _ h3 in
    let (now_is, next_is) = prepare_inode_allocation-next s a prepared in
    let i = new_dir a.inode_id (initialize attrs now) parent.mount_id in
    let (s1, made, h5) = >>=-eq-ok (create_dir_atomic s a p n i (touched parent now) r) _ h4 in
    let (_, _, h6) = >>=-eq-ok (validate_inode_allocation_targets s a (i.inode_id ∷ [])) _ made in
    let same : s1 ≡ s' = ground (arith, h5) in
    let id : a.inode_id ≡ t.next = ground (arith, now_is, t.next_is) in
    let t' =
      grow t p n parent (touched parent now) i a.next_inode_id found
        (is_dir-dir parent (ground (arith, d))) refl refl refl (ground (arith, free)) id refl
        (omega (arith, id, next_is)) (λ f e. cc) in
    subst (Since _) same (subst (Since _) (ok_inj h6) t')
