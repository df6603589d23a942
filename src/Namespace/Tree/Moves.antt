-- ===== src/Namespace/Tree/Moves.antt =====
-- A Rename keeps the invariant of the namespace
-- (beryl-metadata/src/raft/state_machine/namespace.rs).
use vecton.Prelude.{
  ℕ, ◌%◌, ◌≡◌, ◌⊎◌, refl, sym, subst, ap, ◌∙◌, false, not, Option, none, some, String, Map, nat_eq,
  string_eq, pair_eq, inl, inr, arith, Bool-cases, Option-cases, eqb, eqb_iff, if◌then◌else◌, ◌==◌,
  option_eq, ◌||◌, pair_eqb_iff,
}
use vecton.Prelude.Maps.{get, insert, remove, get-insert, get-remove}
use vecton.Prelude.Checked.{is_some}
use vecton.Prelude.Result.{ok, >>=-eq-ok, check_passed, value_found, ok_inj}
use vecton.Types.Values.{InodeId, MountId}
use vecton.Inode.{Inode, InodeKind, FileData, file, dir}
use vecton.Storage.{
  Store, MountEntry, DetachedRoot, get_dentry, is_directory_empty, get_layout_optional,
}
use vecton.Storage.Batches.{put_optional, RenameAtomicUpdate}
use vecton.Namespace.{touched}
use vecton.Namespace.Rename.{
  RenameRequest, prepare_rename, prepare_move, check_destination, touched_parents, rename_update,
  prepare_rename_overwrite_target_cleanup, check_kinds,
}
use vecton.Namespace.Delete.{file_lease_epoch, check_file_authority}
use vecton.Namespace.Tree.{Past, Inodes, Dentries, Childless, Joins, IsForest, Since}
use vecton.Namespace.Tree.Changes.{touch}
use vecton.Namespace.Tree.Names.{unname, unname-Unnamed, named_no_root, name}
use vecton.Namespace.Tree.Removals.{file-Childless, is_directory_empty-Childless}

-- What the service knows of the destination when it proposes a rename, and what cannot change
-- afterwards: if it is still there, it is a directory of the mount of the source.
pub record Aims (s : Store) (q : RenameRequest) : Type 0 where
  pub directory :
      (o i : Inode)
      → get q.src_parent_inode_id s.inodes ≡ some o
      → get q.dst_parent_inode_id s.inodes ≡ some i
      → (i.kind ≡ dir) × (i.mount_id ≡ o.mount_id)

module _ {past : Past} {inodes : Inodes} {dentries : Dentries} {detached : Map InodeId DetachedRoot}
    {mounts : Map MountId MountEntry} {next_inode_id : Option InodeId}
    (t : IsForest past inodes dentries detached mounts next_inode_id) where
  -- A name goes from one place to another that is free by then.
  pub move :
      (x : InodeId × String) (p : InodeId) (n : String) (c : InodeId)
      → get x dentries ≡ some c
      → get (p, n) (remove x dentries) ≡ none
      → Joins inodes detached p c
      → IsForest past inodes (insert (p, n) c (remove x dentries)) detached mounts next_inode_id
  move x p n c named free joins =
      name (unname t x) p n c free (unname-Unnamed t x.0 x.1 c named) joins
        (named_no_root t x.0 x.1 c named)

  -- The destination is free if it was, or if it was the source.
  pub free_place :
      (x y : InodeId × String) (c : InodeId)
      → get x dentries ≡ some c
      → (get y dentries ≡ none) ⊎ (get y dentries ≡ some c)
      → get y (remove x dentries) ≡ none
  free_place x y c named (inl nothing) =
      ground (arith, get-remove x y dentries t.names_unique, nothing)
  free_place x y c named (inr same) =
      let at = t.single x.0 x.1 y.0 y.1 c named same in
      ground (arith, get-remove x y dentries t.names_unique, (pair_eqb_iff x y).1 at)

-- The parents that a rename writes.
abbrev pub Touched : Store → RenameRequest → ℕ → Option Inode × Option Inode → Type 0
Touched s q now (a, b) =
    (o : Inode) × (get q.src_parent_inode_id s.inodes ≡ some o)
    × (a ≡ some (touched o now))
    × (((q.src_parent_inode_id ≡ q.dst_parent_inode_id) × (b ≡ none))
        ⊎ ((eqb q.src_parent_inode_id q.dst_parent_inode_id ≡ false)
            × ((i : Inode) × (get q.dst_parent_inode_id s.inodes ≡ some i)
                × (b ≡ some (touched i now)))))

touched_parents-Touched :
    (s : Store) (q : RenameRequest) (now : ℕ) {x : Option Inode × Option Inode}
    → touched_parents s q now ≡ ok x
    → Touched s q now x
unfolding touched_parents
touched_parents-Touched s q now {x} h =
    elim (Bool-cases (eqb q.src_parent_inode_id q.dst_parent_inode_id)) [
      | inl same ↦
          let (o, found, h1) =
            value_found _ (get q.src_parent_inode_id s.inodes) _
              (rw (touched_parents, same) at h) in
          subst (Touched s q now) (ok_inj h1) (o, found, refl, inl ((eqb_iff _ _).0 same, refl))
      | inr other ↦
          let (o, found, h1) =
            value_found _ (get q.src_parent_inode_id s.inodes) _
              (rw (touched_parents, other) at h) in
          let (i, found', h2) = value_found _ (get q.dst_parent_inode_id s.inodes) _ h1 in
          subst (Touched s q now) (ok_inj h2) (o, found, refl, inr (other, (i, found', refl)))
    ]

-- The destination of a rename whose parents were found.
pub destination :
    (s : Store) (q : RenameRequest) (now : ℕ) (x : Option Inode × Option Inode)
    → Touched s q now x
    → (o i : Inode) × (get q.src_parent_inode_id s.inodes ≡ some o)
      × (get q.dst_parent_inode_id s.inodes ≡ some i)
destination s q now x (o, found, _, inl (same, _)) =
    (o, o, found, ap (λ (k : InodeId). get k s.inodes) (sym same) ∙ found)
destination s q now x (o, found, _, inr (_, (i, found', _))) = (o, i, found, found')

pub put_parents :
    {past : Past} {inodes : Inodes} {dentries : Dentries} {detached : Map InodeId DetachedRoot}
    {mounts : Map MountId MountEntry} {next_inode_id : Option InodeId} (s : Store)
    (q : RenameRequest) (now : ℕ) (x : Option Inode × Option Inode)
    → IsForest past inodes dentries detached mounts next_inode_id
    → ((i : Inode)
        → get q.src_parent_inode_id s.inodes ≡ some i
        → get q.src_parent_inode_id inodes ≡ some i)
    → ((i : Inode)
        → get q.dst_parent_inode_id s.inodes ≡ some i
        → get q.dst_parent_inode_id inodes ≡ some i)
    → Touched s q now x
    → IsForest past
        (put_optional x.1 (put_optional x.0 inodes))
        dentries
        detached
        mounts
        next_inode_id
unfolding touched
put_parents {past} {inodes} s q now (a, b) t src dst (o, found, is, rest) =
    let t1 = touch t q.src_parent_inode_id o (touched o now) (src o found) refl refl refl in
    let id = (t.key q.src_parent_inode_id o (src o found)).0 in
    elim rest [
      | inl (_, no_other) ↦ rw (is, no_other) t1
      | inr (other, (i, found', is')) ↦
          rw (is, is')
            (touch t1 q.dst_parent_inode_id i (touched i now)
              (ground (
                arith,
                get-insert o.inode_id q.dst_parent_inode_id (touched o now) inodes,
                id,
                other,
                eqb_iff q.src_parent_inode_id q.dst_parent_inode_id,
                dst i found',
              ))
              refl refl refl)
    ]

-- How a rename was prepared: the destination was free, was the source, or goes.
pub data Plan (s : Store) (q : RenameRequest) (now : ℕ) (c : InodeId)
    : RenameAtomicUpdate → Type 0 where
  onto_nothing :
      (x : Option Inode × Option Inode)
      → get_dentry s q.dst_parent_inode_id q.dst_name ≡ none
      → Touched s q now x
      → Plan s q now c (rename_update q c none x.0 x.1)
  onto_itself :
      get_dentry s q.dst_parent_inode_id q.dst_name ≡ some c
      → Plan s q now c (rename_update q c none none none)
  onto_other :
      (d : InodeId) (x : Option Inode × Option Inode)
      → get_dentry s q.dst_parent_inode_id q.dst_name ≡ some d
      → eqb c d ≡ false
      → Childless s.dentries d
      → Touched s q now x
      → Plan s q now c (rename_update q c (some d) x.0 x.1)

kind_cases : (i : Inode) → (i.kind ≡ dir) ⊎ ((f : FileData) × (i.kind ≡ file f))
kind_cases i = go i.kind refl
  where
    go : (k : InodeKind) → i.kind ≡ k → (i.kind ≡ dir) ⊎ ((f : FileData) × (i.kind ≡ file f))
    go dir e = inl e
    go (file f) e = inr (f, e)

-- An inode that a rename removes has no entries.
cleanup-Childless :
    {past : Past} (s : Store) (d k : InodeId) (i : Inode)
    → get d s.inodes ≡ some i
    → prepare_rename_overwrite_target_cleanup s d i ≡ ok k
    → Since past s
    → (k ≡ d) × Childless s.dentries d
unfolding prepare_rename_overwrite_target_cleanup
cleanup-Childless s d k i found h t = elim (kind_cases i) [
  | inl directory ↦
      let (b, nothing, h1) =
        >>=-eq-ok (is_directory_empty s d) _
          (rw (prepare_rename_overwrite_target_cleanup, directory) at h) in
      let (yes_empty, h2) = check_passed (not b) _ _ h1 in
      let (layout, _, h3) =
        >>=-eq-ok (if eqb i.inode_id d then get_layout_optional s d else ok none) _ h2 in
      let (_, h4) = check_passed (not (eqb i.inode_id d) || is_some layout) _ _ h3 in
      (sym (ok_inj h4), is_directory_empty-Childless s d b nothing yes_empty)
  | inr (f, plain) ↦
      let (_, _, h1) =
        >>=-eq-ok (check_file_authority s d i) _
          (rw (prepare_rename_overwrite_target_cleanup, plain) at h) in
      (sym (ok_inj h1), file-Childless t d i found (rw plain))
]

check_destination-Childless :
    {past : Past} (s : Store) (q : RenameRequest) (src : Inode) (d k : InodeId)
    → check_destination s q src d ≡ ok k
    → Since past s
    → (k ≡ d) × Childless s.dentries d
unfolding check_destination
check_destination-Childless s q src d k h t =
    let (i, found, h1) = value_found _ (get d s.inodes) _ h in
    let (_, h2) = check_passed (not (file_lease_epoch i == q.expected_dst_lease_epoch)) _ _ h1 in
    let (_, _, h3) = >>=-eq-ok (check_kinds s src d i) _ h2 in cleanup-Childless s d k i found h3 t

prepare_move-Touched :
    (s : Store) (q : RenameRequest) (o : Option InodeId) (now : ℕ) {u : RenameAtomicUpdate}
    → prepare_move s q o now ≡ ok u
    → (x : Option Inode × Option Inode) × Touched s q now x
      × (rename_update q q.expected_src_inode_id o x.0 x.1 ≡ u)
unfolding prepare_move
prepare_move-Touched s q o now h =
    let (x, touches, h1) = >>=-eq-ok (touched_parents s q now) _ h in
    (x, touched_parents-Touched s q now touches, ok_inj h1)

pub prepare_rename-Plan :
    {past : Past} (s : Store) (q : RenameRequest) (now : ℕ) (u : RenameAtomicUpdate)
    → prepare_rename s q now ≡ ok u
    → Since past s
    → (get_dentry s q.src_parent_inode_id q.src_name ≡ some q.expected_src_inode_id)
      × Plan s q now q.expected_src_inode_id u
unfolding prepare_rename
prepare_rename-Plan s q now u h t =
    let (c, named, h1) = value_found _ (get_dentry s q.src_parent_inode_id q.src_name) _ h in
    let (at, h2) = check_passed (not (eqb c q.expected_src_inode_id)) _ _ h1 in
    let dst = get_dentry s q.dst_parent_inode_id q.dst_name in
    let (_, h3) = check_passed (not (dst == q.expected_dst_inode_id)) _ _ h2 in
    let (src, _, h4) = value_found _ (get c s.inodes) _ h3 in
    let is : c ≡ q.expected_src_inode_id = ground (arith, at, eqb_iff c q.expected_src_inode_id) in
    (
      named ∙ ap (λ (x : InodeId). some x) is,
      elim (Option-cases dst) [
        | inl nothing ↦
            let (x, touches, made) = prepare_move-Touched s q none now (rw nothing at h4) in
            subst (Plan s q now q.expected_src_inode_id) made (onto_nothing x nothing touches)
        | inr (d, taken) ↦
            let (_, h5) = check_passed (eqb (q.flags % 2) 1) _ _ (rw taken at h4) in
            elim (Bool-cases (eqb c d)) [
              | inl same ↦
                  let h6 = rw same at h5 in
                  let this : d ≡ q.expected_src_inode_id = sym ((eqb_iff c d).0 same) ∙ is in
                  subst (Plan s q now q.expected_src_inode_id)
                    (ap (λ k. rename_update q k none none none) (sym is) ∙ ok_inj h6)
                    (onto_itself (taken ∙ ap (λ (x : InodeId). some x) this))
              | inr other ↦
                  let (k, cleaned, h6) =
                    >>=-eq-ok (check_destination s q src d) _ (rw other at h5) in
                  let (this, childless) = check_destination-Childless s q src d k cleaned t in
                  let (x, touches, made) = prepare_move-Touched s q (some k) now h6 in
                  subst (Plan s q now q.expected_src_inode_id)
                    (ap (λ j. rename_update q q.expected_src_inode_id (some j) x.0 x.1) (sym this)
                      ∙ made)
                    (onto_other d x taken (subst (λ j. eqb j d ≡ false) is other) childless touches)
            ]
      ],
    )
