-- ===== src/Namespace/Tree/Files.antt =====
-- The parts of CreateFile: a valid new file, the writes of its record, and the parent of its path
-- (beryl-metadata/src/raft/state_machine/namespace.rs).
use vecton.Prelude.{
  ℕ, ◌≡◌, ◌<◌, refl, subst, ap, ◌∙◌, true, not, none, some, String, List, [], ◌∷◌, nat_eq,
  string_eq, pair_eq, inl, inr, arith, Bool-cases, eqb, eqb_iff, ltb, ◌||◌, ◌==◌,
}
use vecton.Prelude.Maps.{get, get-insert_self}
use vecton.Prelude.Counts.{or_zero}
use vecton.Inode.Coverage.{IsValid-validate}
use vecton.Registry.{operation_eq}
use vecton.Prelude.Checked.{is_some}
use vecton.Prelude.Result.{Result, ok, map_err, ok_or, >>=-eq-ok, check_passed, value_found, ok_inj}
use vecton.Types.Values.{InodeId, MountId}
use vecton.Types.Layout.{FileLayout}
use vecton.Types.Layout
use vecton.Types.Layout.Laws.{validate-eq-ok}
use vecton.Inode.{Inode, InodeAttrs, FileData, file, validate, invalid_identities}
use vecton.Storage.{Store, CreateFileReplayRecord, is_dir, get_dentry}
use vecton.Storage.Batches.{
  evict_expired_replay, put_replay, batch_put_create_file_replay, first_expiry,
  max_create_file_replay_records,
}
use vecton.Namespace.Create.{leased, resolve_create_parent, walk_to_parent}
use vecton.Namespace.Paths.{validate_relative_components}

pub map_err-ok :
    {E F A : Type 0} (f : E → F) (x : Result E A) {a : A} → map_err f x ≡ ok a → x ≡ ok a
map_err-ok f x h = ground arith

validate-capacity : (l : FileLayout) → Layout.validate l ≡ ok tt → 0 < l.block_size
validate-capacity l h = ((validate-eq-ok l).0 h).1

-- A file that is created is valid where its layout is.
pub leased-valid :
    (k : InodeId) (attrs : InodeAttrs) (m : MountId) (l : FileLayout) (f : FileData)
    → Layout.validate l ≡ ok tt
    → (leased k attrs m l).kind ≡ file f
    → validate k f ≡ ok tt
unfolding invalid_identities
leased-valid k attrs m l f h e =
    subst (λ (x : FileData). validate k x ≡ ok tt) (ground (arith, e))
      (IsValid-validate k
        (record {
          layout = l;
          len = 0;
          generation = 0;
          blocks = [];
          next_index = 0;
          lease_epoch = 1;
          last_commit = none;
        })
        (record {
          layout = h;
          capacity = validate-capacity l h;
          bounded = omega arith;
          covers = refl;
          identities = refl;
        }))

-- A store with the same namespace.
pub record SameNamespace (s s' : Store) : Type 0 where
  pub inodes : s'.inodes ≡ s.inodes
  pub dentries : s'.dentries ≡ s.dentries
  pub detached : s'.detached_roots ≡ s.detached_roots
  pub mounts : s'.mounts ≡ s.mounts
  pub next : s'.next_inode_id ≡ s.next_inode_id

evict-SameNamespace :
    (s s' : Store) (now : ℕ) → evict_expired_replay s now ≡ ok s' → SameNamespace s s'
unfolding evict_expired_replay
evict-SameNamespace s s' now h =
    let ((at, o), _, h1) = >>=-eq-ok (ok_or _ (first_expiry s.create_file_replay_expiry)) _ h in
    let (_, h2) = check_passed (ltb now at) _ _ h1 in
    let (x, _, h3) = value_found _ (get o s.create_file_replays) _ h2 in
    let (_, h4) = check_passed (not (x.operation_id == o)) _ _ h3 in
    let (i, _, h5) = value_found _ (get x.inode_id s.create_file_replay_inodes) _ h4 in
    let (_, h6) = check_passed (not (i == o)) _ _ h5 in
    subst (SameNamespace s) (ok_inj h6)
      (record { inodes = refl; dentries = refl; detached = refl; mounts = refl; next = refl })

pub put_record-SameNamespace :
    (s s' : Store) (r : CreateFileReplayRecord) (now : ℕ)
    → batch_put_create_file_replay s r now ≡ ok s'
    → SameNamespace s s'
unfolding batch_put_create_file_replay put_replay
put_record-SameNamespace s s' r now h =
    let (_, h1) = check_passed (is_some (get r.operation_id s.create_file_replays)) _ _ h in
    let (_, h2) = check_passed (is_some (get r.inode_id s.create_file_replay_inodes)) _ _ h1 in
    let count = or_zero s.create_file_replay_count in
    let (_, h3) = check_passed (ltb max_create_file_replay_records count) _ _ h2 in
    elim (Bool-cases (eqb count max_create_file_replay_records)) [
      | inl full ↦
          let (s1, evicted, h4) = >>=-eq-ok (evict_expired_replay s now) _ (rw full at h3) in
          let e = evict-SameNamespace s s1 now evicted in
          subst (SameNamespace s) (ok_inj h4) (record {
            inodes = e.inodes;
            dentries = e.dentries;
            detached = e.detached;
            mounts = e.mounts;
            next = e.next;
          })
      | inr room ↦
          subst (SameNamespace s) (ok_inj (rw room at h3))
            (record { inodes = refl; dentries = refl; detached = refl; mounts = refl; next = refl })
    ]

pub put_record-get :
    (s s' : Store) (r : CreateFileReplayRecord) (now : ℕ)
    → batch_put_create_file_replay s r now ≡ ok s'
    → get r.operation_id s'.create_file_replays ≡ some r
unfolding batch_put_create_file_replay put_replay
put_record-get s s' r now h =
    let (_, h1) = check_passed (is_some (get r.operation_id s.create_file_replays)) _ _ h in
    let (_, h2) = check_passed (is_some (get r.inode_id s.create_file_replay_inodes)) _ _ h1 in
    let count = or_zero s.create_file_replay_count in
    let (_, h3) = check_passed (ltb max_create_file_replay_records count) _ _ h2 in
    elim (Bool-cases (eqb count max_create_file_replay_records)) [
      | inl full ↦
          let (s1, _, h4) = >>=-eq-ok (evict_expired_replay s now) _ (rw full at h3) in
          subst (λ (x : Store). get r.operation_id x.create_file_replays ≡ some r) (ok_inj h4)
            (get-insert_self r.operation_id r s1.create_file_replays)
      | inr room ↦
          subst (λ (x : Store). get r.operation_id x.create_file_replays ≡ some r)
            (ok_inj (rw room at h3)) (get-insert_self r.operation_id r s.create_file_replays)
    ]

-- The parent that the path leads to.
walk-directory :
    (s : Store) (m : MountId) (i : Inode) (components : List String) (p : InodeId) (n : String)
    (parent : Inode)
    → walk_to_parent s m i components ≡ ok (p, n, parent)
    → get i.inode_id s.inodes ≡ some i
    → is_dir i ≡ true
    → i.mount_id ≡ m
    → (get p s.inodes ≡ some parent) × (is_dir parent ≡ true) × (parent.mount_id ≡ m)
unfolding walk_to_parent
walk-directory s m i [] p n parent h found kind mount = cc
walk-directory s m i (c ∷ []) p n parent h found kind mount =
    (ground (arith, h, found), ground (arith, h, kind), ground (arith, h, mount))
walk-directory s m i (c ∷ d ∷ components) p n parent h found kind mount =
    let (k, _, h1) = value_found _ (get_dentry s i.inode_id c) _ h in
    let (j, below, h2) = value_found _ (get k s.inodes) _ h1 in
    let (own, h3) = check_passed (not (eqb j.inode_id k) || not (eqb j.mount_id m)) _ _ h2 in
    let (directory, h4) = check_passed (not (is_dir j)) _ _ h3 in
    walk-directory s m j (d ∷ components) p n parent h4
      (ap (λ x. get x s.inodes) ((eqb_iff j.inode_id k).0 (ground (arith, own))) ∙ below)
      (ground (arith, directory)) (ground (arith, own))

pub resolve_create_parent-directory :
    (s : Store) (m : MountId) (epoch : ℕ) (root : InodeId) (components : List String) (p : InodeId)
    (n : String) (parent : Inode)
    → resolve_create_parent s m epoch root components ≡ ok (p, n, parent)
    → (get p s.inodes ≡ some parent) × (is_dir parent ≡ true) × (parent.mount_id ≡ m)
unfolding resolve_create_parent
resolve_create_parent-directory s m epoch root components p n parent h =
    let (_, _, h1) = >>=-eq-ok (validate_relative_components components) _ h in
    let (e, _, h2) = value_found _ (get m s.mounts) _ h1 in
    let (_, h3) =
      check_passed (not (eqb e.mount_epoch epoch) || not (eqb e.root_inode_id root)) _ _ h2 in
    let (i, found, h4) = value_found _ (get root s.inodes) _ h3 in
    let (own, h5) =
      check_passed (not (eqb i.inode_id root) || not (eqb i.mount_id m) || not (is_dir i)) _ _ h4 in
    walk-directory s m i components p n parent h5
      (ap (λ x. get x s.inodes) ((eqb_iff i.inode_id root).0 (ground (arith, own))) ∙ found)
      (ground (arith, own)) (ground (arith, own))
