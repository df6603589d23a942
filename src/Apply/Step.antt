-- ===== src/Apply/Step.antt =====
-- Every file command leaves the inodes alone or writes one inode, whose file moves forward
-- (beryl-metadata/src/raft/state_machine/write.rs).
use vecton.Prelude.{
  [], ℕ, ◌+◌, ◌<◌, ◌≡◌, refl, ◌⊎◌, inl, inr, Option, some, arith, nat_eq, subst, ◌∙◌, Bool-cases,
  eqb,
}
use vecton.Prelude.Maps.{get, insert}
use vecton.Prelude.Result.{ok, >>=-eq-ok}
use vecton.Types.Values.{InodeId, LeaseEpoch, BlockId, checked_next}
use vecton.Inode.{FileCommit, Inode, FileData, file, validate}
use vecton.Inode.Advances.{Advances}
use vecton.Inode.Identities.{invalid_mono}
use vecton.Inode.Coverage.{validate-IsValid, IsValid-validate}
use vecton.Apply.{
  Store, load_file, with_file, apply_allocate_block, apply_acquire_write_lease,
  apply_end_write_lease, ensure_file_inode_authority,
}

-- The inode `k` of the store, with its checked file.
pub record Loads (s : Store) (k : InodeId) (i : Inode) (f : FileData) : Type 0 where
  pub found : get k s.inodes ≡ some i
  pub kind : i.kind ≡ file f
  pub key : i.inode_id ≡ k
  pub valid : validate k f ≡ ok tt

pub load_file-Loads :
    (s : Store) (k : InodeId) (i : Inode) (f : FileData) → load_file s k ≡ ok (i, f) → Loads s k i f
unfolding load_file ensure_file_inode_authority
load_file-Loads s k i f h = ground arith

pub record Writes (s s' : Store) (k : InodeId) : Type 0 where
  pub old : Inode
  pub before : FileData
  pub loads : Loads s k old before
  pub new : Inode
  pub after : FileData
  pub kind : new.kind ≡ file after
  pub key : new.inode_id ≡ k
  pub mount : new.mount_id ≡ old.mount_id
  pub valid : validate k after ≡ ok tt
  pub advances : Advances before after
  pub stored : s'.inodes ≡ insert k new s.inodes

abbrev pub Step : Store → Store → InodeId → Type 0
Step s s' k = (s'.inodes ≡ s.inodes) ⊎ Writes s s' k

next_index-valid :
    (k : InodeId) (f : FileData)
    → validate k f ≡ ok tt
    → validate k (record f { next_index = f.next_index + 1 }) ≡ ok tt
next_index-valid k f h =
    let v = validate-IsValid k f h in
    IsValid-validate k (record f { next_index = f.next_index + 1 })
      (record {
        layout = v.layout;
        capacity = v.capacity;
        bounded = v.bounded;
        covers = v.covers;
        identities =
            invalid_mono k f.next_index (f.next_index + 1) f.blocks [] (omega arith) v.identities;
      })

-- A write of the loaded inode with a valid file that moves forward.
abbrev pub write-Writes :
    (s s' : Store) (k : InodeId) (i n : Inode) (f g : FileData)
    → Loads s k i f
    → n.kind ≡ file g
    → n.inode_id ≡ i.inode_id
    → n.mount_id ≡ i.mount_id
    → validate k g ≡ ok tt
    → Advances f g
    → s'.inodes ≡ insert n.inode_id n s.inodes
    → Writes s s' k
write-Writes s s' k i n f g l kind id mount valid adv st = record {
  old = i;
  before = f;
  loads = l;
  new = n;
  after = g;
  kind = kind;
  key = id ∙ l.key;
  mount = mount;
  valid = valid;
  advances = adv;
  stored = subst (λ t. s'.inodes ≡ insert t n s.inodes) (id ∙ l.key) st;
}

-- Validity does not read the lease epoch nor the evidence of a commit.
pub lease-valid :
    (k : InodeId) (f : FileData) (e : LeaseEpoch) (c : Option FileCommit)
    → validate k f ≡ ok tt
    → validate k (record f { lease_epoch = e; last_commit = c }) ≡ ok tt
unfolding validate
lease-valid k f e c h = h

pub allocate-Writes :
    (s s' : Store) (k : InodeId) (e : LeaseEpoch) (r : ℕ) (b : BlockId)
    → apply_allocate_block s k e r ≡ ok (s', b)
    → (w : Writes s s' k) × (b.index < w.after.next_index)
unfolding apply_allocate_block
allocate-Writes s s' k e r b h =
    let ((i, f), hl, h1) = >>=-eq-ok (load_file s k) _ h in
    let l = load_file-Loads s k i f hl in
    let g : FileData = record f { next_index = f.next_index + 1 } in
    (
      write-Writes s s' k i (with_file i g) f g l refl refl refl (next_index-valid k f l.valid)
          (record {
            layout = refl;
            lease_epoch = omega arith;
            generation = omega arith;
            next_index = omega arith;
          })
          (ground arith),
      ground arith,
    )

pub allocate-Step :
    (s s' : Store) (k : InodeId) (e : LeaseEpoch) (r : ℕ) (b : BlockId)
    → apply_allocate_block s k e r ≡ ok (s', b)
    → Writes s s' k
allocate-Step s s' k e r b h = (allocate-Writes s s' k e r b h).0

pub checked_next-lt : (e n : ℕ) → checked_next e ≡ some n → e < n
checked_next-lt e n h = ground arith

pub acquire-Step :
    (s s' : Store) (k : InodeId) (e : LeaseEpoch) (now r : ℕ) (n : LeaseEpoch)
    → apply_acquire_write_lease s k e now r ≡ ok (s', n)
    → Writes s s' k
unfolding apply_acquire_write_lease
acquire-Step s s' k e now r n h =
    let ((i, f), hl, h1) = >>=-eq-ok (load_file s k) _ h in
    let l = load_file-Loads s k i f hl in
    let g : FileData = record f { lease_epoch = n } in
    let next : checked_next f.lease_epoch ≡ some n = ground arith in
    write-Writes s s' k i (with_file i g) f g l refl refl refl
      (lease-valid k f n f.last_commit l.valid)
      (record {
        layout = refl;
        lease_epoch = omega (arith, checked_next-lt f.lease_epoch n next);
        generation = omega arith;
        next_index = omega arith;
      })
      (ground arith)

pub end-Step :
    (s s' : Store) (k : InodeId) (e : LeaseEpoch) (r : ℕ) (n : LeaseEpoch)
    → apply_end_write_lease s k e r ≡ ok (s', n)
    → Step s s' k
unfolding apply_end_write_lease
end-Step s s' k e r n h =
    let ((i, f), hl, h1) = >>=-eq-ok (load_file s k) _ h in
    let l = load_file-Loads s k i f hl in
    let g : FileData = record f { lease_epoch = n } in
    let next : checked_next e ≡ some n = ground arith in
    elim (Bool-cases (eqb f.lease_epoch n)) [
      | inl same ↦ inl (ground arith)
      | inr other ↦
          let owner : f.lease_epoch ≡ e = ground arith in
          inr (
            write-Writes s s' k i (with_file i g) f g l refl refl refl
              (lease-valid k f n f.last_commit l.valid)
              (record {
                layout = refl;
                lease_epoch = omega (arith, checked_next-lt e n next);
                generation = omega arith;
                next_index = omega arith;
              })
              (ground arith))
    ]
