-- ===== src/Storage/Batches.antt =====
-- The batches of beryl-metadata/src/raft/storage/transaction.rs: each writes its changes and the
-- applied Raft state as one.
use vecton.Prelude.{
  ℕ, ◌+◌, ◌-◌, Bool, true, false, not, ◌&&◌, ◌||◌, Option, none, some, String, List, [], ◌∷◌, ◌==◌,
  nat_eq, string_eq, pair_eq, eqb, ltb, leb, if◌then◌else◌, Map, checked_add, map,
}
use vecton.Prelude.Maps.{get, insert, remove}
use vecton.Prelude.Counts.{or_zero}
use vecton.Prelude.Checked.{is_some}
use vecton.Prelude.Result.{Result, ok, ◌>>=◌, ◌>>◌, ok_or, reject_if}
use vecton.Types.Values.{InodeId}
use vecton.MetadataError.{MetadataError, internal, resource_exhausted}
use vecton.Inode.{Inode}
use vecton.Registry.{CreateFileOperationId, operation_eq}
use vecton.Storage.{Store, MountEntry, DetachedRoot, InodeAllocation, CreateFileReplayRecord}

-- max_create_file_replay_records
abbrev pub max_create_file_replay_records : ℕ
max_create_file_replay_records = 65536

-- commit_applied_state
unfoldable pub commit_applied_state : Store → ℕ → Store
commit_applied_state s raft_state = record s { applied = raft_state }

-- batch_put_inode
abbrev pub batch_put_inode : Inode → Map InodeId Inode → Map InodeId Inode
batch_put_inode inode inodes = insert inode.inode_id inode inodes

unfoldable pub put_inode_atomic : Store → Inode → ℕ → Store
put_inode_atomic s inode raft_state = record s {
  inodes = batch_put_inode inode s.inodes;
  applied = raft_state;
}

unfoldable pub bootstrap_namespace_atomic : Store → Inode → MountEntry → ℕ → Store
bootstrap_namespace_atomic s root_inode root_mount raft_state = record s {
  inodes = batch_put_inode root_inode s.inodes;
  mounts = insert root_mount.mount_id root_mount s.mounts;
  route_epoch = some 1;
  mount_epoch = some 1;
  next_inode_id = some 2;
  applied = raft_state;
}

-- The loop over the targets, with the inode that is expected next.
unfoldable pub validate_targets :
    Map InodeId Inode → InodeId → List InodeId → Result MetadataError InodeId
validate_targets inodes expected [] = ok expected
validate_targets inodes expected (t ∷ targets) = do
  reject_if (not (eqb t expected)) (internal "inode allocation target is not the expected inode")
  reject_if (is_some (get t inodes)) (internal "inode allocation target already exists")
  next ← ok_or (internal "inode ID allocator overflow") (checked_add expected 1)
  validate_targets inodes next targets

abbrev pub no_targets : List InodeId → Bool
no_targets [] = true
no_targets (t ∷ targets) = false

unfoldable pub validate_inode_allocation_targets :
    Store → InodeAllocation → List InodeId → Result MetadataError Unit
unfolding validate_targets
validate_inode_allocation_targets s allocation targets = do
  reject_if (no_targets targets || ltb allocation.inode_id 2)
      (internal "inode allocation has no valid target")
  persisted ← ok_or (internal "next_inode_id allocator authority is missing") s.next_inode_id
  reject_if (not (eqb persisted allocation.inode_id))
      (internal "inode allocation does not match durable next_inode_id")
  next ← validate_targets s.inodes allocation.inode_id targets
  reject_if (not (eqb allocation.next_inode_id next))
      (internal "inode allocation next value does not match expected")

-- create_file_batch, create_dir_batch and the body of the loop of create_directories_atomic: an
-- inode, its parent and the name between them.
unfoldable pub create_batch : InodeId → String → Inode → Inode → Store → Store
create_batch parent_inode_id name inode updated_parent s = record s {
  inodes = batch_put_inode updated_parent (batch_put_inode inode s.inodes);
  dentries = insert (parent_inode_id, name) inode.inode_id s.dentries;
}

-- The order of the keys of the expiry index: the time, then the bytes of the operation.
abbrev pub expiry_le : ℕ × CreateFileOperationId → ℕ × CreateFileOperationId → Bool
expiry_le (t, a) (u, b) =
    ltb t u
    || (eqb t u
        && (ltb a.client_id b.client_id
            || (eqb a.client_id b.client_id && leb a.call_id b.call_id)))

unfoldable pub first_expiry :
    Map (ℕ × CreateFileOperationId) Unit → Option (ℕ × CreateFileOperationId)
first_expiry [] = none
first_expiry ((p, _) ∷ m) = elim (first_expiry m) [
  | none ↦ some p
  | some q ↦ some (if expiry_le p q then p else q)
]

-- The part of batch_put_create_file_replay where the replay table is full: the oldest record goes if
-- it has expired. The key next_inode_id follows the expiry index, so that the scan always finds a key.
unfoldable pub evict_expired_replay : Store → ℕ → Result MetadataError Store
evict_expired_replay s proposed_at_ms = do
  (expires_at_ms, operation) ←
      ok_or (internal "CreateFile replay count has no matching expiry index")
        (first_expiry s.create_file_replay_expiry)
  reject_if (ltb proposed_at_ms expires_at_ms)
      (resource_exhausted "CreateFile replay capacity is exhausted")
  expired ←
      ok_or (internal "CreateFile replay expiry index has no record")
        (get operation s.create_file_replays)
  reject_if (not (expired.operation_id == operation))
      (internal "CreateFile replay expiry index has a corrupt record")
  indexed ←
      ok_or (internal "expired CreateFile replay has no inode index")
        (get expired.inode_id s.create_file_replay_inodes)
  reject_if (not (indexed == operation))
      (internal "expired CreateFile inode replay index names another operation")
  ok (record s {
    create_file_replay_expiry = remove (expires_at_ms, operation) s.create_file_replay_expiry;
    create_file_replays = remove operation s.create_file_replays;
    create_file_replay_inodes = remove expired.inode_id s.create_file_replay_inodes;
  })

-- The writes of a new record, with the count of those before it.
unfoldable pub put_replay : CreateFileReplayRecord → ℕ → Store → Store
put_replay r replay_count s = record s {
  create_file_replays = insert r.operation_id r s.create_file_replays;
  create_file_replay_inodes = insert r.inode_id r.operation_id s.create_file_replay_inodes;
  create_file_replay_expiry =
      insert (r.expires_at_ms, r.operation_id) tt s.create_file_replay_expiry;
  create_file_replay_count = some (replay_count + 1);
}

unfoldable pub batch_put_create_file_replay :
    Store → CreateFileReplayRecord → ℕ → Result MetadataError Store
unfolding evict_expired_replay put_replay
batch_put_create_file_replay s r proposed_at_ms = do
  reject_if (is_some (get r.operation_id s.create_file_replays))
      (internal "new CreateFile mutation attempted to overwrite a replay record")
  reject_if (is_some (get r.inode_id s.create_file_replay_inodes))
      (internal "new CreateFile mutation attempted to overwrite an inode replay index")
  let replay_count = or_zero s.create_file_replay_count
  reject_if (ltb max_create_file_replay_records replay_count)
      (internal "CreateFile replay count exceeds its compiled bound")
  if eqb replay_count max_create_file_replay_records
      then (do s' ← evict_expired_replay s proposed_at_ms; ok (put_replay r (replay_count - 1) s'))
      else ok (put_replay r replay_count s)

unfoldable pub create_file_atomic :
    Store
    → InodeAllocation
    → InodeId
    → String
    → Inode
    → Inode
    → CreateFileReplayRecord
    → ℕ
    → ℕ
    → Result MetadataError Store
unfolding create_batch
create_file_atomic s allocation parent_inode_id name inode updated_parent r proposed_at_ms
      raft_state =
    do
      validate_inode_allocation_targets s allocation (inode.inode_id ∷ [])
      s' ← batch_put_create_file_replay s r proposed_at_ms
      ok (record (create_batch parent_inode_id name inode updated_parent s') {
        next_inode_id = some allocation.next_inode_id;
        applied = raft_state;
      })

unfoldable pub create_dir_atomic :
    Store → InodeAllocation → InodeId → String → Inode → Inode → ℕ → Result MetadataError Store
unfolding create_batch
create_dir_atomic s allocation parent_inode_id name inode updated_parent raft_state = do
  validate_inode_allocation_targets s allocation (inode.inode_id ∷ [])
  ok (record (create_batch parent_inode_id name inode updated_parent s) {
    next_inode_id = some allocation.next_inode_id;
    applied = raft_state;
  })

pub record RecursiveMkdirEntry : Type 0 where
  pub parent_inode_id : InodeId
  pub name : String
  pub inode : Inode
  pub updated_parent : Inode

unfoldable pub create_batches : List RecursiveMkdirEntry → Store → Store
unfolding create_batch
create_batches [] s = s
create_batches (e ∷ entries) s =
    create_batches entries (create_batch e.parent_inode_id e.name e.inode e.updated_parent s)

abbrev pub inode_id_of : RecursiveMkdirEntry → InodeId
inode_id_of e = e.inode.inode_id

unfoldable pub create_directories_atomic :
    Store → InodeAllocation → List RecursiveMkdirEntry → ℕ → Result MetadataError Store
unfolding create_batches
create_directories_atomic s allocation entries raft_state = do
  validate_inode_allocation_targets s allocation (map inode_id_of entries)
  ok (record (create_batches entries s) {
    next_inode_id = some allocation.next_inode_id;
    applied = raft_state;
  })

-- unlink_inode_atomic with delete_dentry_inode_batch
unfoldable pub unlink_inode_atomic : Store → InodeId → String → InodeId → Inode → ℕ → Store
unlink_inode_atomic s parent_inode_id name inode_id updated_parent raft_state = record s {
  dentries = remove (parent_inode_id, name) s.dentries;
  inodes = batch_put_inode updated_parent (remove inode_id s.inodes);
  applied = raft_state;
}

unfoldable pub detach_directory_atomic :
    Store → InodeId → String → InodeId → Inode → DetachedRoot → ℕ → Store
detach_directory_atomic s parent_inode_id name root updated_parent detached_root raft_state =
    record s {
      dentries = remove (parent_inode_id, name) s.dentries;
      inodes = batch_put_inode updated_parent s.inodes;
      detached_roots = insert root detached_root s.detached_roots;
      applied = raft_state;
    }

pub record RenameAtomicUpdate : Type 0 where
  pub src_parent_inode_id : InodeId
  pub src_name : String
  pub dst_parent_inode_id : InodeId
  pub dst_name : String
  pub src_inode_id : InodeId
  pub overwritten_target : Option InodeId
  pub updated_src_parent : Option Inode
  pub updated_dst_parent : Option Inode

abbrev pub put_optional : Option Inode → Map InodeId Inode → Map InodeId Inode
put_optional none inodes = inodes
put_optional (some inode) inodes = batch_put_inode inode inodes

abbrev pub remove_optional : Option InodeId → Map InodeId Inode → Map InodeId Inode
remove_optional none inodes = inodes
remove_optional (some k) inodes = remove k inodes

abbrev pub remove_overwritten :
    RenameAtomicUpdate → Map (InodeId × String) InodeId → Map (InodeId × String) InodeId
remove_overwritten u dentries =
    if is_some u.overwritten_target
    then remove (u.dst_parent_inode_id, u.dst_name) dentries
    else dentries

-- rename_atomic with rename_batch
unfoldable pub rename_atomic : Store → RenameAtomicUpdate → ℕ → Store
rename_atomic s u raft_state = record s {
  inodes =
      put_optional u.updated_dst_parent
        (put_optional u.updated_src_parent (remove_optional u.overwritten_target s.inodes));
  dentries =
      insert (u.dst_parent_inode_id, u.dst_name) u.src_inode_id
        (remove (u.src_parent_inode_id, u.src_name) (remove_overwritten u s.dentries));
  applied = raft_state;
}
