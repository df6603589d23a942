-- ===== src/Namespace/Create.antt =====
-- The CreateFile command (beryl-metadata/src/raft/state_machine/namespace.rs), which creates a file,
-- its first write lease and its replay record in one commit.
use vecton.Prelude.{
  ℕ, Bool, not, ◌||◌, none, some, String, List, [], ◌∷◌, ◌==◌, option_eq, nat_eq, string_eq,
  list_eq, eqb, ltb, leb, is_empty,
}
use vecton.Prelude.Maps.{get}
use vecton.Prelude.Checked.{is_some}
use vecton.Prelude.Result.{Result, ok, err, panic, ◌>>=◌, ◌>>◌, ok_or, reject_if, map_err}
use vecton.Types.Values.{InodeId, MountId}
use vecton.Types.Layout.{FileLayout, file_layout_eqb}
use vecton.Types.Layout
use vecton.MetadataError.{
  MetadataError, internal, not_found, invalid_argument, not_dir, again, already_exists,
  lease_fenced,
}
use vecton.Inode.{Inode, InodeAttrs, FileData, file, dir, initialize}
use vecton.Registry.{CreateFileOperationId, operation_eq}
use vecton.Storage.{
  Store, CreateFileReplayRecord, is_dir, get_dentry, get_layout, get_create_file_replay,
  prepare_inode_allocation,
}
use vecton.Storage.Batches.{commit_applied_state, create_file_atomic}
use vecton.Namespace.{new_file, touched}
use vecton.Namespace.Paths.{validate_relative_components}

-- What a CreateFile command carries beside its attributes and times.
pub record CreateFileRequest : Type 0 where
  pub operation_id : CreateFileOperationId
  pub request_deadline_ms : ℕ
  pub session_expires_at_ms : ℕ
  pub normalized_path : String
  pub mount_id : MountId
  pub expected_mount_epoch : ℕ
  pub mount_root_inode_id : InodeId
  pub relative_components : List String
  pub attrs : InodeAttrs
  pub layout : FileLayout

-- The loop over the parent components, from the root of the mount to the parent of the last one.
unfoldable pub walk_to_parent :
    Store → MountId → Inode → List String → Result MetadataError (InodeId × String × Inode)
walk_to_parent s mount_id parent [] = panic
walk_to_parent s mount_id parent (name ∷ []) = ok (parent.inode_id, name, parent)
walk_to_parent s mount_id parent (component ∷ next ∷ components) = do
  child_inode_id ← ok_or (not_found "Entry not found") (get_dentry s parent.inode_id component)
  child ← ok_or (not_found "Child inode not found") (get child_inode_id s.inodes)
  reject_if (not (eqb child.inode_id child_inode_id) || not (eqb child.mount_id mount_id))
      (internal "CreateFile parent path authority is corrupt")
  reject_if (not (is_dir child)) (not_dir "Path component is not a directory")
  walk_to_parent s mount_id child (next ∷ components)

unfoldable pub resolve_create_parent :
    Store → MountId → ℕ → InodeId → List String → Result MetadataError (InodeId × String × Inode)
unfolding walk_to_parent
resolve_create_parent s mount_id expected_mount_epoch mount_root_inode_id components = do
  validate_relative_components components
  mount ← ok_or (not_found "Mount not found") (get mount_id s.mounts)
  reject_if
      (not (eqb mount.mount_epoch expected_mount_epoch)
        || not (eqb mount.root_inode_id mount_root_inode_id))
      (again "CreateFile mount precondition changed")
  parent ← ok_or (not_found "Mount root inode not found") (get mount_root_inode_id s.inodes)
  reject_if
      (not (eqb parent.inode_id mount_root_inode_id)
        || not (eqb parent.mount_id mount_id)
        || not (is_dir parent))
      (internal "CreateFile mount root authority is corrupt")
  walk_to_parent s mount_id parent components

-- The checks of validate_create_file_replay on the file that it finds.
unfoldable pub check_initial_file : FileData → CreateFileReplayRecord → Result MetadataError Unit
check_initial_file f r = do
  reject_if (not (eqb f.lease_epoch r.lease_epoch)) (lease_fenced f.lease_epoch r.lease_epoch)
  reject_if
      (not (is_empty f.blocks)
        || not (eqb f.generation r.generation)
        || not (eqb f.next_index 0)
        || not (eqb f.len 0))
      (already_exists "replayed CreateFile result no longer owns the initial file state")

unfoldable pub validate_create_file_replay :
    Store → CreateFileReplayRecord → ℕ → Result MetadataError Unit
unfolding check_initial_file
validate_create_file_replay s r proposed_at_ms = do
  reject_if (leb r.expires_at_ms proposed_at_ms)
      (again "replayed CreateFile write session has expired")
  (parent_inode_id, name, _) ←
      resolve_create_parent s r.mount_id r.expected_mount_epoch r.mount_root_inode_id
        r.relative_components
  reject_if (not (eqb parent_inode_id r.parent_inode_id) || not (name == r.name))
      (again "replayed CreateFile path authority changed")
  reject_if (not (get_dentry s r.parent_inode_id r.name == some r.inode_id))
      (already_exists "replayed CreateFile target no longer names its original inode")
  inode ← ok_or (not_found "CreateFile inode not found") (get r.inode_id s.inodes)
  reject_if
      (not (eqb inode.inode_id r.inode_id) || not (eqb inode.mount_id r.mount_id) || is_dir inode)
      (internal "replayed CreateFile inode authority is corrupt")
  elim inode.kind [
    | dir ↦ err (internal "replayed CreateFile inode payload is not a file")
    | file f ↦ check_initial_file f r
  ]
  layout ← get_layout s r.inode_id
  reject_if (not (file_layout_eqb layout r.layout))
      (internal "replayed CreateFile layout authority changed")

-- The comparison of a request with the record of its operation.
abbrev pub same_request : CreateFileReplayRecord → CreateFileRequest → Bool
same_request r q = not (
    not (eqb r.request_deadline_ms q.request_deadline_ms)
    || not (r.normalized_path == q.normalized_path)
    || not (eqb r.mount_id q.mount_id)
    || not (eqb r.expected_mount_epoch q.expected_mount_epoch)
    || not (eqb r.mount_root_inode_id q.mount_root_inode_id)
    || not (r.relative_components == q.relative_components))

-- The branch of apply_create where the operation has a record.
unfoldable pub replay_create :
    Store
    → CreateFileReplayRecord
    → CreateFileRequest
    → ℕ
    → ℕ
    → Result MetadataError (Store × CreateFileReplayRecord)
replay_create s r q proposed_at_ms raft_state = do
  reject_if (not (same_request r q))
      (invalid_argument "CreateFile operation identity was reused with a different request")
  validate_create_file_replay s r proposed_at_ms
  ok (commit_applied_state s raft_state, r)

-- The file with the lease of the session that creates it.
abbrev pub leased : InodeId → InodeAttrs → MountId → FileLayout → Inode
leased inode_id attrs mount_id layout = record (new_file inode_id attrs mount_id layout) {
  kind = file (record {
    layout = layout;
    len = 0;
    generation = 0;
    blocks = [];
    next_index = 0;
    lease_epoch = 1;
    last_commit = none;
  });
}

abbrev pub replay_record : CreateFileRequest → InodeId → String → InodeId → CreateFileReplayRecord
replay_record q parent_inode_id name inode_id = record {
  operation_id = q.operation_id;
  request_deadline_ms = q.request_deadline_ms;
  normalized_path = q.normalized_path;
  parent_inode_id = parent_inode_id;
  name = name;
  inode_id = inode_id;
  mount_id = q.mount_id;
  expected_mount_epoch = q.expected_mount_epoch;
  mount_root_inode_id = q.mount_root_inode_id;
  relative_components = q.relative_components;
  lease_epoch = 1;
  layout = q.layout;
  generation = 0;
  expires_at_ms = q.session_expires_at_ms;
}

-- The branch of apply_create for an operation without a record.
unfoldable pub create_new :
    Store → CreateFileRequest → ℕ → ℕ → Result MetadataError (Store × CreateFileReplayRecord)
unfolding initialize
create_new s q proposed_at_ms raft_state = do
  reject_if (ltb q.request_deadline_ms proposed_at_ms)
      (invalid_argument "CreateFile request deadline expired before proposal")
  reject_if (leb q.session_expires_at_ms proposed_at_ms)
      (again "CreateFile write session expired before proposal")
  map_err (λ _. invalid_argument "invalid CreateFile layout") (Layout.validate q.layout)
  (parent_inode_id, name, parent) ←
      resolve_create_parent s q.mount_id q.expected_mount_epoch q.mount_root_inode_id
        q.relative_components
  reject_if (is_some (get_dentry s parent_inode_id name)) (already_exists "File already exists")
  allocation ← prepare_inode_allocation s
  let inode =
      leased allocation.inode_id (initialize q.attrs proposed_at_ms) parent.mount_id q.layout
  let r = replay_record q parent_inode_id name allocation.inode_id
  s' ←
      create_file_atomic s allocation parent_inode_id name inode (touched parent proposed_at_ms) r
        proposed_at_ms raft_state
  ok (s', r)

unfoldable pub apply_create :
    Store → CreateFileRequest → ℕ → ℕ → Result MetadataError (Store × CreateFileReplayRecord)
unfolding replay_create create_new
apply_create s q proposed_at_ms raft_state = do
  found ← get_create_file_replay s q.operation_id
  elim found [
    | some r ↦ replay_create s r q proposed_at_ms raft_state
    | none ↦ create_new s q proposed_at_ms raft_state
  ]
