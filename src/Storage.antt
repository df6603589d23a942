-- ===== src/Storage.antt =====
-- The replicated state of beryl-metadata/src/raft/storage: the records of mod.rs and what query.rs
-- reads from them. Every column family is a map under its decoded key; a value that cannot be
-- decoded, like a failure of the database, is not modelled. The mount entries are those of
-- beryl-metadata/src/mount/mod.rs.
pub mod Batches
use vecton.Prelude.{
  ℕ, ◌+◌, ◌≡◌, ◌↔◌, Bool, true, false, not, ◌&&◌, ◌||◌, Option, none, some, String, List, [], ◌∷◌,
  ◌==◌, option_eq, nat_eq, string_eq, pair_eq, eqb, ltb, leb, if◌then◌else◌, Map, checked_add, max,
  arith, is_empty, length, first, Eq,
}
use vecton.Prelude.Maps.{get, insert}
use vecton.Prelude.Checked.{is_some}
use vecton.Prelude.Result.{Result, ok, err, panic, ◌>>=◌, ◌>>◌, ok_or, map_err, reject_if}
use vecton.Types.Values.{InodeId, MountId, LeaseEpoch, ContentGeneration}
use vecton.Types.Watermark.{GroupName}
use vecton.Types.Layout.{FileLayout}
use vecton.Types.Layout
use vecton.MetadataError.{MetadataError, internal, not_found}
use vecton.Inode.{Inode, InodeKind, file, dir}
use vecton.Registry.{CreateFileOperationId, operation_eq}

abbrev pub root_mount_prefix : String
root_mount_prefix = "/"

abbrev pub root_inode_id : InodeId
root_inode_id = 1

pub data MountKind : Type 0 where
  internal_mount external_mount : MountKind

abbrev pub is_internal : MountKind → Bool
is_internal internal_mount = true
is_internal external_mount = false

pub data DataIoPolicy : Type 0 where
  allow forbid : DataIoPolicy

abbrev pub is_allow : DataIoPolicy → Bool
is_allow allow = true
is_allow forbid = false

pub record MountEntry : Type 0 where
  pub mount_id : MountId
  pub mount_prefix : String
  pub mount_kind : MountKind
  pub ufs_uri : Option String
  pub data_io_policy : DataIoPolicy
  pub mount_epoch : ℕ
  pub namespace_owner_group_name : GroupName
  pub root_inode_id : InodeId

pub record DetachedRoot : Type 0 where
  pub mount_id : MountId
  pub detached_at_ms : ℕ

pub record InodeAllocation : Type 0 where
  pub inode_id : InodeId
  pub next_inode_id : InodeId

pub record CreateFileReplayRecord : Type 0 where
  pub operation_id : CreateFileOperationId
  pub request_deadline_ms : ℕ
  pub normalized_path : String
  pub parent_inode_id : InodeId
  pub name : String
  pub inode_id : InodeId
  pub mount_id : MountId
  pub expected_mount_epoch : ℕ
  pub mount_root_inode_id : InodeId
  pub relative_components : List String
  pub lease_epoch : LeaseEpoch
  pub layout : FileLayout
  pub generation : ContentGeneration
  pub expires_at_ms : ℕ

-- The column families of STATE_CFS but the workers, with the keys of CF_META one by one, and the
-- applied Raft state.
pub record Store : Type 0 where
  pub inodes : Map InodeId Inode
  pub dentries : Map (InodeId × String) InodeId
  pub detached_roots : Map InodeId DetachedRoot
  pub mounts : Map MountId MountEntry
  pub route_epoch : Option ℕ
  pub mount_epoch : Option ℕ
  pub next_inode_id : Option InodeId
  pub create_file_replays : Map CreateFileOperationId CreateFileReplayRecord
  pub create_file_replay_inodes : Map InodeId CreateFileOperationId
  pub create_file_replay_expiry : Map (ℕ × CreateFileOperationId) Unit
  pub create_file_replay_count : Option ℕ
  pub applied : ℕ

-- Inode::file_type
abbrev pub is_dir : Inode → Bool
is_dir i = elim i.kind [ dir ↦ true | file _ ↦ false ]

abbrev pub get_dentry : Store → InodeId → String → Option InodeId
get_dentry s parent_inode_id name = get (parent_inode_id, name) s.dentries

unfoldable pub get_create_file_replay :
    Store → CreateFileOperationId → Result MetadataError (Option CreateFileReplayRecord)
get_create_file_replay s operation_id = elim (get operation_id s.create_file_replays) [
  | none ↦ ok none
  | some record' ↦ do
    reject_if (not (record'.operation_id == operation_id))
        (internal "CreateFile replay record identity is corrupt")
    ok (some record')
]

unfoldable pub get_create_file_replay_for_inode :
    Store → InodeId → Result MetadataError (Option CreateFileReplayRecord)
unfolding get_create_file_replay
get_create_file_replay_for_inode s inode_id = elim (get inode_id s.create_file_replay_inodes) [
  | none ↦ ok none
  | some operation_id ↦ do
    found ← get_create_file_replay s operation_id
    record' ← ok_or (internal "CreateFile inode replay index has no record") found
    reject_if (not (eqb record'.inode_id inode_id))
        (internal "CreateFile inode replay index names another inode")
    ok (some record')
]

unfoldable pub get_layout_optional : Store → InodeId → Result MetadataError (Option FileLayout)
get_layout_optional s inode_id = elim (get inode_id s.inodes) [
  | none ↦ ok none
  | some i ↦ elim i.kind [
    | dir ↦ ok none
    | file f ↦ do
      map_err (λ _. internal "invalid file layout") (Layout.validate f.layout)
      ok (some f.layout)
  ]
]

unfoldable pub get_layout : Store → InodeId → Result MetadataError FileLayout
unfolding get_layout_optional
get_layout s inode_id = do
  found ← get_layout_optional s inode_id
  ok_or (not_found "Layout not found for inode") found

-- The last key of the inodes.
unfoldable pub max_key : Map InodeId Inode → Option InodeId
max_key [] = none
max_key ((k, _) ∷ m) = elim (max_key m) [ none ↦ some k | some j ↦ some (max k j) ]

unfoldable pub max_inode_id : Store → Result MetadataError (Option InodeId)
unfolding max_key
max_inode_id s = elim (max_key s.inodes) [
  | none ↦ ok none
  | some k ↦ do
    reject_if (eqb k 0) (internal "inode authority contains zero at the allocator high watermark")
    ok (some k)
]

unfoldable pub prepare_inode_allocation : Store → Result MetadataError InodeAllocation
unfolding max_inode_id
prepare_inode_allocation s = do
  inode_id ← ok_or (internal "next_inode_id allocator authority is missing") s.next_inode_id
  reject_if (ltb inode_id 2) (internal "next_inode_id allocator authority is invalid")
  last ← max_inode_id s
  high ← ok_or (internal "next_inode_id allocator exists without inode authority") last
  reject_if (leb inode_id high || is_some (get inode_id s.inodes))
      (internal "next_inode_id allocator is not ahead of inode authority")
  next ← ok_or (internal "inode ID allocator overflow") (checked_add inode_id 1)
  ok (record { inode_id = inode_id; next_inode_id = next })

-- Whether a directory has an entry at all.
unfoldable pub has_entry : InodeId → Map (InodeId × String) InodeId → Bool
has_entry parent_inode_id [] = false
has_entry parent_inode_id (((p, _), _) ∷ m) = eqb p parent_inode_id || has_entry parent_inode_id m

-- The first page of the directory has one entry at most, and the empty name would come first.
unfoldable pub is_directory_empty : Store → InodeId → Result MetadataError Bool
is_directory_empty s parent_inode_id = do
  reject_if (is_some (get_dentry s parent_inode_id ""))
      (internal "Malformed dentry under parent inode")
  ok (not (has_entry parent_inode_id s.dentries))

-- list_mounts
unfoldable pub list_mounts : Map MountId MountEntry → List MountEntry
list_mounts [] = []
list_mounts ((_, e) ∷ m) = e ∷ list_mounts m

pub data BootstrapNamespaceState : Type 0 where
  empty matching conflicting : BootstrapNamespaceState

-- The two tests of bootstrap_namespace_state.
unfoldable pub matching_inode : Option Inode → Bool
matching_inode none = false
matching_inode (some i) = eqb i.inode_id root_inode_id && is_dir i && eqb i.mount_id 1

unfoldable pub matching_mount : GroupName → List MountEntry → Bool
matching_mount expected [] = false
matching_mount expected (m ∷ ms) =
    is_empty ms
    && eqb m.mount_id 1
    && (m.mount_prefix == root_mount_prefix)
    && is_internal m.mount_kind
    && (m.ufs_uri == none)
    && is_allow m.data_io_policy
    && eqb m.mount_epoch 1
    && (m.namespace_owner_group_name == expected)
    && eqb m.root_inode_id root_inode_id

-- The first test of bootstrap_namespace_state; the inodes are scanned last.
unfoldable pub namespace_has_any_state : Store → Result MetadataError Bool
unfolding max_inode_id list_mounts
namespace_has_any_state s =
    if is_some (get root_inode_id s.inodes)
      || not (is_empty (list_mounts s.mounts))
      || is_some s.route_epoch
      || is_some s.mount_epoch
      || is_some s.next_inode_id
    then ok true
    else (do last ← max_inode_id s; ok (is_some last))

unfoldable pub bootstrap_namespace_state :
    Store → GroupName → Result MetadataError BootstrapNamespaceState
unfolding matching_inode matching_mount max_inode_id list_mounts namespace_has_any_state
bootstrap_namespace_state s expected = do
  occupied ← namespace_has_any_state s
  if not occupied
      then ok empty
      else if matching_inode (get root_inode_id s.inodes)
          && matching_mount expected (list_mounts s.mounts)
      then (do
        last ← max_inode_id s
        ok (
            if (last == some root_inode_id)
              && (s.route_epoch == some 1)
              && (s.mount_epoch == some 1)
              && (s.next_inode_id == some 2)
            then matching
            else conflicting))
      else ok conflicting
