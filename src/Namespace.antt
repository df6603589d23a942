-- ===== src/Namespace.antt =====
-- beryl-metadata/src/raft/state_machine/namespace.rs: the commands that change the namespace, on the
-- replicated state of Storage. Paths, Delete, Rename and Create hold the other commands.
pub mod Paths
pub mod Delete
pub mod Rename
pub mod Create
pub mod Tree
use vecton.Prelude.{
  ℕ, ◌+◌, ◌≡◌, Bool, true, false, not, ◌&&◌, ◌||◌, Option, none, some, String, List, [], ◌∷◌, ◌++◌,
  ◌==◌, option_eq, nat_eq, string_eq, eqb, ltb, leb, if◌then◌else◌, checked_add, max, is_empty,
}
use vecton.Prelude.Maps.{get}
use vecton.Prelude.Checked.{is_some}
use vecton.Prelude.Result.{Result, ok, err, ◌>>=◌, ◌>>◌, ok_or, reject_if}
use vecton.Types.Values.{InodeId, MountId}
use vecton.Types.Watermark.{GroupName}
use vecton.Types.Layout.{FileLayout}
use vecton.MetadataError.{
  MetadataError, internal, not_found, invalid_argument, not_dir, already_exists,
}
use vecton.Inode.{Inode, InodeAttrs, file, dir, initialize, set_modify_time}
use vecton.Storage.{
  Store, MountEntry, internal_mount, allow, is_dir, get_dentry, prepare_inode_allocation,
  bootstrap_namespace_state, empty, matching, conflicting, root_mount_prefix, root_inode_id,
}
use vecton.Storage.Batches.{
  commit_applied_state, bootstrap_namespace_atomic, create_dir_atomic, create_directories_atomic,
  RecursiveMkdirEntry,
}

-- InodeAttrs::new
abbrev pub new_attrs : InodeAttrs
new_attrs = record { create_time = 0; modify_time = 0 }

-- Inode::new_dir
abbrev pub new_dir : InodeId → InodeAttrs → MountId → Inode
new_dir inode_id attrs mount_id = record {
  inode_id = inode_id;
  attrs = attrs;
  kind = dir;
  mount_id = mount_id;
}

-- Inode::new_file
abbrev pub new_file : InodeId → InodeAttrs → MountId → FileLayout → Inode
new_file inode_id attrs mount_id layout = record {
  inode_id = inode_id;
  attrs = attrs;
  kind = file (record {
    layout = layout;
    len = 0;
    generation = 0;
    blocks = [];
    next_index = 0;
    lease_epoch = 0;
    last_commit = none;
  });
  mount_id = mount_id;
}

abbrev pub mutation_timestamp : Inode → ℕ → ℕ
mutation_timestamp inode proposed_at_ms = max proposed_at_ms inode.attrs.modify_time

-- A clone of a directory with its time of modification moved on.
unfoldable pub touched : Inode → ℕ → Inode
unfolding set_modify_time
touched inode proposed_at_ms = record inode {
  attrs = set_modify_time inode.attrs (mutation_timestamp inode proposed_at_ms);
}

abbrev pub root_mount : GroupName → MountEntry
root_mount group_name = record {
  mount_id = 1;
  mount_prefix = root_mount_prefix;
  mount_kind = internal_mount;
  ufs_uri = none;
  data_io_policy = allow;
  mount_epoch = 1;
  namespace_owner_group_name = group_name;
  root_inode_id = root_inode_id;
}

unfoldable pub apply_bootstrap_namespace :
    Store → GroupName → ℕ → ℕ → Result MetadataError (Store × MountEntry)
unfolding initialize
apply_bootstrap_namespace s group_name proposed_at_ms raft_state = do
  state ← bootstrap_namespace_state s group_name
  elim state [
    | conflicting ↦ err (
        invalid_argument
          "metadata namespace is partially initialized or conflicts with writable root bootstrap")
    | matching ↦ ok (commit_applied_state s raft_state, root_mount group_name)
    | empty ↦ ok (
      bootstrap_namespace_atomic s (new_dir root_inode_id (initialize new_attrs proposed_at_ms) 1)
          (root_mount group_name) raft_state,
      root_mount group_name,
    )
  ]

unfoldable pub apply_mkdir :
    Store
    → InodeId
    → String
    → InodeAttrs
    → ℕ
    → ℕ
    → Result MetadataError (Store × InodeId × InodeAttrs)
unfolding initialize
apply_mkdir s parent_inode_id name attrs proposed_at_ms raft_state = do
  parent ← ok_or (not_found "Parent inode not found") (get parent_inode_id s.inodes)
  reject_if (not (is_dir parent)) (not_dir "Parent is not a directory")
  reject_if (is_some (get_dentry s parent_inode_id name))
      (already_exists "Directory already exists")
  allocation ← prepare_inode_allocation s
  let inode = new_dir allocation.inode_id (initialize attrs proposed_at_ms) parent.mount_id
  s' ←
      create_dir_atomic s allocation parent_inode_id name inode (touched parent proposed_at_ms)
        raft_state
  ok (s', inode.inode_id, inode.attrs)

-- The loop of apply_create_directory along the components: the directory where it stands, the next
-- free inode and the entries so far.
unfoldable pub walk_components :
    Store
    → InodeAttrs
    → ℕ
    → Inode
    → ℕ
    → List RecursiveMkdirEntry
    → List String
    → Result MetadataError (Inode × ℕ × List RecursiveMkdirEntry)
unfolding initialize
walk_components s attrs proposed_at_ms parent next_raw entries [] = ok (parent, next_raw, entries)
walk_components s attrs proposed_at_ms parent next_raw entries (name ∷ components) =
    elim (get_dentry s parent.inode_id name) [
      | some child_inode_id ↦ do
        child ← ok_or (not_found "Target inode not found") (get child_inode_id s.inodes)
        reject_if (not (is_dir child)) (not_dir "Path component is not a directory")
        walk_components s attrs proposed_at_ms child next_raw entries components
      | none ↦ do
        next ← ok_or (internal "inode ID allocator overflow") (checked_add next_raw 1)
        let child = new_dir next_raw (initialize attrs proposed_at_ms) parent.mount_id
        let entry : RecursiveMkdirEntry = record {
          parent_inode_id = parent.inode_id;
          name = name;
          inode = child;
          updated_parent = touched parent proposed_at_ms;
        }
        walk_components s attrs proposed_at_ms child next (entries ++ (entry ∷ [])) components
    ]

abbrev pub has_empty_component : List String → Bool
has_empty_component [] = false
has_empty_component (c ∷ cs) = (c == "") || has_empty_component cs

unfoldable pub apply_create_directory :
    Store
    → InodeId
    → List String
    → InodeAttrs
    → ℕ
    → ℕ
    → Result MetadataError (Store × InodeId × InodeAttrs)
unfolding walk_components
apply_create_directory s root components attrs proposed_at_ms raft_state = do
  reject_if (is_empty components || has_empty_component components)
      (invalid_argument "CreateDirectory requires non-empty path components")
  parent ← ok_or (not_found "Root inode not found") (get root s.inodes)
  reject_if (not (is_dir parent)) (not_dir "Root is not a directory")
  allocation ← prepare_inode_allocation s
  (last, next_raw, entries) ←
      walk_components s attrs proposed_at_ms parent allocation.inode_id [] components
  s' ←
      if is_empty entries
      then ok (commit_applied_state s raft_state)
      else create_directories_atomic s (record allocation { next_inode_id = next_raw }) entries
          raft_state
  ok (s', last.inode_id, last.attrs)
