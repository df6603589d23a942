-- ===== src/Namespace/Delete.antt =====
-- The Delete command (beryl-metadata/src/raft/state_machine/namespace.rs): its target is resolved
-- again, then unlinked, removed as an empty directory or detached with what is below it.
use vecton.Prelude.{
  ℕ, ◌-◌, Bool, true, false, not, ◌&&◌, ◌||◌, Option, none, some, String, List, [], ◌∷◌, ◌==◌,
  option_eq, nat_eq, eqb, ltb, if◌then◌else◌, length,
}
use vecton.Prelude.Maps.{get}
use vecton.Prelude.Checked.{is_some}
use vecton.Prelude.Result.{Result, ok, panic, ◌>>=◌, ◌>>◌, ok_or, reject_if}
use vecton.Prelude.Text.{codes}
use vecton.Types.Values.{InodeId, MountId, LeaseEpoch}
use vecton.MetadataError.{
  MetadataError, internal, not_found, invalid_argument, not_dir, is_dir as is_dir_error, again,
  cross_mount_rename, directory_not_empty,
}
use vecton.Inode.{Inode, file, dir}
use vecton.Storage.{
  Store, MountEntry, is_dir, get_dentry, get_layout_optional, is_directory_empty, list_mounts,
}
use vecton.Storage.Batches.{unlink_inode_atomic, detach_directory_atomic}
use vecton.Namespace.{touched}
use vecton.Namespace.Paths.{
  validate_relative_components, add_lengths, target_path_bytes, target_path, max_path_bytes,
  mount_prefix_matches_path,
}

-- find(|entry| entry.mount_id == mount_id)
unfoldable pub find_mount : MountId → List MountEntry → Option MountEntry
find_mount mount_id [] = none
find_mount mount_id (m ∷ ms) = if eqb m.mount_id mount_id then some m else find_mount mount_id ms

-- Whether another mount stands at the path or below it.
unfoldable pub contains_mount : MountId → List ℕ → List MountEntry → Bool
contains_mount mount_id path [] = false
contains_mount mount_id path (m ∷ ms) =
    (not (eqb m.mount_id mount_id) && mount_prefix_matches_path path (codes m.mount_prefix))
    || contains_mount mount_id path ms

unfoldable pub is_mount_root : InodeId → List MountEntry → Bool
is_mount_root inode_id [] = false
is_mount_root inode_id (m ∷ ms) = eqb m.root_inode_id inode_id || is_mount_root inode_id ms

-- The loop over the components: each leads to a directory, but the last to the target.
unfoldable pub walk_to_target :
    Store → MountId → Inode → List String → Result MetadataError (InodeId × String × Inode)
unfolding is_mount_root list_mounts
walk_to_target s mount_id parent [] = panic
walk_to_target s mount_id parent (component ∷ components) = do
  child_inode_id ← ok_or (not_found "Entry not found") (get_dentry s parent.inode_id component)
  child ← ok_or (not_found "Child inode not found") (get child_inode_id s.inodes)
  reject_if (not (eqb child.inode_id child_inode_id)) (internal "inode key contains another inode")
  reject_if (not (eqb child.mount_id mount_id))
      (cross_mount_rename "delete path crosses mount authority")
  let deeper = walk_to_target s mount_id child components
  elim components [
    | [] ↦ do
      reject_if (is_mount_root child_inode_id (list_mounts s.mounts))
          (invalid_argument "Cannot delete mount root inode")
      ok (parent.inode_id, component, child)
    | _ ∷ _ ↦ do
      reject_if (not (is_dir child)) (not_dir "Path component is not a directory")
      deeper
  ]

unfoldable pub resolve_delete_target :
    Store → MountId → ℕ → InodeId → List String → Result MetadataError (InodeId × String × Inode)
unfolding find_mount contains_mount list_mounts
resolve_delete_target s mount_id expected_mount_epoch mount_root_inode_id components = do
  validate_relative_components components
  mount ← ok_or (not_found "Mount not found") (find_mount mount_id (list_mounts s.mounts))
  reject_if
      (not (eqb mount.mount_epoch expected_mount_epoch)
        || not (eqb mount.root_inode_id mount_root_inode_id))
      (again "delete mount precondition changed")
  relative_path_bytes ←
      ok_or (invalid_argument "Delete path length overflow")
        (add_lengths (length components - 1) components)
  path_bytes ←
      ok_or (invalid_argument "Delete path length overflow")
        (target_path_bytes mount relative_path_bytes)
  reject_if (ltb max_path_bytes path_bytes) (invalid_argument "Delete path exceeds its bytes")
  reject_if (contains_mount mount_id (target_path mount components) (list_mounts s.mounts))
      (cross_mount_rename "delete target is a mount root or contains a nested mount")
  parent ← ok_or (not_found "Mount root inode not found") (get mount_root_inode_id s.inodes)
  reject_if (not (eqb parent.inode_id mount_root_inode_id))
      (internal "mount root inode key contains another inode")
  reject_if (not (is_dir parent)) (not_dir "Mount root is not a directory")
  reject_if (not (eqb parent.mount_id mount_id))
      (cross_mount_rename "mount root inode belongs to a different mount")
  walk_to_target s mount_id parent components

-- The checks on a file that goes, in `apply_unlink` and where a rename overwrites one.
unfoldable pub check_file_authority : Store → InodeId → Inode → Result MetadataError Unit
check_file_authority s inode_id inode = do
  layout ← (if eqb inode.inode_id inode_id then get_layout_optional s inode_id else ok none)
  reject_if (not (is_some layout)) (internal "file inode has corrupt identity or missing layout")

unfoldable pub apply_unlink : Store → InodeId → String → ℕ → ℕ → Result MetadataError Store
unfolding check_file_authority
apply_unlink s parent_inode_id name proposed_at_ms raft_state = do
  child_inode_id ← ok_or (not_found "Entry not found") (get_dentry s parent_inode_id name)
  child ← ok_or (not_found "Child inode not found") (get child_inode_id s.inodes)
  reject_if (is_dir child) (is_dir_error "Cannot unlink directory")
  parent ← ok_or (internal "Parent inode disappeared") (get parent_inode_id s.inodes)
  check_file_authority s child_inode_id child
  ok (
      unlink_inode_atomic s parent_inode_id name child_inode_id (touched parent proposed_at_ms)
        raft_state)

unfoldable pub apply_delete_empty_dir :
    Store → InodeId → String → ℕ → ℕ → Result MetadataError Store
apply_delete_empty_dir s parent_inode_id name proposed_at_ms raft_state = do
  child_inode_id ← ok_or (not_found "Directory not found") (get_dentry s parent_inode_id name)
  child ← ok_or (not_found "Child inode not found") (get child_inode_id s.inodes)
  reject_if (not (is_dir child)) (not_dir "Not a directory")
  nothing ← is_directory_empty s child_inode_id
  reject_if (not nothing) (directory_not_empty "Directory not empty")
  parent ← ok_or (internal "Parent inode disappeared") (get parent_inode_id s.inodes)
  ok (
      unlink_inode_atomic s parent_inode_id name child_inode_id (touched parent proposed_at_ms)
        raft_state)

unfoldable pub apply_detach_directory :
    Store → InodeId → String → InodeId → ℕ → ℕ → Result MetadataError Store
apply_detach_directory s parent_inode_id name root proposed_at_ms raft_state = do
  current ← ok_or (not_found "Directory not found") (get_dentry s parent_inode_id name)
  reject_if (not (eqb current root)) (again "delete target changed")
  root_inode ← ok_or (not_found "Root inode not found") (get root s.inodes)
  reject_if (not (is_dir root_inode)) (not_dir "Not a directory")
  layout ← (if eqb root_inode.inode_id root then get_layout_optional s root else ok none)
  reject_if (not (eqb root_inode.inode_id root) || is_some layout)
      (internal "directory inode carries file authority")
  reject_if (is_some (get root s.detached_roots))
      (internal "inode is both reachable and already detached")
  parent ← ok_or (internal "Parent inode disappeared") (get parent_inode_id s.inodes)
  reject_if (not (is_dir parent)) (not_dir "Parent is not a directory")
  reject_if (not (eqb parent.mount_id root_inode.mount_id))
      (cross_mount_rename "recursive delete cannot cross mount boundary")
  ok (
      detach_directory_atomic s parent_inode_id name root (touched parent proposed_at_ms)
        (record { mount_id = root_inode.mount_id; detached_at_ms = proposed_at_ms }) raft_state)

-- The lease epoch of a file, none for a directory.
abbrev pub file_lease_epoch : Inode → Option LeaseEpoch
file_lease_epoch i = elim i.kind [ dir ↦ none | file f ↦ some f.lease_epoch ]

unfoldable pub apply_delete :
    Store
    → MountId
    → ℕ
    → InodeId
    → List String
    → InodeId
    → Option LeaseEpoch
    → Bool
    → ℕ
    → ℕ
    → Result MetadataError Store
apply_delete s mount_id mount_epoch mount_root components expected lease recursive now raft_state =
    do
      (parent_inode_id, name, child) ←
          resolve_delete_target s mount_id mount_epoch mount_root components
      reject_if (not (eqb child.inode_id expected)) (again "delete target changed")
      elim (is_dir child) [
        | true ↦ do
          reject_if (is_some lease) (again "delete target lease precondition changed")
          if recursive
              then apply_detach_directory s parent_inode_id name child.inode_id now raft_state
              else apply_delete_empty_dir s parent_inode_id name now raft_state
        | false ↦ do
          reject_if (not (file_lease_epoch child == lease))
              (again "delete target lease precondition changed")
          apply_unlink s parent_inode_id name now raft_state
      ]
