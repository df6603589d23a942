-- ===== src/Namespace/Rename.antt =====
-- The Rename command (beryl-metadata/src/raft/state_machine/namespace.rs), within one mount.
use vecton.Prelude.{
  ℕ, ◌%◌, true, false, not, ◌||◌, Option, none, some, String, ◌==◌, option_eq, nat_eq, eqb,
  if◌then◌else◌,
}
use vecton.Prelude.Maps.{get}
use vecton.Prelude.Checked.{is_some}
use vecton.Prelude.Result.{Result, ok, ◌>>=◌, ◌>>◌, ok_or, reject_if}
use vecton.Types.Values.{InodeId, LeaseEpoch}
use vecton.MetadataError.{
  MetadataError, internal, not_found, not_dir, is_dir as is_dir_error, again, already_exists,
  directory_not_empty,
}
use vecton.Inode.{Inode, file, dir}
use vecton.Storage.{Store, is_dir, get_dentry, get_layout_optional, is_directory_empty}
use vecton.Storage.Batches.{RenameAtomicUpdate, rename_atomic}
use vecton.Namespace.{touched}
use vecton.Namespace.Delete.{file_lease_epoch, check_file_authority}

-- The fields of the Rename command but its time.
pub record RenameRequest : Type 0 where
  pub src_parent_inode_id : InodeId
  pub src_name : String
  pub expected_src_inode_id : InodeId
  pub dst_parent_inode_id : InodeId
  pub dst_name : String
  pub expected_dst_inode_id : Option InodeId
  pub expected_dst_lease_epoch : Option LeaseEpoch
  pub flags : ℕ

unfoldable pub prepare_rename_overwrite_target_cleanup :
    Store → InodeId → Inode → Result MetadataError InodeId
prepare_rename_overwrite_target_cleanup s dst_inode_id dst_inode = elim dst_inode.kind [
  | file _ ↦ do check_file_authority s dst_inode_id dst_inode; ok dst_inode_id
  | dir ↦ do
    nothing ← is_directory_empty s dst_inode_id
    reject_if (not nothing) (directory_not_empty "Cannot overwrite non-empty directory")
    layout ←
        (if eqb dst_inode.inode_id dst_inode_id
          then get_layout_optional s dst_inode_id
          else ok none)
    reject_if (not (eqb dst_inode.inode_id dst_inode_id) || is_some layout)
        (internal "directory inode carries invalid file authority")
    ok dst_inode_id
]

-- A directory overwrites an empty directory, and a file a file.
unfoldable pub check_kinds : Store → Inode → InodeId → Inode → Result MetadataError Unit
check_kinds s src_inode dst_inode_id dst_inode = elim (is_dir src_inode) [
  | true ↦ do
    reject_if (not (is_dir dst_inode)) (not_dir "Cannot overwrite non-directory with directory")
    nothing ← is_directory_empty s dst_inode_id
    reject_if (not nothing) (directory_not_empty "Cannot overwrite non-empty directory")
  | false ↦ reject_if (is_dir dst_inode) (is_dir_error "Cannot overwrite directory with file")
]

-- The checks where the destination exists and is not the source.
unfoldable pub check_destination :
    Store → RenameRequest → Inode → InodeId → Result MetadataError InodeId
unfolding prepare_rename_overwrite_target_cleanup
check_destination s q src_inode dst_inode_id = do
  dst_inode ← ok_or (internal "Destination inode disappeared") (get dst_inode_id s.inodes)
  reject_if (not (file_lease_epoch dst_inode == q.expected_dst_lease_epoch))
      (again "rename destination lease epoch changed")
  check_kinds s src_inode dst_inode_id dst_inode
  prepare_rename_overwrite_target_cleanup s dst_inode_id dst_inode

-- The parents with their new time: both where they differ.
unfoldable pub touched_parents :
    Store → RenameRequest → ℕ → Result MetadataError (Option Inode × Option Inode)
touched_parents s q proposed_at_ms =
    if eqb q.src_parent_inode_id q.dst_parent_inode_id
    then (do
      parent ← ok_or (internal "Parent disappeared") (get q.src_parent_inode_id s.inodes)
      ok (some (touched parent proposed_at_ms), none))
    else (do
      src ← ok_or (internal "Source parent disappeared") (get q.src_parent_inode_id s.inodes)
      dst ← ok_or (internal "Destination parent disappeared") (get q.dst_parent_inode_id s.inodes)
      ok (some (touched src proposed_at_ms), some (touched dst proposed_at_ms)))

abbrev pub rename_update :
    RenameRequest → InodeId → Option InodeId → Option Inode → Option Inode → RenameAtomicUpdate
rename_update q src_inode_id overwritten src_parent dst_parent = record {
  src_parent_inode_id = q.src_parent_inode_id;
  src_name = q.src_name;
  dst_parent_inode_id = q.dst_parent_inode_id;
  dst_name = q.dst_name;
  src_inode_id = src_inode_id;
  overwritten_target = overwritten;
  updated_src_parent = src_parent;
  updated_dst_parent = dst_parent;
}

-- The closure of apply_rename where the destination is free or goes.
unfoldable pub prepare_move :
    Store → RenameRequest → Option InodeId → ℕ → Result MetadataError RenameAtomicUpdate
unfolding touched_parents
prepare_move s q overwritten proposed_at_ms = do
  (src_parent, dst_parent) ← touched_parents s q proposed_at_ms
  ok (rename_update q q.expected_src_inode_id overwritten src_parent dst_parent)

unfoldable pub prepare_rename : Store → RenameRequest → ℕ → Result MetadataError RenameAtomicUpdate
unfolding check_destination
prepare_rename s q proposed_at_ms = do
  src_inode_id ←
      ok_or (not_found "Source not found") (get_dentry s q.src_parent_inode_id q.src_name)
  reject_if (not (eqb src_inode_id q.expected_src_inode_id)) (again "rename source changed")
  let current_dst = get_dentry s q.dst_parent_inode_id q.dst_name
  reject_if (not (current_dst == q.expected_dst_inode_id)) (again "rename destination changed")
  src_inode ← ok_or (not_found "Source inode not found") (get src_inode_id s.inodes)
  elim current_dst [
    | none ↦ prepare_move s q none proposed_at_ms
    | some dst_inode_id ↦ do
      reject_if (eqb (q.flags % 2) 1) (already_exists "Destination exists and RENAME_NOREPLACE set")
      elim (eqb src_inode_id dst_inode_id) [
        | true ↦ ok (rename_update q src_inode_id none none none)
        | false ↦ do
          overwritten ← check_destination s q src_inode dst_inode_id
          prepare_move s q (some overwritten) proposed_at_ms
      ]
  ]

unfoldable pub apply_rename : Store → RenameRequest → ℕ → ℕ → Result MetadataError Store
unfolding prepare_rename
apply_rename s q proposed_at_ms raft_state = do
  update ← prepare_rename s q proposed_at_ms
  ok (rename_atomic s update raft_state)
