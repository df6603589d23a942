-- ===== src/Examples/Tree.antt =====
-- Stores of the tests of the namespace (beryl-metadata/src/raft/state_machine/namespace.rs).
use vecton.Prelude.{ℕ, true, [], ◌∷◌, none, some}
use vecton.Types.Values.{InodeId}
use vecton.Types.Layout.{FileLayout}
use vecton.Inode.{Inode, InodeKind, FileData, dir, file}
use vecton.Registry.{CreateFileOperationId}
use vecton.Storage.{Store, CreateFileReplayRecord}
use vecton.Namespace.{root_mount}
use vecton.Namespace.Create.{CreateFileRequest}
use vecton.Namespace.Rename.{RenameRequest}
use vecton.StateMachine.{DeleteRequest}

abbrev pub blank : Store
blank = record {
  inodes = [];
  dentries = [];
  detached_roots = [];
  mounts = [];
  route_epoch = none;
  mount_epoch = none;
  next_inode_id = none;
  create_file_replays = [];
  create_file_replay_inodes = [];
  create_file_replay_expiry = [];
  create_file_replay_count = none;
  applied = 0;
}

abbrev pub inode_of : InodeId → InodeKind → ℕ → ℕ → Inode
inode_of k kind created modified = record {
  inode_id = k;
  attrs = record { create_time = created; modify_time = modified };
  kind = kind;
  mount_id = 1;
}

abbrev pub booted : Store
booted = record blank {
  inodes = (1, inode_of 1 dir 10 10) ∷ [];
  mounts = (1, root_mount "root") ∷ [];
  route_epoch = some 1;
  mount_epoch = some 1;
  next_inode_id = some 2;
  applied = 1;
}

-- /a and /a/b
abbrev pub with_directories : Store
with_directories = record booted {
  inodes = (1, inode_of 1 dir 10 20) ∷ (2, inode_of 2 dir 20 20) ∷ (3, inode_of 3 dir 20 20) ∷ [];
  dentries = ((1, "a"), 2) ∷ ((2, "b"), 3) ∷ [];
  next_inode_id = some 4;
  applied = 2;
}

abbrev pub file_layout : FileLayout
file_layout = record { block_size = 4; block_format_id = 2 }

abbrev pub operation : CreateFileOperationId
operation = record { client_id = 5; call_id = 6 }

-- The creation of /a/f.
abbrev pub new_request : CreateFileRequest
new_request = record {
  operation_id = operation;
  request_deadline_ms = 100;
  session_expires_at_ms = 90;
  normalized_path = "/a/f";
  mount_id = 1;
  expected_mount_epoch = 1;
  mount_root_inode_id = 1;
  relative_components = "a" ∷ "f" ∷ [];
  attrs = record { create_time = 0; modify_time = 0 };
  layout = file_layout;
}

abbrev pub new_record : CreateFileReplayRecord
new_record = record {
  operation_id = operation;
  request_deadline_ms = 100;
  normalized_path = "/a/f";
  parent_inode_id = 2;
  name = "f";
  inode_id = 4;
  mount_id = 1;
  expected_mount_epoch = 1;
  mount_root_inode_id = 1;
  relative_components = "a" ∷ "f" ∷ [];
  lease_epoch = 1;
  layout = file_layout;
  generation = 0;
  expires_at_ms = 90;
}

abbrev pub empty_file : FileData
empty_file = record {
  layout = file_layout;
  len = 0;
  generation = 0;
  blocks = [];
  next_index = 0;
  lease_epoch = 1;
  last_commit = none;
}

abbrev pub created_file : Store
created_file = record with_directories {
  inodes =
      (1, inode_of 1 dir 10 20)
      ∷ (2, inode_of 2 dir 20 30)
      ∷ (3, inode_of 3 dir 20 20)
      ∷ (4, inode_of 4 (file empty_file) 30 30)
      ∷ [];
  dentries = ((1, "a"), 2) ∷ ((2, "b"), 3) ∷ ((2, "f"), 4) ∷ [];
  next_inode_id = some 5;
  create_file_replays = (operation, new_record) ∷ [];
  create_file_replay_inodes = (4, operation) ∷ [];
  create_file_replay_expiry = ((90, operation), tt) ∷ [];
  create_file_replay_count = some 1;
  applied = 3;
}

-- /a/f becomes /a/b/g.
abbrev pub move_request : RenameRequest
move_request = record {
  src_parent_inode_id = 2;
  src_name = "f";
  expected_src_inode_id = 4;
  dst_parent_inode_id = 3;
  dst_name = "g";
  expected_dst_inode_id = none;
  expected_dst_lease_epoch = none;
  flags = 0;
}

abbrev pub with_move : Store
with_move = record created_file {
  inodes =
      (1, inode_of 1 dir 10 20)
      ∷ (2, inode_of 2 dir 20 40)
      ∷ (3, inode_of 3 dir 20 40)
      ∷ (4, inode_of 4 (file empty_file) 30 30)
      ∷ [];
  dentries = ((1, "a"), 2) ∷ ((2, "b"), 3) ∷ ((3, "g"), 4) ∷ [];
  applied = 4;
}

abbrev pub delete_request : DeleteRequest
delete_request = record {
  mount_id = 1;
  expected_mount_epoch = 1;
  mount_root_inode_id = 1;
  relative_components = "a" ∷ [];
  expected_inode_id = 2;
  expected_file_lease_epoch = none;
  recursive = true;
}

abbrev pub without_directory : Store
without_directory = record with_move {
  inodes =
      (1, inode_of 1 dir 10 50)
      ∷ (2, inode_of 2 dir 20 40)
      ∷ (3, inode_of 3 dir 20 40)
      ∷ (4, inode_of 4 (file empty_file) 30 30)
      ∷ [];
  dentries = ((2, "b"), 3) ∷ ((3, "g"), 4) ∷ [];
  detached_roots = (2, record { mount_id = 1; detached_at_ms = 50 }) ∷ [];
  applied = 5;
}
