-- ===== src/Examples/Values.antt =====
-- Files, publications and commands of the tests (beryl-metadata/src/inode.rs and
-- beryl-metadata/src/raft/state_machine/write.rs).
use vecton.Prelude.{ℕ, [], ◌∷◌, none}
use vecton.Types.Values.{BlockId, CommittedBlock}
use vecton.Inode.{FileData, FilePublication, Inode, file, append_if_unchanged, replace_if_unchanged}
use vecton.Apply.{Store}

abbrev pub block : ℕ → BlockId
block n = record { inode_id = 42; index = n }

abbrev pub sent : ℕ → ℕ → CommittedBlock
sent n len = record { block_id = block n; len = len }

-- Six bytes in blocks of four: a full block and a partial one.
abbrev pub file_data : FileData
file_data = record {
  layout = record { block_size = 4; block_format_id = 2 };
  len = 6;
  generation = 1;
  blocks = block 0 ∷ block 1 ∷ [];
  next_index = 4;
  lease_epoch = 1;
  last_commit = none;
}

-- Appends three bytes: the partial block is filled and one block is new.
abbrev pub append : FilePublication
append = record {
  blocks = sent 1 4 ∷ sent 2 1 ∷ [];
  target_size = 9;
  expected_generation = 1;
  expected_file_size = 6;
  lease_epoch = 1;
  mode = append_if_unchanged;
}

abbrev pub replace : FilePublication
replace = record append {
  blocks = sent 2 4 ∷ sent 3 1 ∷ [];
  target_size = 5;
  mode = replace_if_unchanged;
}

abbrev pub inode : Inode
inode = record {
  inode_id = 42;
  attrs = record { create_time = 1; modify_time = 1 };
  kind = file file_data;
  mount_id = 1;
}

abbrev pub store : Store
store = record {
  inodes = (42, inode) ∷ [];
  dentries = [];
  detached_roots = [];
  mounts = [];
  route_epoch = none;
  mount_epoch = none;
  next_inode_id = none;
  create_file_replays = [];
  create_file_replay_inodes = [];
  create_file_replay_expiry = [];
  create_file_replay_count = none;
  applied = 0;
}
