-- ===== src/Apply/Command.antt =====
-- The commands on one file among those of beryl-metadata/src/raft/command.rs, and their arms in
-- `apply_committed` of beryl-metadata/src/raft/state_machine/mod.rs.
use vecton.Prelude.{ℕ}
use vecton.Prelude.Result.{Result, ok, ◌>>=◌, ok_or}
use vecton.Types.Values.{
  InodeId, ClientId, CallId, LeaseEpoch, ContentGeneration, BlockId, checked_next,
}
use vecton.MetadataError.{MetadataError, invalid_argument}
use vecton.Inode.{FilePublication}
use vecton.Apply.{
  Store, apply_allocate_block, apply_acquire_write_lease, apply_end_write_lease, apply_publish_file,
  apply_commit_file,
}

pub data Command : Type 0 where
  acquire_write_lease : ℕ → InodeId → LeaseEpoch → Command
  allocate_block end_write_lease : InodeId → LeaseEpoch → Command
  publish_file : ℕ → InodeId → FilePublication → Command
  commit_file : ℕ → InodeId → ClientId → CallId → FilePublication → Command

pub data ApplySuccess : Type 0 where
  write_lease_acquired write_lease_ended : InodeId → LeaseEpoch → ApplySuccess
  block_allocated : BlockId → ApplySuccess
  file_published : InodeId → ContentGeneration → ApplySuccess
  file_committed : InodeId → ContentGeneration → LeaseEpoch → ApplySuccess

-- The `match command` of `apply_committed`.
unfoldable pub apply_command : Store → Command → ℕ → Result MetadataError (Store × ApplySuccess)
apply_command s (acquire_write_lease proposed_at_ms inode_id expected) raft_state = do
  (s', lease_epoch) ← apply_acquire_write_lease s inode_id expected proposed_at_ms raft_state
  ok (s', write_lease_acquired inode_id lease_epoch)
apply_command s (allocate_block inode_id lease_epoch) raft_state = do
  (s', block_id) ← apply_allocate_block s inode_id lease_epoch raft_state
  ok (s', block_allocated block_id)
apply_command s (end_write_lease inode_id lease_epoch) raft_state = do
  (s', ended) ← apply_end_write_lease s inode_id lease_epoch raft_state
  ok (s', write_lease_ended inode_id ended)
apply_command s (publish_file proposed_at_ms inode_id p) raft_state = do
  (s', generation) ← apply_publish_file s inode_id p proposed_at_ms raft_state
  ok (s', file_published inode_id generation)
apply_command s (commit_file proposed_at_ms inode_id client_id call_id p) raft_state = do
  ended_epoch ← ok_or (invalid_argument "write lease epoch overflow") (checked_next p.lease_epoch)
  (s', generation) ← apply_commit_file s inode_id (client_id, call_id) p proposed_at_ms raft_state
  ok (s', file_committed inode_id generation ended_epoch)
