-- ===== src/Apply.antt =====
-- beryl-metadata/src/raft/state_machine/write.rs: the commands of the state machine on one file, and
-- how mod.rs and response.rs turn their outcome into a response.
-- The store is that of Storage; these commands read and write its inodes and read the records of
-- CreateFile replay.
pub mod Outcome
pub mod Command
pub mod Step
pub mod Publication
pub mod Files
pub mod Fencing
pub use Outcome.{ApplyRejectionKind, ApplyRejection, FatalApplyError}
unfoldable pub use Outcome.{from_metadata_error, into_metadata_error}
use vecton.Prelude.{
  ℕ, ◌+◌, ◌≡◌, Bool, true, false, not, ◌&&◌, ◌||◌, Option, none, some, String, ◌==◌, option_eq,
  nat_eq, eqb, ltb, if◌then◌else◌, Map, try_u32,
}
use vecton.Prelude.Maps.{get, insert}
use vecton.Prelude.Result.{Result, ok, err, panic, ◌>>=◌, ◌>>◌, ok_or, reject_if}
use vecton.Types.Values.{
  InodeId, ClientId, CallId, LeaseEpoch, ContentGeneration, BlockId, checked_next,
}
pub use vecton.Storage.{Store}
unfoldable pub use vecton.Storage.Batches.{put_inode_atomic, commit_applied_state}
use vecton.Storage.{CreateFileReplayRecord, get_create_file_replay_for_inode}
use vecton.MetadataError.{MetadataError, not_found, invalid_argument, again, lease_fenced, internal}
use vecton.Inode.{
  Inode, InodeKind, file, dir, FileData, FilePublication, FileCommit, validate, file_of,
  matches_visible, merged_blocks, resolve_commit, set_modify_time,
}

-- `file_mut` and an assignment to the file.
unfoldable pub with_file : Inode → FileData → Inode
with_file i f = record i { kind = file f }

-- The checks of `ensure_file_inode_authority`, with the file that they grant.
unfoldable pub ensure_file_inode_authority : InodeId → Inode → Result MetadataError FileData
ensure_file_inode_authority inode_id i = elim i.kind [
  | dir ↦ err (internal "invalid file authority for inode")
  | file f ↦ do
    reject_if (not (eqb i.inode_id inode_id)) (internal "invalid file authority for inode")
    validate inode_id f
    ok f
]

-- How each command begins: the inode of the store and its checked file.
unfoldable pub load_file : Store → InodeId → Result MetadataError (Inode × FileData)
load_file s inode_id = do
  i ← ok_or (not_found "inode") (get inode_id s.inodes)
  f ← ensure_file_inode_authority inode_id i
  ok (i, f)

unfoldable pub apply_allocate_block :
    Store → InodeId → LeaseEpoch → ℕ → Result MetadataError (Store × BlockId)
unfolding with_file put_inode_atomic
apply_allocate_block s inode_id lease_epoch raft_state = do
  (i, f) ← load_file s inode_id
  reject_if (not (eqb f.lease_epoch lease_epoch)) (lease_fenced f.lease_epoch lease_epoch)
  index ← ok_or (invalid_argument "block index exhausted") (try_u32 f.next_index)
  ok (
    put_inode_atomic s (with_file i (record f { next_index = f.next_index + 1 })) raft_state,
    record { inode_id = inode_id; index = index },
  )

-- The record of an unfinished CreateFile owns the first session of its inode until it expires.
unfoldable pub replay_owns : Option CreateFileReplayRecord → FileData → ℕ → Bool
replay_owns none f proposed_at_ms = false
replay_owns (some r) f proposed_at_ms =
    ltb proposed_at_ms r.expires_at_ms
    && eqb f.len 0
    && eqb f.next_index 0
    && eqb f.generation r.generation
    && eqb f.lease_epoch r.lease_epoch

unfoldable pub apply_acquire_write_lease :
    Store → InodeId → LeaseEpoch → ℕ → ℕ → Result MetadataError (Store × LeaseEpoch)
unfolding with_file put_inode_atomic
apply_acquire_write_lease s inode_id expected_lease_epoch proposed_at_ms raft_state = do
  (i, f) ← load_file s inode_id
  replay ← get_create_file_replay_for_inode s inode_id
  reject_if (replay_owns replay f proposed_at_ms)
      (again "CreateFile replay still owns the initial session")
  reject_if (not (eqb f.lease_epoch expected_lease_epoch)) (again "write lease epoch changed")
  next ← ok_or (invalid_argument "write lease epoch overflow") (checked_next f.lease_epoch)
  ok (put_inode_atomic s (with_file i (record f { lease_epoch = next })) raft_state, next)

unfoldable pub apply_end_write_lease :
    Store → InodeId → LeaseEpoch → ℕ → Result MetadataError (Store × LeaseEpoch)
unfolding with_file put_inode_atomic commit_applied_state
apply_end_write_lease s inode_id lease_epoch raft_state = do
  (i, f) ← load_file s inode_id
  next ← ok_or (invalid_argument "write lease epoch overflow") (checked_next lease_epoch)
  if eqb f.lease_epoch next then ok (commit_applied_state s raft_state, next) else do
    reject_if (not (eqb f.lease_epoch lease_epoch)) (lease_fenced f.lease_epoch lease_epoch)
    ok (put_inode_atomic s (with_file i (record f { lease_epoch = next })) raft_state, next)

-- The last part of `prepare_file_publication`, where the content changes.
unfoldable pub publish_content :
    Inode → FileData → FilePublication → ℕ → Result MetadataError (Inode × ContentGeneration × Bool)
unfolding with_file
publish_content i f p proposed_at_ms = do
  blocks ← merged_blocks p i.inode_id f
  generation ← ok_or (invalid_argument "content generation overflow") (checked_next f.generation)
  let f' = record f {
    blocks = blocks;
    len = p.target_size;
    generation = generation;
    last_commit = none;
  }
  ok (record (with_file i f') { attrs = set_modify_time i.attrs proposed_at_ms }, generation, true)

unfoldable pub prepare_file_publication :
    Inode → FilePublication → ℕ → Result MetadataError (Inode × ContentGeneration × Bool)
prepare_file_publication i p proposed_at_ms = do
  f ← file_of i
  reject_if (not (eqb f.lease_epoch p.lease_epoch)) (lease_fenced f.lease_epoch p.lease_epoch)
  matches ← matches_visible p f
  if (checked_next p.expected_generation == some f.generation) && matches
      then ok (i, f.generation, false)
      else do
        reject_if
            (not (eqb f.generation p.expected_generation) || not (eqb f.len p.expected_file_size))
            (again "file publication precondition changed")
        if matches then ok (i, f.generation, false) else publish_content i f p proposed_at_ms

unfoldable pub apply_publish_file :
    Store → InodeId → FilePublication → ℕ → ℕ → Result MetadataError (Store × ContentGeneration)
unfolding put_inode_atomic commit_applied_state
apply_publish_file s inode_id p proposed_at_ms raft_state = do
  (i, _) ← load_file s inode_id
  (i', generation, changed) ← prepare_file_publication i p proposed_at_ms
  ok (
    if changed then put_inode_atomic s i' raft_state else commit_applied_state s raft_state,
    generation,
  )

-- The evidence that a commit leaves in the inode.
unfoldable pub commit_evidence :
    ClientId × CallId → FilePublication → ContentGeneration → FileCommit
commit_evidence (client_id, call_id) p generation = record {
  client_id = client_id;
  call_id = call_id;
  lease_epoch = p.lease_epoch;
  expected_generation = p.expected_generation;
  expected_file_size = p.expected_file_size;
  mode = p.mode;
  committed_size = p.target_size;
  generation = generation;
}

-- `apply_commit_file` where no evidence of the operation is found.
unfoldable pub commit_new :
    Store
    → Inode
    → FileData
    → ClientId × CallId
    → FilePublication
    → ℕ
    → ℕ
    → Result MetadataError (Store × ContentGeneration)
unfolding with_file put_inode_atomic commit_evidence
commit_new s i f operation p proposed_at_ms raft_state = do
  reject_if (not (eqb f.generation p.expected_generation))
      (again "CommitFile generation changed without completion evidence")
  ended_epoch ← ok_or (invalid_argument "write lease epoch overflow") (checked_next p.lease_epoch)
  (i', generation, _) ← prepare_file_publication i p proposed_at_ms
  f' ← file_of i'
  let evidence = commit_evidence operation p generation
  let f'' = record f' { lease_epoch = ended_epoch; last_commit = some evidence }
  ok (put_inode_atomic s (with_file i' f'') raft_state, generation)

unfoldable pub apply_commit_file :
    Store
    → InodeId
    → ClientId × CallId
    → FilePublication
    → ℕ
    → ℕ
    → Result MetadataError (Store × ContentGeneration)
unfolding commit_applied_state
apply_commit_file s inode_id operation p proposed_at_ms raft_state = do
  (i, f) ← load_file s inode_id
  done ← resolve_commit p i operation.0 operation.1
  elim done [
    | some generation ↦ ok (commit_applied_state s raft_state, generation)
    | none ↦ commit_new s i f operation p proposed_at_ms raft_state
  ]
