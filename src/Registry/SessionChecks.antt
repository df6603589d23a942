-- ===== src/Registry/SessionChecks.antt =====
-- The tests on an active session: target allocation, publication and renewal
-- (beryl-metadata/src/session_registry.rs). They change no state.
use vecton.Prelude.{
  ℕ, Bool, true, false, not, ◌&&◌, ◌||◌, Option, none, some, List, String, eqb, leb, nat_eq,
  string_eq, pair_eq, option_eq, ◌==◌, if◌then◌else◌, length, get_elem?, last, checked_add,
}
use vecton.Prelude.Maps.{get}
use vecton.Prelude.Checked.{is_some}
use vecton.Prelude.Result.{Result, ok, err, ◌>>=◌, ◌>>◌, ok_or, map_err, reject_if}
use vecton.Types.Layout.{new_shape, for_effective_len, BlockShape}
use vecton.Types.Values.{
  InodeId, ClientId, LeaseEpoch, ContentGeneration, BlockId, block_id_eq, LocatedBlock,
  checked_next, overwrite, append,
}
use vecton.Registry.{
  SessionRegistryState, opening, active, WriteSession, operation_eq, pending_eq, Limits,
  WritePublicationId,
}

-- active_session_mut
unfoldable pub active_session : SessionRegistryState → InodeId → Result String WriteSession
active_session s inode_id = elim (get inode_id s.entries) [
  | some (active session) ↦ ok session
  | some (opening o) ↦ err "write session is still opening"
  | none ↦ err "write session not found"
]

unfoldable pub next_target_file_offset : WriteSession → Result String ℕ
next_target_file_offset session = elim (last session.issued_targets) [
  | none ↦ ok (elim session.mode [ overwrite ↦ 0 | append ↦ session.base_size ])
  | some target ↦
      ok_or "write target file offset overflow" (checked_add target.file_offset target.block_size)
]

abbrev pub shape_eqb : BlockShape → BlockShape → Bool
shape_eqb a b =
    eqb a.block_format_id b.block_format_id
    && eqb a.block_size b.block_size
    && eqb a.chunk_size b.chunk_size
    && eqb a.effective_len b.effective_len

unfoldable pub validate_write_target : WriteSession → LeaseEpoch → LocatedBlock → Result String Unit
validate_write_target session lease_epoch target = do
  reject_if (not (eqb target.block_id.inode_id session.inode_id)) "write target inode mismatch"
  reject_if
      (not (target.fencing_token.block_id == target.block_id)
        || not (eqb target.fencing_token.owner session.open_client_id)
        || not (eqb target.fencing_token.epoch lease_epoch))
      "write target fencing token mismatch"
  next ← next_target_file_offset session
  reject_if (not (eqb target.file_offset next)) "write target file offset changed"
  target_shape ←
      map_err (λ _. "invalid write target shape")
        (new_shape target.block_format_id target.block_size target.chunk_size target.block_size)
  expected_shape ←
      map_err (λ _. "invalid session layout shape")
        (for_effective_len session.layout session.layout.block_size)
  reject_if (not (shape_eqb target_shape expected_shape))
      "write target shape does not match the session layout"
  reject_if (not (eqb target.write_offset 0)) "new block must start at offset zero"

pub data WriteTargetLimit : Type 0 where
  global per_session : WriteTargetLimit

pub record WriteTargetLimitExceeded : Type 0 where
  pub limit : WriteTargetLimit
  pub maximum : ℕ

pub data BeginAllocateBlockError : Type 0 where
  session internal invalid_argument : String → BeginAllocateBlockError
  pending publication_in_progress : BeginAllocateBlockError
  limit_exceeded : WriteTargetLimitExceeded → BeginAllocateBlockError

-- What the tests on the session find: a target to replay, or the offset of a new one.
pub data AllocationStep : Type 0 where
  replay_target : LocatedBlock → AllocationStep
  new_target : ℕ → AllocationStep

-- last().map(|target| target.block_id)
abbrev pub last_block_id : List LocatedBlock → Option BlockId
last_block_id targets = elim (last targets) [ none ↦ none | some target ↦ some target.block_id ]

-- A step that was not issued yet.
unfoldable pub new_step :
    Limits → WriteSession → Option BlockId → Result BeginAllocateBlockError AllocationStep
new_step r x previous = do
  reject_if (is_some x.active_publication) publication_in_progress
  reject_if (not (previous == last_block_id x.issued_targets))
      (invalid_argument "AllocateBlock predecessor mismatch")
  reject_if (is_some x.pending_allocate_block) pending
  file_offset ← map_err invalid_argument (next_target_file_offset x)
  reject_if (leb r.max_write_targets_per_session (length x.issued_targets))
      (limit_exceeded (record { limit = per_session; maximum = r.max_write_targets_per_session }))
  ok (new_target file_offset)

unfoldable pub allocation_step :
    Limits
    → WriteSession
    → LeaseEpoch
    → Option BlockId
    → Result BeginAllocateBlockError AllocationStep
allocation_step r x lease_epoch previous = do
  reject_if (not (eqb x.lease_epoch lease_epoch)) (session "write session lease epoch mismatch")
  elim (get previous x.issued_steps) [
    | some target_index ↦ do
      target ←
          ok_or (internal "issued AllocateBlock target index is inconsistent")
            (get_elem? x.issued_targets target_index)
      ok (replay_target target)
    | none ↦ new_step r x previous
  ]

pub data BeginWritePublicationError : Type 0 where
  session : String → BeginWritePublicationError
  allocate_block_pending publication_in_progress publication_id_exhausted :
      BeginWritePublicationError

unfoldable pub check_publication :
    WriteSession → LeaseEpoch → Result BeginWritePublicationError Unit
check_publication x lease_epoch = do
  reject_if (not (eqb x.lease_epoch lease_epoch))
      (BeginWritePublicationError.session "write session lease epoch mismatch")
  reject_if (is_some x.pending_allocate_block) allocate_block_pending
  reject_if (is_some x.active_publication) BeginWritePublicationError.publication_in_progress

-- The owner of a publication, as `revalidate_publication` and `complete_sync_publication` ask.
unfoldable pub check_owner : WriteSession → LeaseEpoch → WritePublicationId → Result String Unit
check_owner x lease_epoch publication_id = do
  reject_if (not (eqb x.lease_epoch lease_epoch)) "write session lease epoch mismatch"
  reject_if (not (x.active_publication == some publication_id))
      "write publication is no longer current"

-- What `complete_sync_publication` finds: a repeated result (true) or the next generation (false).
unfoldable pub check_sync : WriteSession → ContentGeneration → ℕ → Result String Bool
check_sync x generation file_size =
    if eqb x.generation generation
    then (do reject_if (not (eqb x.base_size file_size)) "replayed SyncWrite size changed"; ok true)
    else (do
      expected ← ok_or "content generation overflow" (checked_next x.generation)
      reject_if (not (eqb generation expected)) "SyncWrite content generation changed"
      ok false)

pub data WriteSessionError : Type 0 where
  not_found owner_mismatch expired : WriteSessionError
  lease_epoch_mismatch : LeaseEpoch → LeaseEpoch → WriteSessionError

-- The session that `validate_session` and `renew_session_at` ask for.
unfoldable pub owned_session :
    SessionRegistryState → InodeId → LeaseEpoch → Result WriteSessionError WriteSession
owned_session s inode_id lease_epoch = elim (get inode_id s.entries) [
  | some (active x) ↦ do
    reject_if (not (eqb x.lease_epoch lease_epoch)) (lease_epoch_mismatch x.lease_epoch lease_epoch)
    ok x
  | some (opening o) ↦ err not_found
  | none ↦ err not_found
]

unfoldable pub renewable_session :
    SessionRegistryState → InodeId → LeaseEpoch → ClientId → Result WriteSessionError WriteSession
renewable_session s inode_id lease_epoch client_id = do
  x ← owned_session s inode_id lease_epoch
  reject_if (not (eqb x.open_client_id client_id)) owner_mismatch
  ok x
