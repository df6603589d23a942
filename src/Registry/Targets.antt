-- ===== src/Registry/Targets.antt =====
-- The calls that allocate write targets (beryl-metadata/src/session_registry.rs).
use vecton.Prelude.{
  ℕ, ◌+◌, true, false, ◌&&◌, Option, none, some, [], ◌∷◌, ◌++◌, String, eqb, leb, if◌then◌else◌,
  nat_eq, option_eq, ◌==◌, checked_sub, length,
}
use vecton.Prelude.Maps.{get, insert}
use vecton.Prelude.Result.{ok, err, panic, map_err}
use vecton.Prelude.Checked.{◌>>=◌, ◌>>◌, assert, is_none}
use vecton.Types.Layout.{FileLayout}
use vecton.Types.Values.{InodeId, ClientId, LeaseEpoch, BlockId, block_id_eq, LocatedBlock}
use vecton.Registry.{
  SessionRegistryState, opening, active, WriteSession, PendingAllocateBlock, pending_eq, Limits,
}
use vecton.Registry.Entries.{put_session, record_write_target_gauges}
use vecton.Registry.SessionChecks.{
  active_session, allocation_step, replay_target, new_target, BeginAllocateBlockError,
  limit_exceeded, validate_write_target, global,
}
use vecton.Registry.Calls.{Call, attempt, sweep}

-- The owner that `begin_allocate_block` returns.
pub record WriteTargetReservation : Type 0 where
  pub inode_id : InodeId
  pub lease_epoch : LeaseEpoch
  pub pending : PendingAllocateBlock
  pub layout : FileLayout
  pub open_client_id : ClientId
  pub file_offset : ℕ

pub data BeginAllocateBlock : Type 0 where
  replay : LocatedBlock → BeginAllocateBlock
  reserved : WriteTargetReservation → BeginAllocateBlock

-- `begin_allocate_block` where the session accepts a new step.
unfoldable pub reserve_target :
    Limits
    → InodeId
    → WriteSession
    → Option BlockId
    → ℕ
    → SessionRegistryState
    → Call BeginAllocateBlockError BeginAllocateBlock
reserve_target r inode_id x previous file_offset s =
    elim (leb r.max_write_targets s.outstanding_write_targets) [
      | true ↦
          some (s, err (limit_exceeded (record { limit = global; maximum = r.max_write_targets })))
      | false ↦ do
        let pending : PendingAllocateBlock = record { previous_block_id = previous }
        assert (is_none x.pending_allocate_block)
        let s' = put_session inode_id (record x { pending_allocate_block = some pending }) s
        s'' ← record_write_target_gauges (record s' {
          outstanding_write_targets = s.outstanding_write_targets + 1;
          pending_write_targets = s.pending_write_targets + 1;
        })
        some (
          s'',
          ok (
              reserved (record {
                inode_id = inode_id;
                lease_epoch = x.lease_epoch;
                pending = pending;
                layout = x.layout;
                open_client_id = x.open_client_id;
                file_offset = file_offset;
              })),
        )
    ]

unfoldable pub allocate_swept :
    Limits
    → InodeId
    → LeaseEpoch
    → Option BlockId
    → SessionRegistryState
    → Call BeginAllocateBlockError BeginAllocateBlock
allocate_swept r inode_id lease_epoch previous s =
    attempt s (map_err BeginAllocateBlockError.session (active_session s inode_id)) (λ x.
      attempt s (allocation_step r x lease_epoch previous) (λ step. elim step [
        | replay_target target ↦ some (s, ok (replay target))
        | new_target file_offset ↦ reserve_target r inode_id x previous file_offset s
      ]))

unfoldable pub begin_allocate_block :
    Limits
    → InodeId
    → LeaseEpoch
    → Option BlockId
    → ℕ
    → SessionRegistryState
    → Call BeginAllocateBlockError BeginAllocateBlock
begin_allocate_block r inode_id lease_epoch previous now_ms s = do
  s' ← sweep inode_id now_ms s
  allocate_swept r inode_id lease_epoch previous s'

-- The active session whose pending step is the exact one.
unfoldable pub pending_session :
    InodeId → LeaseEpoch → PendingAllocateBlock → SessionRegistryState → Option WriteSession
pending_session inode_id lease_epoch pending s = elim (get inode_id s.entries) [
  | some (active x) ↦
      if eqb x.lease_epoch lease_epoch && x.pending_allocate_block == some pending
      then some x
      else none
  | some (opening o) ↦ none
  | none ↦ none
]

unfoldable pub release_pending :
    InodeId → WriteSession → SessionRegistryState → Option SessionRegistryState
release_pending inode_id x s = do
  outstanding ← checked_sub s.outstanding_write_targets 1
  pending ← checked_sub s.pending_write_targets 1
  let s' = put_session inode_id (record x { pending_allocate_block = none }) s
  record_write_target_gauges
      (record s' { outstanding_write_targets = outstanding; pending_write_targets = pending })

-- cancel_write_target_locked, which `cancel_write_target` calls under the lock.
unfoldable pub cancel_write_target :
    InodeId → LeaseEpoch → PendingAllocateBlock → SessionRegistryState → Option SessionRegistryState
cancel_write_target inode_id lease_epoch pending s =
    elim (pending_session inode_id lease_epoch pending s) [
      | none ↦ some s
      | some x ↦ release_pending inode_id x s
    ]

pub data CompleteWriteTargetError : Type 0 where
  not_current : CompleteWriteTargetError
  invalid_target : String → CompleteWriteTargetError

-- The session with the completed target in place of its pending step.
abbrev pub with_target : WriteSession → PendingAllocateBlock → LocatedBlock → WriteSession
with_target x pending target = record x {
  issued_targets = x.issued_targets ++ target ∷ [];
  issued_steps = insert pending.previous_block_id (length x.issued_targets) x.issued_steps;
  pending_allocate_block = none;
}

unfoldable pub install_target :
    InodeId
    → WriteSession
    → PendingAllocateBlock
    → LocatedBlock
    → SessionRegistryState
    → Call CompleteWriteTargetError LocatedBlock
install_target inode_id x pending target s = do
  assert (is_none (get pending.previous_block_id x.issued_steps))
  left ← checked_sub s.pending_write_targets 1
  s' ← record_write_target_gauges (record (put_session inode_id (with_target x pending target) s) {
    pending_write_targets = left;
  })
  some (s', ok target)

unfoldable pub complete_swept :
    InodeId
    → LeaseEpoch
    → PendingAllocateBlock
    → LocatedBlock
    → SessionRegistryState
    → Call CompleteWriteTargetError LocatedBlock
complete_swept inode_id lease_epoch pending target s =
    elim (pending_session inode_id lease_epoch pending s) [
      | none ↦ some (s, err not_current)
      | some x ↦ elim (validate_write_target x lease_epoch target) [
        | ok _ ↦ install_target inode_id x pending target s
        | err error ↦ do s' ← release_pending inode_id x s; some (s', err (invalid_target error))
        | panic ↦ none
      ]
    ]

unfoldable pub complete_write_target :
    InodeId
    → LeaseEpoch
    → PendingAllocateBlock
    → LocatedBlock
    → ℕ
    → SessionRegistryState
    → Call CompleteWriteTargetError LocatedBlock
complete_write_target inode_id lease_epoch pending target now_ms s = do
  s' ← sweep inode_id now_ms s
  complete_swept inode_id lease_epoch pending target s'
