-- ===== src/Registry/Requests.antt =====
-- The calls of the registry as requests, and the states that runs of them reach
-- (beryl-metadata/src/session_registry.rs). The drop of an owner is a request too.
use vecton.Prelude.{ℕ, ◌≡◌, Option, none, some}
use vecton.Types.Layout.{FileLayout}
use vecton.Types.Values.{InodeId, ClientId, LeaseEpoch, ContentGeneration, LocatedBlock, BlockId}
use vecton.Inode.{FileData}
use vecton.Registry.{
  SessionRegistryState, default_state, CreateFileOperationId, Limits, WriteOpeningId,
  WritePublicationId, PendingAllocateBlock,
}
use vecton.Registry.Retire.{retire_expired_entries}
use vecton.Registry.Checks.{BeginSessionInput, BeginCreateSessionInput}
use vecton.Registry.Opening.{begin_session_at, activate_opening, cancel_opening}
use vecton.Registry.Creating.{
  begin_create_session_at, activate_create_opening, cancel_create_opening,
}
use vecton.Registry.Targets.{begin_allocate_block, complete_write_target, cancel_write_target}
use vecton.Registry.Publishing.{
  WritePublication, begin_publication, mark_submitted, revalidate_publication,
  complete_sync_publication, complete_commit_publication, drop_publication,
}
use vecton.Registry.Lookup.{
  get_session, get_session_identity, remove_session_if_epoch, validate_session, renew_session_at,
  has_active_write_under_at,
}
use vecton.Registry.Valid.Syncing.{Agrees}

-- A request carries the time of its call where the call reads the clock.
pub data Request : Type 0 where
  begin_session : BeginSessionInput → ℕ → Request
  activate : InodeId → WriteOpeningId → LeaseEpoch → ℕ → FileData → Option LocatedBlock → Request
  drop_opening : InodeId → WriteOpeningId → Request
  begin_create : BeginCreateSessionInput → ℕ → Request
  activate_create :
      CreateFileOperationId
      → WriteOpeningId
      → InodeId
      → LeaseEpoch
      → ℕ
      → FileLayout
      → ContentGeneration
      → ℕ
      → Request
  drop_create : CreateFileOperationId → WriteOpeningId → Request
  allocate : InodeId → LeaseEpoch → Option BlockId → ℕ → Request
  complete_target : InodeId → LeaseEpoch → PendingAllocateBlock → LocatedBlock → ℕ → Request
  drop_target : InodeId → LeaseEpoch → PendingAllocateBlock → Request
  publish : InodeId → LeaseEpoch → ℕ → Request
  submit : WritePublication → ℕ → Request
  revalidate : InodeId → LeaseEpoch → WritePublicationId → ℕ → Request
  sync : InodeId → LeaseEpoch → WritePublicationId → ContentGeneration → ℕ → ℕ → Request
  commit : InodeId → LeaseEpoch → WritePublicationId → Request
  drop_owner : WritePublication → Request
  lookup identify has_write : InodeId → ℕ → Request
  end_session : InodeId → LeaseEpoch → Request
  validate : InodeId → LeaseEpoch → ℕ → Request
  renew : InodeId → LeaseEpoch → ClientId → ℕ → Request
  retire : ℕ → Request

abbrev pub state_of : {A : Type 0} → Option (SessionRegistryState × A) → Option SessionRegistryState
state_of none = none
state_of (some (s, _)) = some s

-- The state after a request; `none` is a panic.
unfoldable pub perform : Limits → Request → SessionRegistryState → Option SessionRegistryState
perform r (begin_session input now) s = state_of (begin_session_at r input now s)
perform r (activate k id e now file tail) s = state_of (activate_opening r k id e now file tail s)
perform r (drop_opening k id) s = cancel_opening k id s
perform r (begin_create input now) s = state_of (begin_create_session_at r input now s)
perform r (activate_create o id k e expires layout g now) s =
    state_of (activate_create_opening o id k e expires layout g now s)
perform r (drop_create o id) s = cancel_create_opening o id s
perform r (allocate k e p now) s = state_of (begin_allocate_block r k e p now s)
perform r (complete_target k e p target now) s = state_of (complete_write_target k e p target now s)
perform r (drop_target k e p) s = cancel_write_target k e p s
perform r (publish k e now) s = state_of (begin_publication k e now s)
perform r (submit p now) s = state_of (mark_submitted p now s)
perform r (revalidate k e p now) s = state_of (revalidate_publication k e p now s)
perform r (sync k e p g size now) s = state_of (complete_sync_publication k e p g size now s)
perform r (commit k e p) s = complete_commit_publication k e p s
perform r (drop_owner p) s = some (drop_publication p s)
perform r (lookup k now) s = state_of (get_session k now s)
perform r (identify k now) s = state_of (get_session_identity k now s)
perform r (has_write k now) s = state_of (has_active_write_under_at k now s)
perform r (end_session k e) s = state_of (remove_session_if_epoch k e s)
perform r (validate k e now) s = state_of (validate_session k e now s)
perform r (renew k e c now) s = state_of (renew_session_at r k e c now s)
perform r (retire now) s = state_of (retire_expired_entries now s)

-- What a request asks of its owner: only the submission asks something, that the owner knows whether
-- it has been submitted.
abbrev pub Allowed : Request → SessionRegistryState → Type 0
Allowed (submit p now) s = Agrees p s
Allowed _ s = Unit

-- The states that requests lead to, from the empty registry on.
pub data Reachable (r : Limits) : SessionRegistryState → Type 0 where
  start : Reachable r default_state
  next :
      (s s' : SessionRegistryState)
      → (q : Request) → Reachable r s
      → Allowed q s
      → perform r q s ≡ some s'
      → Reachable r s'
