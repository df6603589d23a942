-- ===== src/Registry/Checks.antt =====
-- The tests by which the registry of write sessions accepts or refuses a call
-- (beryl-metadata/src/session_registry.rs). They change no state.
use vecton.Prelude.{
  ℕ, ◌+◌, Bool, not, ◌&&◌, ◌||◌, Option, none, some, List, [], String, eqb, leb, ltb, nat_eq,
  string_eq, pair_eq, option_eq, ◌==◌, if◌then◌else◌, is_empty, length, last, repeats,
}
use vecton.Prelude.Maps.{get}
use vecton.Prelude.Counts.{size, or_zero}
use vecton.Prelude.Checked.{is_some}
use vecton.Prelude.Result.{Result, ok, err, panic, ◌>>=◌, ◌>>◌, ok_or, map_err, reject_if}
use vecton.Types.Layout.{FileLayout}
use vecton.Types.Values.{
  InodeId, MountId, ClientId, LeaseEpoch, block_id_eq, checked_next, WriteMode,
}
use vecton.Registry.{
  SessionRegistryState, WriteSessionEntry, opening, active, CreateOpeningSession,
  CreateFileOperationId, operation_eq, ActiveCreateReplay, CreateSessionReplay, pending_eq, Limits,
}

-- MAX_PATH_COMPONENTS of beryl-metadata/src/path_resolver.rs
abbrev pub max_path_components : ℕ
max_path_components = 256

unfoldable pub validate_ancestor_chain : InodeId → List InodeId → Result String Unit
validate_ancestor_chain inode_id ancestors = do
  reject_if (is_empty ancestors) "write session ancestor chain cannot be empty"
  reject_if (ltb (max_path_components + 1) (length ancestors))
      "write session ancestor chain exceeds the path depth limit"
  reject_if (not (last ancestors == some inode_id))
      "write session ancestor chain must end at the file inode"
  reject_if (repeats [] ancestors) "write session ancestor chain contains a cycle"

unfoldable pub validate_parent_ancestor_chain : List InodeId → Result String Unit
validate_parent_ancestor_chain ancestors = do
  reject_if (is_empty ancestors) "create session parent ancestor chain cannot be empty"
  reject_if (ltb max_path_components (length ancestors))
      "create session parent ancestor chain exceeds the path depth limit"
  reject_if (repeats [] ancestors) "create session parent ancestor chain contains a cycle"

pub data WriteSessionLimit : Type 0 where
  global per_client : WriteSessionLimit

pub record WriteSessionLimitExceeded : Type 0 where
  pub limit : WriteSessionLimit
  pub maximum : ℕ

-- The capacity tests that `begin_session` and `begin_create_session` share.
unfoldable pub session_capacity :
    Limits → SessionRegistryState → ClientId → Result WriteSessionLimitExceeded Unit
session_capacity r s client_id = do
  reject_if (leb r.max_sessions (size s.entries + size s.create_openings))
      (record { limit = global; maximum = r.max_sessions })
  reject_if (leb r.max_sessions_per_client (or_zero (get client_id s.occupied_sessions_by_client)))
      (record { limit = per_client; maximum = r.max_sessions_per_client })

pub record BeginSessionInput : Type 0 where
  pub normalized_path : String
  pub mount_id : MountId
  pub inode_id : InodeId
  pub current_lease_epoch : LeaseEpoch
  pub mode : WriteMode
  pub open_client_id : ClientId
  pub layout : FileLayout
  pub ancestor_inode_ids : List InodeId

pub data BeginSessionError : Type 0 where
  busy lease_epoch_exhausted opening_id_exhausted invalid_ancestor_chain : BeginSessionError
  limit_exceeded : WriteSessionLimitExceeded → BeginSessionError

-- The tests of `begin_session_at` after retirement, with the epoch to propose.
unfoldable pub admit_session :
    Limits → BeginSessionInput → SessionRegistryState → Result BeginSessionError LeaseEpoch
admit_session r input s = do
  reject_if
      (is_some (get input.inode_id s.entries)
        || is_some (get (input.mount_id, input.normalized_path) s.create_openings_by_path))
      busy
  map_err limit_exceeded (session_capacity r s input.open_client_id)
  ok_or lease_epoch_exhausted (checked_next input.current_lease_epoch)

pub record BeginCreateSessionInput : Type 0 where
  pub operation_id : CreateFileOperationId
  pub request_deadline_ms : ℕ
  pub normalized_path : String
  pub mount_id : MountId
  pub expected_mount_epoch : ℕ
  pub mount_root_inode_id : InodeId
  pub open_client_id : ClientId
  pub parent_ancestor_inode_ids : List InodeId

pub data BeginCreateSessionError : Type 0 where
  pending identity_mismatch path_busy opening_id_exhausted invalid_ancestor_chain :
      BeginCreateSessionError
  limit_exceeded : WriteSessionLimitExceeded → BeginCreateSessionError

-- The identity of a request, compared with a replay record or with an opening.
abbrev pub same_request : BeginCreateSessionInput → ℕ → String → MountId → ℕ → InodeId → Bool
same_request input deadline path mount epoch root =
    eqb deadline input.request_deadline_ms
    && path == input.normalized_path
    && eqb mount input.mount_id
    && eqb epoch input.expected_mount_epoch
    && eqb root input.mount_root_inode_id

abbrev pub replays : BeginCreateSessionInput → ActiveCreateReplay → Bool
replays input r =
    same_request input r.request_deadline_ms r.normalized_path r.mount_id r.expected_mount_epoch
      r.mount_root_inode_id

abbrev pub repeats_opening : BeginCreateSessionInput → CreateOpeningSession → Bool
repeats_opening input c =
    same_request input c.request_deadline_ms c.normalized_path c.mount_id c.expected_mount_epoch
      c.mount_root_inode_id

-- The session of an active CreateFile operation, found by its index.
unfoldable pub active_replay :
    CreateFileOperationId
    → Option WriteSessionEntry
    → Result BeginCreateSessionError ActiveCreateReplay
active_replay operation_id none = panic
active_replay operation_id (some (opening o)) = panic
active_replay operation_id (some (active session)) = elim session.create_replay [
  | none ↦ panic
  | some replay ↦ if replay.operation_id == operation_id then ok replay else panic
]

-- The tests of `begin_create_session_at` after retirement: a response to replay, or admission.
unfoldable pub admit_create :
    Limits
    → BeginCreateSessionInput
    → SessionRegistryState
    → Result BeginCreateSessionError (Option CreateSessionReplay)
admit_create r input s = elim (get input.operation_id s.active_create_operations) [
  | some inode_id ↦ do
    replay ← active_replay input.operation_id (get inode_id s.entries)
    reject_if (not (replays input replay)) identity_mismatch
    ok (some replay.response)
  | none ↦ elim (get input.operation_id s.create_openings) [
    | some c ↦ err (if repeats_opening input c then pending else identity_mismatch)
    | none ↦ do
      reject_if (is_some (get (input.mount_id, input.normalized_path) s.create_openings_by_path))
          path_busy
      map_err BeginCreateSessionError.limit_exceeded (session_capacity r s input.open_client_id)
      ok none
  ]
]
