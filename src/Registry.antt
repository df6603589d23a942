-- ===== src/Registry.antt =====
-- beryl-metadata/src/session_registry.rs: the sessions, openings and indexes that the registry of
-- write sessions keeps under its one lock. A call takes the state and leaves a new one; `none` is a
-- panic (`assert!`, `expect`, `unreachable!`). The clock is an argument. Counters of observe.rs that
-- only record metrics are left out.
pub mod Activity
pub mod Entries
pub mod Creates
pub mod Retire
pub mod Checks
pub mod Calls
pub mod Opening
pub mod Creating
pub mod SessionChecks
pub mod Targets
pub mod Publishing
pub mod Lookup
pub mod WellFormed
pub mod Valid
pub mod Requests
pub mod Reachability
pub mod Presence
pub mod Replay
pub mod Exclusion
use vecton.Prelude.{
  ℕ, ◌+◌, ◌≡◌, ◌↔◌, Bool, true, false, ◌&&◌, Option, none, some, List, [], String, arith, Eq, eqb,
  nat_eq, Map, length, u64_max, option_eqb, option_eqb_iff,
}
use vecton.Types.Layout.{FileLayout}
use vecton.Types.Values.{
  InodeId, MountId, ClientId, CallId, LeaseEpoch, ContentGeneration, BlockId, LocatedBlock,
  WriteMode, block_id_eq,
}

-- The process-local identities.
abbrev pub WriteOpeningId : Type 0
WriteOpeningId = ℕ

abbrev pub WritePublicationId : Type 0
WritePublicationId = ℕ

pub record CreateFileOperationId : Type 0 where
  pub client_id : ClientId
  pub call_id : CallId

abbrev pub operation_eqb : CreateFileOperationId → CreateFileOperationId → Bool
operation_eqb a b = eqb a.client_id b.client_id && eqb a.call_id b.call_id

pub operation_eqb_iff : (a b : CreateFileOperationId) → (operation_eqb a b ≡ true) ↔ (a ≡ b)
operation_eqb_iff a b = (λ h. ground arith, λ h. ground arith)

instance abbrev pub operation_eq : Eq CreateFileOperationId
operation_eq = record { test = operation_eqb; test_iff = operation_eqb_iff }

pub record PendingAllocateBlock : Type 0 where
  pub previous_block_id : Option BlockId

abbrev pub pending_eqb : PendingAllocateBlock → PendingAllocateBlock → Bool
pending_eqb a b = option_eqb a.previous_block_id b.previous_block_id

pub pending_eqb_iff : (a b : PendingAllocateBlock) → (pending_eqb a b ≡ true) ↔ (a ≡ b)
pending_eqb_iff a b = (
  λ h. ground (arith, option_eqb_iff a.previous_block_id b.previous_block_id),
  λ h. ground (arith, option_eqb_iff a.previous_block_id b.previous_block_id),
)

instance abbrev pub pending_eq : Eq PendingAllocateBlock
pending_eq = record { test = pending_eqb; test_iff = pending_eqb_iff }

pub record CreateSessionReplay : Type 0 where
  pub inode_id : InodeId
  pub lease_epoch : LeaseEpoch
  pub layout : FileLayout
  pub expires_at_ms : ℕ
  pub generation : ContentGeneration

pub record ActiveCreateReplay : Type 0 where
  pub operation_id : CreateFileOperationId
  pub request_deadline_ms : ℕ
  pub normalized_path : String
  pub mount_id : MountId
  pub expected_mount_epoch : ℕ
  pub mount_root_inode_id : InodeId
  pub response : CreateSessionReplay

pub record WriteSession : Type 0 where
  pub inode_id : InodeId
  pub mount_id : MountId
  pub lease_epoch : LeaseEpoch
  pub base_size : ℕ
  pub generation : ContentGeneration
  pub mode : WriteMode
  pub open_client_id : ClientId
  pub layout : FileLayout
  pub expires_at_ms : ℕ
  pub ancestor_inode_ids : List InodeId
  pub issued_targets : List LocatedBlock
  pub issued_steps : Map (Option BlockId) ℕ
  pub pending_allocate_block : Option PendingAllocateBlock
  pub active_publication : Option WritePublicationId
  pub publication_submitted : Bool
  pub create_replay : Option ActiveCreateReplay

pub record OpeningSession : Type 0 where
  pub opening_id : WriteOpeningId
  pub inode_id : InodeId
  pub mount_id : MountId
  pub proposed_lease_epoch : LeaseEpoch
  pub mode : WriteMode
  pub open_client_id : ClientId
  pub layout : FileLayout
  pub expires_at_ms : ℕ
  pub ancestor_inode_ids : List InodeId

pub record CreateOpeningSession : Type 0 where
  pub opening_id : WriteOpeningId
  pub operation_id : CreateFileOperationId
  pub request_deadline_ms : ℕ
  pub normalized_path : String
  pub mount_id : MountId
  pub expected_mount_epoch : ℕ
  pub mount_root_inode_id : InodeId
  pub open_client_id : ClientId
  pub expires_at_ms : ℕ
  pub parent_ancestor_inode_ids : List InodeId

pub data WriteSessionEntry : Type 0 where
  opening : OpeningSession → WriteSessionEntry
  active : WriteSession → WriteSessionEntry

abbrev pub entry_inode_id : WriteSessionEntry → InodeId
entry_inode_id (opening o) = o.inode_id
entry_inode_id (active s) = s.inode_id

abbrev pub client_id_of : WriteSessionEntry → ClientId
client_id_of (opening o) = o.open_client_id
client_id_of (active s) = s.open_client_id

abbrev pub expires_at_of : WriteSessionEntry → ℕ
expires_at_of (opening o) = o.expires_at_ms
expires_at_of (active s) = s.expires_at_ms

-- A session with a submitted publication does not retire at its deadline.
abbrev pub session_retirement : Bool → ℕ → ℕ
session_retirement true expires_at_ms = u64_max
session_retirement false expires_at_ms = expires_at_ms

abbrev pub retirement_at_ms : WriteSessionEntry → ℕ
retirement_at_ms (opening o) = o.expires_at_ms
retirement_at_ms (active s) = session_retirement s.publication_submitted s.expires_at_ms

abbrev pub ancestors_of : WriteSessionEntry → List InodeId
ancestors_of (opening o) = o.ancestor_inode_ids
ancestors_of (active s) = s.ancestor_inode_ids

abbrev pub is_opening : WriteSessionEntry → Bool
is_opening (opening o) = true
is_opening (active s) = false

-- usize::from(option.is_some())
abbrev pub one_if_some : {A : Type 0} → Option A → ℕ
one_if_some none = 0
one_if_some (some a) = 1

-- The targets and the pending targets that `remove_entry` gives back.
abbrev pub owned_write_targets : WriteSessionEntry → ℕ
owned_write_targets (opening o) = 0
owned_write_targets (active s) = length s.issued_targets + one_if_some s.pending_allocate_block

abbrev pub pending_write_targets_of : WriteSessionEntry → ℕ
pending_write_targets_of (opening o) = 0
pending_write_targets_of (active s) = one_if_some s.pending_allocate_block

-- The operation of an entry that a CreateFile made.
abbrev pub replay_operation : Option ActiveCreateReplay → Option CreateFileOperationId
replay_operation none = none
replay_operation (some r) = some r.operation_id

abbrev pub operation_of : WriteSessionEntry → Option CreateFileOperationId
operation_of (opening o) = none
operation_of (active s) = replay_operation s.create_replay

pub record SessionRegistryState : Type 0 where
  pub entries : Map InodeId WriteSessionEntry
  pub create_openings : Map CreateFileOperationId CreateOpeningSession
  pub create_openings_by_path : Map (MountId × String) CreateFileOperationId
  pub create_opening_operations : Map WriteOpeningId CreateFileOperationId
  pub create_openings_by_expiry : Map (ℕ × WriteOpeningId) Unit
  pub active_create_operations : Map CreateFileOperationId InodeId
  pub opening_sessions : ℕ
  pub occupied_sessions_by_client : Map ClientId ℕ
  pub ancestor_activity : Map InodeId (Map ℕ ℕ)
  pub entries_by_expiry : Map (ℕ × InodeId) Unit
  pub next_opening_id : ℕ
  pub next_publication_id : ℕ
  pub outstanding_write_targets : ℕ
  pub pending_write_targets : ℕ

-- SessionRegistryState::default
abbrev pub default_state : SessionRegistryState
default_state = record {
  entries = [];
  create_openings = [];
  create_openings_by_path = [];
  create_opening_operations = [];
  create_openings_by_expiry = [];
  active_create_operations = [];
  opening_sessions = 0;
  occupied_sessions_by_client = [];
  ancestor_activity = [];
  entries_by_expiry = [];
  next_opening_id = 1;
  next_publication_id = 1;
  outstanding_write_targets = 0;
  pending_write_targets = 0;
}

-- The fixed limits and the lifetime of a SessionRegistry.
pub record Limits : Type 0 where
  pub max_sessions : ℕ
  pub max_sessions_per_client : ℕ
  pub max_write_targets : ℕ
  pub max_write_targets_per_session : ℕ
  pub session_ttl_ms : ℕ
