-- ===== src/Registry/WellFormed.antt =====
-- The invariant of the registry (beryl-metadata/src/session_registry.rs): every index and every
-- counter is the one that the entries and the create openings give.
pub mod Entries
pub mod Removal
pub mod Creates
pub mod Replacement
pub mod Retirement
pub mod Sweep
pub mod Live
pub mod Tally
pub mod Completeness
use vecton.Prelude.{
  ℕ, ◌+◌, ◌≡◌, ◌<◌, Option, none, some, String, eqb, if◌then◌else◌, nat_eq, string_eq, pair_eq, Map,
  Unique,
}
use vecton.Prelude.Maps.{get}
use vecton.Prelude.Counts.{total, Counts}
use vecton.Prelude.Indexes.{Indexes}
use vecton.Types.Values.{InodeId, ClientId, MountId}
use vecton.Registry.{
  SessionRegistryState, WriteSessionEntry, CreateOpeningSession, CreateFileOperationId,
  operation_eq, entry_inode_id, client_id_of, retirement_at_ms, ancestors_of, owned_write_targets,
  pending_write_targets_of, operation_of, WriteOpeningId,
}
use vecton.Registry.Activity.{Activity, share}
use vecton.Registry.Entries.{count_opening}
use vecton.Registry.Creates.{path_of, expiry_of}

-- The keys under which the indexes hold an entry or an opening.
abbrev pub expiry_key : InodeId → WriteSessionEntry → Option (ℕ × InodeId)
expiry_key k e = some (retirement_at_ms e, k)

abbrev pub operation_key : InodeId → WriteSessionEntry → Option CreateFileOperationId
operation_key k e = operation_of e

abbrev pub create_path_key :
    CreateFileOperationId → CreateOpeningSession → Option (MountId × String)
create_path_key o c = some (path_of c)

abbrev pub create_expiry_key :
    CreateFileOperationId → CreateOpeningSession → Option (ℕ × WriteOpeningId)
create_expiry_key o c = some (expiry_of c)

abbrev pub create_opening_key : CreateFileOperationId → CreateOpeningSession → Option WriteOpeningId
create_opening_key o c = some c.opening_id

-- What an entry or an opening adds to the counts.
abbrev pub entry_slots : ClientId → InodeId → WriteSessionEntry → ℕ
entry_slots client k e = if eqb (client_id_of e) client then 1 else 0

abbrev pub create_slots : ClientId → CreateFileOperationId → CreateOpeningSession → ℕ
create_slots client o c = if eqb c.open_client_id client then 1 else 0

abbrev pub entry_share : InodeId → ℕ → InodeId → WriteSessionEntry → ℕ
entry_share a t k e = share (ancestors_of e) (retirement_at_ms e) a t

abbrev pub create_share : InodeId → ℕ → CreateFileOperationId → CreateOpeningSession → ℕ
create_share a t o c = share c.parent_ancestor_inode_ids c.expires_at_ms a t

abbrev pub entry_opening : InodeId → WriteSessionEntry → ℕ
entry_opening k e = count_opening e

abbrev pub entry_targets : InodeId → WriteSessionEntry → ℕ
entry_targets k e = owned_write_targets e

abbrev pub entry_pending : InodeId → WriteSessionEntry → ℕ
entry_pending k e = pending_write_targets_of e

abbrev pub client_slots : SessionRegistryState → ClientId → ℕ
client_slots s client =
    total (entry_slots client) s.entries + total (create_slots client) s.create_openings

abbrev pub activity_of : SessionRegistryState → InodeId → ℕ → ℕ
activity_of s a t = total (entry_share a t) s.entries + total (create_share a t) s.create_openings

pub record WellFormed (s : SessionRegistryState) : Type 0 where
  pub entries_unique : Unique s.entries
  pub creates_unique : Unique s.create_openings
  pub entry_key :
      (k : InodeId) (e : WriteSessionEntry) → get k s.entries ≡ some e → entry_inode_id e ≡ k
  pub create_key :
      (o : CreateFileOperationId) (c : CreateOpeningSession)
      → get o s.create_openings ≡ some c
      → c.operation_id ≡ o
  pub by_expiry : Indexes (λ _. tt) expiry_key s.entries_by_expiry s.entries
  pub operations : Indexes (λ k. k) operation_key s.active_create_operations s.entries
  pub by_path : Indexes (λ o. o) create_path_key s.create_openings_by_path s.create_openings
  pub create_by_expiry :
      Indexes (λ _. tt) create_expiry_key s.create_openings_by_expiry s.create_openings
  pub create_operations :
      Indexes (λ o. o) create_opening_key s.create_opening_operations s.create_openings
  pub occupied : Counts s.occupied_sessions_by_client (client_slots s)
  pub activity : Activity s.ancestor_activity (activity_of s)
  pub opening_count : s.opening_sessions ≡ total entry_opening s.entries
  pub outstanding : s.outstanding_write_targets ≡ total entry_targets s.entries
  pub pending : s.pending_write_targets ≡ total entry_pending s.entries
  pub apart :
      (o : CreateFileOperationId) (c : CreateOpeningSession)
      → get o s.create_openings ≡ some c
      → get o s.active_create_operations ≡ none
  pub issued_ids :
      (o : CreateFileOperationId) (c : CreateOpeningSession)
      → get o s.create_openings ≡ some c
      → c.opening_id < s.next_opening_id
