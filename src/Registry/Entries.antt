-- ===== src/Registry/Entries.antt =====
-- Entries of the registry with all their indexes: `insert_entry`, `remove_entry`,
-- `move_expiry_indexes` and the gauges of beryl-metadata/src/session_registry.rs.
use vecton.Prelude.{
  ℕ, ◌+◌, Option, none, some, List, nat_eq, ltb, if◌then◌else◌, ◌==◌, option_eq, pair_eq,
  checked_sub,
}
use vecton.Prelude.Maps.{get, insert, remove, Map}
use vecton.Prelude.Counts.{size, bump, decrement, or_zero}
use vecton.Prelude.Checked.{◌>>=◌, ◌>>◌, assert, is_some, is_none}
use vecton.Types.Values.{InodeId}
use vecton.Registry.Activity.{add_activities, drop_activities, move_activities}
use vecton.Registry.{
  SessionRegistryState, WriteSessionEntry, WriteSession, active, CreateFileOperationId,
  operation_eq, entry_inode_id, client_id_of, retirement_at_ms, ancestors_of, is_opening,
  owned_write_targets, pending_write_targets_of, operation_of,
}

-- record_session_gauges; the check is its `expect`.
unfoldable pub record_session_gauges : SessionRegistryState → Option SessionRegistryState
record_session_gauges s = do checked_sub (size s.entries) s.opening_sessions; some s

unfoldable pub record_write_target_gauges : SessionRegistryState → Option SessionRegistryState
record_write_target_gauges s = do
  checked_sub s.outstanding_write_targets s.pending_write_targets
  some s

-- The operation of an active session that CreateFile made is entered, or dropped.
abbrev pub enter_operation :
    Option CreateFileOperationId
    → InodeId
    → Map CreateFileOperationId InodeId
    → Option (Map CreateFileOperationId InodeId)
enter_operation none inode_id m = some m
enter_operation (some o) inode_id m = assert (is_none (get o m)) >> some (insert o inode_id m)

abbrev pub leave_operation :
    Option CreateFileOperationId
    → InodeId
    → Map CreateFileOperationId InodeId
    → Option (Map CreateFileOperationId InodeId)
leave_operation none inode_id m = some m
leave_operation (some o) inode_id m = assert (get o m == some inode_id) >> some (remove o m)

abbrev pub count_opening : WriteSessionEntry → ℕ
count_opening e = if is_opening e then 1 else 0

unfoldable pub insert_entry : WriteSessionEntry → SessionRegistryState → Option SessionRegistryState
insert_entry entry s = do
  assert (is_none (get (retirement_at_ms entry, entry_inode_id entry) s.entries_by_expiry))
  operations ←
      enter_operation (operation_of entry) (entry_inode_id entry) s.active_create_operations
  assert (is_none (get (entry_inode_id entry) s.entries))
  record_session_gauges (record s {
    ancestor_activity =
        add_activities (ancestors_of entry) (retirement_at_ms entry) s.ancestor_activity;
    entries_by_expiry =
        insert (retirement_at_ms entry, entry_inode_id entry) tt s.entries_by_expiry;
    opening_sessions = s.opening_sessions + count_opening entry;
    occupied_sessions_by_client = bump (client_id_of entry) s.occupied_sessions_by_client;
    active_create_operations = operations;
    entries = insert (entry_inode_id entry) entry s.entries;
  })

-- `remove_entry` where the entry is there.
unfoldable pub remove_found :
    InodeId → WriteSessionEntry → SessionRegistryState → Option SessionRegistryState
remove_found inode_id entry s = do
  assert (ltb 0 (or_zero (get (client_id_of entry) s.occupied_sessions_by_client)))
  operations ← leave_operation (operation_of entry) inode_id s.active_create_operations
  openings ← checked_sub s.opening_sessions (count_opening entry)
  assert (is_some (get (retirement_at_ms entry, inode_id) s.entries_by_expiry))
  activity ← drop_activities (ancestors_of entry) (retirement_at_ms entry) s.ancestor_activity
  occupied ← decrement (client_id_of entry) s.occupied_sessions_by_client
  outstanding ← checked_sub s.outstanding_write_targets (owned_write_targets entry)
  pending ← checked_sub s.pending_write_targets (pending_write_targets_of entry)
  s' ← record_session_gauges (record s {
    entries = remove inode_id s.entries;
    active_create_operations = operations;
    opening_sessions = openings;
    entries_by_expiry = remove (retirement_at_ms entry, inode_id) s.entries_by_expiry;
    ancestor_activity = activity;
    occupied_sessions_by_client = occupied;
    outstanding_write_targets = outstanding;
    pending_write_targets = pending;
  })
  record_write_target_gauges s'

unfoldable pub remove_entry :
    InodeId → SessionRegistryState → Option (SessionRegistryState × Option WriteSessionEntry)
remove_entry inode_id s = elim (get inode_id s.entries) [
  | none ↦ some (s, none)
  | some entry ↦ do s' ← remove_found inode_id entry s; some (s', some entry)
]

unfoldable pub move_expiry_indexes :
    InodeId → List InodeId → ℕ → ℕ → SessionRegistryState → Option SessionRegistryState
move_expiry_indexes inode_id ancestors previous next s = do
  assert (is_some (get (previous, inode_id) s.entries_by_expiry))
  activity ← move_activities ancestors previous next s.ancestor_activity
  some (record s {
    entries_by_expiry =
        insert (next, inode_id) tt (remove (previous, inode_id) s.entries_by_expiry);
    ancestor_activity = activity;
  })

-- An assignment to the fields of the active session of an inode.
unfoldable pub put_session : InodeId → WriteSession → SessionRegistryState → SessionRegistryState
put_session inode_id session s = record s { entries = insert inode_id (active session) s.entries }
