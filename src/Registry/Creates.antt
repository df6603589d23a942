-- ===== src/Registry/Creates.antt =====
-- CreateFile openings with all their indexes: `insert_create_opening` and `remove_create_opening` of
-- beryl-metadata/src/session_registry.rs.
use vecton.Prelude.{Option, none, some, nat_eq, string_eq, ◌==◌, option_eq, pair_eq, ℕ}
use vecton.Prelude.Maps.{get, insert, remove}
use vecton.Prelude.Counts.{bump, decrement}
use vecton.Prelude.Checked.{◌>>=◌, ◌>>◌, assert, is_some, is_none}
use vecton.Types.Values.{MountId}
use vecton.Prelude.{String}
use vecton.Registry.Activity.{add_activities, drop_activities}
use vecton.Registry.{
  SessionRegistryState, CreateOpeningSession, CreateFileOperationId, operation_eq, WriteOpeningId,
}
use vecton.Registry.Entries.{record_session_gauges}

abbrev pub path_of : CreateOpeningSession → MountId × String
path_of c = (c.mount_id, c.normalized_path)

abbrev pub expiry_of : CreateOpeningSession → ℕ × WriteOpeningId
expiry_of c = (c.expires_at_ms, c.opening_id)

unfoldable pub insert_create_opening :
    CreateOpeningSession → SessionRegistryState → Option SessionRegistryState
insert_create_opening c s = do
  assert (is_none (get (path_of c) s.create_openings_by_path))
  assert (is_none (get (expiry_of c) s.create_openings_by_expiry))
  assert (is_none (get c.opening_id s.create_opening_operations))
  assert (is_none (get c.operation_id s.create_openings))
  record_session_gauges (record s {
    create_openings_by_path = insert (path_of c) c.operation_id s.create_openings_by_path;
    ancestor_activity =
        add_activities c.parent_ancestor_inode_ids c.expires_at_ms s.ancestor_activity;
    create_openings_by_expiry = insert (expiry_of c) tt s.create_openings_by_expiry;
    create_opening_operations = insert c.opening_id c.operation_id s.create_opening_operations;
    occupied_sessions_by_client = bump c.open_client_id s.occupied_sessions_by_client;
    create_openings = insert c.operation_id c s.create_openings;
  })

-- `remove_create_opening` where the opening is there.
unfoldable pub remove_create_found :
    CreateFileOperationId
    → CreateOpeningSession
    → SessionRegistryState
    → Option SessionRegistryState
remove_create_found operation_id c s = do
  assert (get (path_of c) s.create_openings_by_path == some operation_id)
  assert (is_some (get (expiry_of c) s.create_openings_by_expiry))
  assert (get c.opening_id s.create_opening_operations == some operation_id)
  activity ← drop_activities c.parent_ancestor_inode_ids c.expires_at_ms s.ancestor_activity
  occupied ← decrement c.open_client_id s.occupied_sessions_by_client
  record_session_gauges (record s {
    create_openings = remove operation_id s.create_openings;
    create_openings_by_path = remove (path_of c) s.create_openings_by_path;
    create_openings_by_expiry = remove (expiry_of c) s.create_openings_by_expiry;
    create_opening_operations = remove c.opening_id s.create_opening_operations;
    ancestor_activity = activity;
    occupied_sessions_by_client = occupied;
  })

unfoldable pub remove_create_opening :
    CreateFileOperationId
    → SessionRegistryState
    → Option (SessionRegistryState × Option CreateOpeningSession)
remove_create_opening operation_id s = elim (get operation_id s.create_openings) [
  | none ↦ some (s, none)
  | some c ↦ do s' ← remove_create_found operation_id c s; some (s', some c)
]
