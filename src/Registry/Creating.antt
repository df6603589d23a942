-- ===== src/Registry/Creating.antt =====
-- The calls that reserve and bind a CreateFile session (beryl-metadata/src/session_registry.rs).
use vecton.Prelude.{
  ℕ, true, false, not, ◌||◌, Option, none, some, [], ◌∷◌, ◌++◌, eqb, leb, if◌then◌else◌, nat_eq,
  checked_add, saturating_add,
}
use vecton.Prelude.Maps.{get}
use vecton.Prelude.Result.{Result, ok, err, map_err}
use vecton.Prelude.Checked.{◌>>=◌, is_some}
use vecton.Types.Layout.{FileLayout}
use vecton.Types.Values.{InodeId, LeaseEpoch, ContentGeneration, overwrite}
use vecton.Registry.{
  SessionRegistryState, active, WriteSession, CreateOpeningSession, CreateFileOperationId,
  operation_eq, CreateSessionReplay, Limits, WriteOpeningId,
}
use vecton.Registry.Entries.{insert_entry}
use vecton.Registry.Creates.{insert_create_opening, remove_create_opening}
use vecton.Registry.Retire.{retire_expired_entries, retire_expired_create_opening_for_operation}
use vecton.Registry.Checks.{
  BeginCreateSessionInput, BeginCreateSessionError, validate_ancestor_chain,
  validate_parent_ancestor_chain, admit_create,
}
use vecton.Registry.Opening.{WriteOpeningError, expired, not_current}
use vecton.Registry.Calls.{Call, attempt}

-- The owner that `begin_create_session` returns, or the response of a session that exists.
pub record CreateOpening : Type 0 where
  pub operation_id : CreateFileOperationId
  pub opening_id : WriteOpeningId
  pub expires_at_ms : ℕ

pub data BeginCreateSession : Type 0 where
  replay : CreateSessionReplay → BeginCreateSession
  reserved : CreateOpening → BeginCreateSession

abbrev pub new_create : Limits → BeginCreateSessionInput → ℕ → WriteOpeningId → CreateOpeningSession
new_create r input now_ms opening_id = record {
  opening_id = opening_id;
  operation_id = input.operation_id;
  request_deadline_ms = input.request_deadline_ms;
  normalized_path = input.normalized_path;
  mount_id = input.mount_id;
  expected_mount_epoch = input.expected_mount_epoch;
  mount_root_inode_id = input.mount_root_inode_id;
  open_client_id = input.open_client_id;
  expires_at_ms = saturating_add now_ms r.session_ttl_ms;
  parent_ancestor_inode_ids = input.parent_ancestor_inode_ids;
}

-- `begin_create_session_at` from the admission on.
unfoldable pub create_admitted :
    Limits
    → BeginCreateSessionInput
    → ℕ
    → SessionRegistryState
    → Option CreateSessionReplay
    → Call BeginCreateSessionError BeginCreateSession
create_admitted r input now_ms s (some response) = some (s, ok (replay response))
create_admitted r input now_ms s none = elim (checked_add s.next_opening_id 1) [
  | none ↦ some (s, err BeginCreateSessionError.opening_id_exhausted)
  | some next ↦ do
    s' ←
        insert_create_opening (new_create r input now_ms s.next_opening_id)
          (record s { next_opening_id = next })
    some (
      s',
      ok (
          reserved (record {
            operation_id = input.operation_id;
            opening_id = s.next_opening_id;
            expires_at_ms = saturating_add now_ms r.session_ttl_ms;
          })),
    )
]

abbrev pub check_create_input : BeginCreateSessionInput → Result BeginCreateSessionError Unit
check_create_input input =
    if not (eqb input.operation_id.client_id input.open_client_id)
    then err BeginCreateSessionError.identity_mismatch
    else map_err (λ _. BeginCreateSessionError.invalid_ancestor_chain)
        (validate_parent_ancestor_chain input.parent_ancestor_inode_ids)

unfoldable pub begin_create_session_at :
    Limits
    → BeginCreateSessionInput
    → ℕ
    → SessionRegistryState
    → Call BeginCreateSessionError BeginCreateSession
begin_create_session_at r input now_ms s = attempt s (check_create_input input) (λ _. do
  (s', _) ← retire_expired_create_opening_for_operation input.operation_id now_ms s
  (s'', _) ← retire_expired_entries now_ms s'
  attempt s'' (admit_create r input s'') (create_admitted r input now_ms s''))

abbrev pub created_session :
    CreateOpeningSession → InodeId → LeaseEpoch → ℕ → FileLayout → ContentGeneration → WriteSession
created_session c inode_id lease_epoch expires_at_ms layout generation = record {
  inode_id = inode_id;
  mount_id = c.mount_id;
  lease_epoch = lease_epoch;
  base_size = 0;
  generation = generation;
  mode = overwrite;
  open_client_id = c.open_client_id;
  layout = layout;
  expires_at_ms = expires_at_ms;
  ancestor_inode_ids = c.parent_ancestor_inode_ids ++ inode_id ∷ [];
  issued_targets = [];
  issued_steps = [];
  pending_allocate_block = none;
  active_publication = none;
  publication_submitted = false;
  create_replay = some (record {
    operation_id = c.operation_id;
    request_deadline_ms = c.request_deadline_ms;
    normalized_path = c.normalized_path;
    mount_id = c.mount_id;
    expected_mount_epoch = c.expected_mount_epoch;
    mount_root_inode_id = c.mount_root_inode_id;
    response = record {
      inode_id = inode_id;
      lease_epoch = lease_epoch;
      layout = layout;
      expires_at_ms = expires_at_ms;
      generation = generation;
    };
  });
}

unfoldable pub current_create :
    CreateFileOperationId → WriteOpeningId → SessionRegistryState → Option CreateOpeningSession
current_create operation_id opening_id s = elim (get operation_id s.create_openings) [
  | some c ↦ if eqb c.opening_id opening_id then some c else none
  | none ↦ none
]

-- `activate_create_opening` where the opening is current and has not expired.
unfoldable pub bind_create :
    CreateFileOperationId
    → CreateOpeningSession
    → InodeId
    → LeaseEpoch
    → ℕ
    → FileLayout
    → ContentGeneration
    → SessionRegistryState
    → Call WriteOpeningError WriteSession
bind_create operation_id c inode_id lease_epoch expires_at_ms layout generation s =
    elim (eqb lease_epoch 0 || is_some (get inode_id s.entries)) [
      | true ↦ some (s, err not_current)
      | false ↦
          attempt s
            (map_err (λ _. not_current)
              (validate_ancestor_chain inode_id (c.parent_ancestor_inode_ids ++ inode_id ∷ [])))
            (λ _. do
              (s', removed) ← remove_create_opening operation_id s
              found ← removed
              let session =
                  created_session found inode_id lease_epoch expires_at_ms layout generation
              s'' ← insert_entry (active session) s'
              some (s'', ok session))
    ]

unfoldable pub activate_create_opening :
    CreateFileOperationId
    → WriteOpeningId
    → InodeId
    → LeaseEpoch
    → ℕ
    → FileLayout
    → ContentGeneration
    → ℕ
    → SessionRegistryState
    → Call WriteOpeningError WriteSession
activate_create_opening operation_id opening_id inode_id lease_epoch expires_at_ms layout generation
      now_ms s =
    elim (current_create operation_id opening_id s) [
      | none ↦ some (s, err not_current)
      | some c ↦ elim (leb c.expires_at_ms now_ms || leb expires_at_ms now_ms) [
        | true ↦ do (s', _) ← remove_create_opening operation_id s; some (s', err expired)
        | false ↦ bind_create operation_id c inode_id lease_epoch expires_at_ms layout generation s
      ]
    ]

unfoldable pub cancel_create_opening :
    CreateFileOperationId → WriteOpeningId → SessionRegistryState → Option SessionRegistryState
cancel_create_opening operation_id opening_id s = elim (current_create operation_id opening_id s) [
  | none ↦ some s
  | some c ↦ do (s', _) ← remove_create_opening operation_id s; some s'
]
