-- ===== src/Registry/Opening.antt =====
-- The calls that open a write session (beryl-metadata/src/session_registry.rs).
use vecton.Prelude.{
  ℕ, ◌+◌, true, false, not, ◌&&◌, ◌||◌, Option, none, some, List, [], ◌∷◌, eqb, leb, if◌then◌else◌,
  nat_eq, checked_add, checked_sub, saturating_add,
}
use vecton.Prelude.Maps.{get, insert}
use vecton.Prelude.Result.{ok, err, map_err}
use vecton.Prelude.Checked.{◌>>=◌, is_some}
use vecton.Types.Layout.{file_layout_eqb}
use vecton.Types.Values.{InodeId, LeaseEpoch, LocatedBlock}
use vecton.Inode.{FileData}
use vecton.Registry.{
  SessionRegistryState, opening, active, WriteSession, OpeningSession, operation_eq, Limits,
  WriteOpeningId, one_if_some,
}
use vecton.Registry.Entries.{insert_entry, remove_entry, record_session_gauges}
use vecton.Registry.Retire.{retire_expired_entry_for_inode}
use vecton.Registry.Checks.{
  BeginSessionInput, BeginSessionError, validate_ancestor_chain, admit_session,
}
use vecton.Registry.Calls.{Call, attempt, sweep}

-- The owner that `begin_session` returns.
pub record WriteOpening : Type 0 where
  pub inode_id : InodeId
  pub opening_id : WriteOpeningId
  pub proposed_lease_epoch : LeaseEpoch

abbrev pub new_opening :
    Limits → BeginSessionInput → ℕ → LeaseEpoch → WriteOpeningId → OpeningSession
new_opening r input now_ms proposed opening_id = record {
  opening_id = opening_id;
  inode_id = input.inode_id;
  mount_id = input.mount_id;
  proposed_lease_epoch = proposed;
  mode = input.mode;
  open_client_id = input.open_client_id;
  layout = input.layout;
  expires_at_ms = saturating_add now_ms r.session_ttl_ms;
  ancestor_inode_ids = input.ancestor_inode_ids;
}

-- `begin_session_at` from the admission on.
unfoldable pub open_admitted :
    Limits
    → BeginSessionInput
    → ℕ
    → SessionRegistryState
    → LeaseEpoch
    → Call BeginSessionError WriteOpening
open_admitted r input now_ms s proposed = elim (checked_add s.next_opening_id 1) [
  | none ↦ some (s, err BeginSessionError.opening_id_exhausted)
  | some next ↦ do
    s' ←
        insert_entry (opening (new_opening r input now_ms proposed s.next_opening_id))
          (record s { next_opening_id = next })
    some (
      s',
      ok (record {
        inode_id = input.inode_id;
        opening_id = s.next_opening_id;
        proposed_lease_epoch = proposed;
      }),
    )
]

unfoldable pub begin_session_at :
    Limits → BeginSessionInput → ℕ → SessionRegistryState → Call BeginSessionError WriteOpening
begin_session_at r input now_ms s =
    attempt s
      (map_err (λ _. BeginSessionError.invalid_ancestor_chain)
        (validate_ancestor_chain input.inode_id input.ancestor_inode_ids))
      (λ _. do
        s' ← sweep input.inode_id now_ms s
        attempt s' (admit_session r input s') (open_admitted r input now_ms s'))

pub data WriteOpeningError : Type 0 where
  target_limit expired not_current : WriteOpeningError
  lease_epoch_mismatch : LeaseEpoch → LeaseEpoch → WriteOpeningError

abbrev pub option_to_list : {A : Type 0} → Option A → List A
option_to_list none = []
option_to_list (some a) = a ∷ []

abbrev pub opened_session : OpeningSession → FileData → Option LocatedBlock → WriteSession
opened_session o file tail = record {
  inode_id = o.inode_id;
  mount_id = o.mount_id;
  lease_epoch = o.proposed_lease_epoch;
  base_size = file.len;
  generation = file.generation;
  mode = o.mode;
  open_client_id = o.open_client_id;
  layout = o.layout;
  expires_at_ms = o.expires_at_ms;
  ancestor_inode_ids = o.ancestor_inode_ids;
  issued_targets = option_to_list tail;
  issued_steps = [];
  pending_allocate_block = none;
  active_publication = none;
  publication_submitted = false;
  create_replay = none;
}

-- The opening that is still the exact one, as both activations and both cancellations ask.
unfoldable pub current_opening :
    InodeId → WriteOpeningId → SessionRegistryState → Option OpeningSession
current_opening inode_id opening_id s = elim (get inode_id s.entries) [
  | some (opening o) ↦ if eqb o.opening_id opening_id then some o else none
  | some (active session) ↦ none
  | none ↦ none
]

-- `activate_opening` where the opening is current and has not expired.
unfoldable pub activate_current :
    Limits
    → InodeId
    → OpeningSession
    → LeaseEpoch
    → FileData
    → Option LocatedBlock
    → SessionRegistryState
    → Call WriteOpeningError WriteSession
activate_current r inode_id o returned file tail s =
    if not (eqb o.proposed_lease_epoch returned)
    then some (s, err (lease_epoch_mismatch o.proposed_lease_epoch returned))
    else if not (eqb file.lease_epoch returned) || not (file_layout_eqb file.layout o.layout)
    then some (s, err not_current)
    else if is_some tail && leb r.max_write_targets s.outstanding_write_targets
    then some (s, err target_limit)
    else do
      openings ← checked_sub s.opening_sessions 1
      s' ← record_session_gauges (record s {
        outstanding_write_targets = s.outstanding_write_targets + one_if_some tail;
        entries = insert inode_id (active (opened_session o file tail)) s.entries;
        opening_sessions = openings;
      })
      some (s', ok (opened_session o file tail))

unfoldable pub activate_opening :
    Limits
    → InodeId
    → WriteOpeningId
    → LeaseEpoch
    → ℕ
    → FileData
    → Option LocatedBlock
    → SessionRegistryState
    → Call WriteOpeningError WriteSession
activate_opening r inode_id opening_id returned now_ms file tail s =
    elim (current_opening inode_id opening_id s) [
      | none ↦ some (s, err not_current)
      | some o ↦ elim (leb o.expires_at_ms now_ms) [
        | true ↦ do
          (s', _) ← retire_expired_entry_for_inode inode_id now_ms s
          some (s', err expired)
        | false ↦ activate_current r inode_id o returned file tail s
      ]
    ]

unfoldable pub cancel_opening :
    InodeId → WriteOpeningId → SessionRegistryState → Option SessionRegistryState
cancel_opening inode_id opening_id s = elim (current_opening inode_id opening_id s) [
  | none ↦ some s
  | some o ↦ do (s', _) ← remove_entry inode_id s; some s'
]
