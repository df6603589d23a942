-- ===== src/Examples/Sessions.antt =====
-- Tests and examples for the registry of write sessions (beryl-metadata/src/session_registry.rs).
use vecton.Prelude.{
  ◌+◌, ◌↔◌, true, ◌≤◌, ◌<◌, nat_eq, ◌≡◌, ◌≢◌, refl, [], ◌∷◌, some, none, arith, contains, repeats,
}
use vecton.Prelude.Maps.{get, insert, remove}
use vecton.Prelude.Counts.{bump, decrement, size, total}
use vecton.Prelude.Checked.{Safe}
use vecton.Types.Values.{overwrite}
use vecton.Registry.{
  SessionRegistryState, default_state, Limits, opening, WriteSessionEntry, retirement_at_ms,
}
use vecton.Registry.Activity.{add_activity, add_activities, drop_activity, drop_activities}
use vecton.Registry.Entries.{
  insert_entry, remove_entry, remove_found, record_session_gauges, record_write_target_gauges,
}
use vecton.Registry.Retire.{
  first_pair, retire_rounds, retire_expired_entries, retire_expired_entry_for_inode, retire_entry,
  max_expired_session_retirements_per_call,
}
use vecton.Registry.Checks.{
  BeginSessionInput, validate_ancestor_chain, admit_session, session_capacity,
}
use vecton.Registry.Opening.{begin_session_at, open_admitted}
use vecton.Registry.Calls.{sweep}
use vecton.Registry.Requests.{begin_session, retire, perform, Reachable, start, next}
use vecton.Registry.Valid.{Valid, AreLimits}
use vecton.Registry.Reachability.{Reachable-Valid, Reachable-perform}
use vecton.Registry.Lookup.{has_active_write_under_at}
use vecton.Registry.Presence.{Writer, has_active_write_under_at-Writer}
use vecton.Registry.WellFormed.Retirement.{Kept}
use vecton.Registry.WellFormed.Tally.{held, retire_expired_entries-held}
use vecton.Registry.WellFormed.Completeness.{NoneExpired, retire_expired_entries-NoneExpired}
use vecton.Registry.WellFormed.Live.{
  Swept, retire_expired_entries-Swept, Retired, retire_expired_entry_for_inode-Retired,
}
use vecton.Registry.Exclusion.{Grants, begin_session_at-Grants}
use vecton.Prelude.Result.{ok}
use vecton.Examples.Values.{file_data}

abbrev pub limits : Limits
limits = record {
  max_sessions = 2;
  max_sessions_per_client = 1;
  max_write_targets = 4;
  max_write_targets_per_session = 2;
  session_ttl_ms = 100;
}

pub limits-AreLimits : AreLimits limits
limits-AreLimits = record {
  sessions = omega arith;
  per_client = omega arith;
  per_client_within = omega arith;
  targets = omega arith;
  per_session = omega arith;
  per_session_within = omega arith;
}

abbrev input : BeginSessionInput
input = record {
  normalized_path = "/a/f";
  mount_id = 1;
  inode_id = 42;
  current_lease_epoch = 3;
  mode = overwrite;
  open_client_id = 7;
  layout = file_data.layout;
  ancestor_inode_ids = 1 ∷ 5 ∷ 42 ∷ [];
}

abbrev opened_entry : WriteSessionEntry
opened_entry = opening (record {
  opening_id = 1;
  inode_id = 42;
  mount_id = 1;
  proposed_lease_epoch = 4;
  mode = overwrite;
  open_client_id = 7;
  layout = file_data.layout;
  expires_at_ms = 110;
  ancestor_inode_ids = 1 ∷ 5 ∷ 42 ∷ [];
})

abbrev pub opened : SessionRegistryState
opened = record default_state {
  entries = (42, opened_entry) ∷ [];
  opening_sessions = 1;
  occupied_sessions_by_client = (7, 1) ∷ [];
  ancestor_activity = (1, (110, 1) ∷ []) ∷ (5, (110, 1) ∷ []) ∷ (42, (110, 1) ∷ []) ∷ [];
  entries_by_expiry = ((110, 42), tt) ∷ [];
  next_opening_id = 2;
}

input-opens : perform limits (begin_session input 10) default_state ≡ some opened
unfolding perform begin_session_at validate_ancestor_chain repeats contains sweep
    retire_expired_entry_for_inode retire_expired_entries retire_rounds first_pair admit_session
    session_capacity open_admitted insert_entry add_activities add_activity bump get insert size
    total record_session_gauges
input-opens = refl

-- At its deadline the opening is retired, and nothing of it is left.
opened-retires :
    perform limits (retire 110) opened ≡ some (record default_state { next_opening_id = 2 })
unfolding perform retire_expired_entries retire_rounds first_pair retire_entry remove_entry
    remove_found drop_activities drop_activity decrement get insert remove size total
    record_session_gauges record_write_target_gauges
opened-retires = refl

pub opened-Reachable : Reachable limits opened
opened-Reachable = next default_state opened (begin_session input 10) start tt input-opens

Reachable-Valid_example : Valid limits opened
Reachable-Valid_example = Reachable-Valid limits opened limits-AreLimits opened-Reachable

Reachable-perform_example : perform limits (retire 110) opened ≢ none
Reachable-perform_example =
    Reachable-perform limits opened (retire 110) limits-AreLimits opened-Reachable tt

retire_expired_entries-held_example :
    Safe
      (λ x. (held x.0 + x.1 ≡ held opened) × (x.1 ≤ max_expired_session_retirements_per_call))
      (retire_expired_entries 110 opened)
retire_expired_entries-held_example =
    retire_expired_entries-held 110
      (Reachable-Valid limits opened limits-AreLimits opened-Reachable).well_formed

retire_expired_entry_for_inode-Retired_example :
    Safe (λ x. Retired 110 42 opened x.0 x.1) (retire_expired_entry_for_inode 42 110 opened)
retire_expired_entry_for_inode-Retired_example =
    retire_expired_entry_for_inode-Retired 42 110
      (Reachable-Valid limits opened limits-AreLimits opened-Reachable).well_formed

has_active_write_under_at-Writer_example :
    Safe
      (λ x. Kept opened x.0 × ((x.1 ≡ true) ↔ Writer x.0 5 60))
      (has_active_write_under_at 5 60 opened)
has_active_write_under_at-Writer_example =
    has_active_write_under_at-Writer 5 60
      (Reachable-Valid limits opened limits-AreLimits opened-Reachable).well_formed

input-grants :
    begin_session_at limits input 10 default_state
    ≡ some (opened, ok (record { inode_id = 42; opening_id = 1; proposed_lease_epoch = 4 }))
unfolding begin_session_at validate_ancestor_chain repeats contains sweep
    retire_expired_entry_for_inode retire_expired_entries retire_rounds first_pair admit_session
    session_capacity open_admitted insert_entry add_activities add_activity bump get insert size
    total record_session_gauges
input-grants = refl

begin_session_at-Grants_example :
    ((e : WriteSessionEntry) → get 42 default_state.entries ≡ some e → retirement_at_ms e ≤ 10)
    × Grants input opened (record { inode_id = 42; opening_id = 1; proposed_lease_epoch = 4 })
begin_session_at-Grants_example =
    begin_session_at-Grants limits input 10 default_state opened _
      (Reachable-Valid limits default_state limits-AreLimits start).well_formed input-grants

retire_expired_entries-Swept_example :
    Safe (λ x. Swept 60 opened x.0) (retire_expired_entries 60 opened)
retire_expired_entries-Swept_example =
    retire_expired_entries-Swept 60
      (Reachable-Valid limits opened limits-AreLimits opened-Reachable).well_formed

retire_expired_entries-NoneExpired_example :
    Safe
      (λ x. Kept opened x.0 × (x.1 < max_expired_session_retirements_per_call → NoneExpired 60 x.0))
      (retire_expired_entries 60 opened)
retire_expired_entries-NoneExpired_example =
    retire_expired_entries-NoneExpired 60
      (Reachable-Valid limits opened limits-AreLimits opened-Reachable).well_formed
