-- ===== src/Examples/Targets.antt =====
-- Tests and examples for the write targets of a session (beryl-metadata/src/session_registry.rs).
use vecton.Prelude.{◌≡◌, refl, [], ◌∷◌, some, none, arith, false, ap}
use vecton.Prelude.Maps.{get, insert}
use vecton.Prelude.Counts.{size, total}
use vecton.Prelude.Result.{ok}
use vecton.Types.Layout.{new_shape, for_effective_len}
use vecton.Types.Values.{overwrite, LocatedBlock, hdd}
use vecton.Inode.{FileData}
use vecton.Registry.{SessionRegistryState, active, WriteSession, PendingAllocateBlock}
use vecton.Registry.Entries.{record_session_gauges, record_write_target_gauges, put_session}
use vecton.Registry.Retire.{
  first_pair, retire_rounds, retire_expired_entries, retire_expired_entry_for_inode,
}
use vecton.Registry.SessionChecks.{
  active_session, allocation_step, new_step, next_target_file_offset, validate_write_target,
}
use vecton.Registry.Opening.{activate_opening, activate_current, current_opening}
use vecton.Registry.Targets.{
  begin_allocate_block, allocate_swept, reserve_target, pending_session, complete_write_target,
  complete_swept, install_target, replay,
}
use vecton.Registry.Calls.{sweep}
use vecton.Registry.Requests.{
  activate, allocate, complete_target, state_of, perform, Reachable, next,
}
use vecton.Registry.Reachability.{Reachable-Valid}
use vecton.Registry.Replay.{complete_write_target-replays}
use vecton.Examples.Values.{block, file_data}
use vecton.Examples.Sessions.{limits, limits-AreLimits, opened, opened-Reachable}

abbrev file : FileData
file = record file_data { lease_epoch = 4 }

abbrev session : WriteSession
session = record {
  inode_id = 42;
  mount_id = 1;
  lease_epoch = 4;
  base_size = 6;
  generation = 1;
  mode = overwrite;
  open_client_id = 7;
  layout = file_data.layout;
  expires_at_ms = 110;
  ancestor_inode_ids = 1 ∷ 5 ∷ 42 ∷ [];
  issued_targets = [];
  issued_steps = [];
  pending_allocate_block = none;
  active_publication = none;
  publication_submitted = false;
  create_replay = none;
}

abbrev first_step : PendingAllocateBlock
first_step = record { previous_block_id = none }

abbrev target : LocatedBlock
target = record {
  block_id = block 0;
  file_offset = 0;
  block_size = 4;
  worker_endpoints = [];
  fencing_token = record { block_id = block 0; owner = 7; epoch = 4 };
  write_offset = 0;
  chunk_size = 4194304;
  block_format_id = 2;
  tier = hdd;
}

abbrev activated : SessionRegistryState
activated = record opened { entries = (42, active session) ∷ []; opening_sessions = 0 }

abbrev waiting : SessionRegistryState
waiting = record activated {
  entries = (42, active (record session { pending_allocate_block = some first_step })) ∷ [];
  outstanding_write_targets = 1;
  pending_write_targets = 1;
}

abbrev issued : WriteSession
issued = record session { issued_targets = target ∷ []; issued_steps = (none, 0) ∷ [] }

abbrev done : SessionRegistryState
done = record waiting { entries = (42, active issued) ∷ []; pending_write_targets = 0 }

opened-activates : perform limits (activate 42 1 4 20 file none) opened ≡ some activated
unfolding perform activate_opening current_opening activate_current record_session_gauges get insert
    size total
opened-activates = refl

activated-waits : perform limits (allocate 42 4 none 30) activated ≡ some waiting
unfolding perform begin_allocate_block sweep retire_expired_entry_for_inode retire_expired_entries
    retire_rounds first_pair allocate_swept active_session allocation_step new_step
    next_target_file_offset reserve_target put_session record_write_target_gauges get insert
activated-waits = refl

target-completes : complete_write_target 42 4 first_step target 40 waiting ≡ some (done, ok target)
unfolding complete_write_target sweep retire_expired_entry_for_inode retire_expired_entries
    retire_rounds first_pair complete_swept pending_session validate_write_target
    next_target_file_offset new_shape for_effective_len install_target put_session
    record_write_target_gauges get insert
target-completes = refl

done-Reachable : Reachable limits done
unfolding perform
done-Reachable =
    next waiting done (complete_target 42 4 first_step target 40)
      (next activated waiting (allocate 42 4 none 30)
        (next opened activated (activate 42 1 4 20 file none) opened-Reachable tt opened-activates)
        tt activated-waits)
      tt (ap state_of target-completes)

complete_write_target-replays_example :
    (s : SessionRegistryState) × (begin_allocate_block limits 42 4 none 50 done
      ≡ some (s, ok (replay target)))
unfolding get
complete_write_target-replays_example =
    complete_write_target-replays limits 42 4 first_step target target 40 50 waiting done issued
      (Reachable-Valid limits done limits-AreLimits done-Reachable).well_formed target-completes
      refl (omega arith)
