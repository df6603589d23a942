-- ===== src/Registry/Valid/Targets.antt =====
-- Allocating write targets keeps the registry valid (beryl-metadata/src/session_registry.rs).
use vecton.Prelude.{
  ℕ, ◌+◌, ◌<◌, ◌≡◌, ◌≢◌, refl, ap, Option, some, none, arith, inl, inr, nat_eq, option_eq,
  Bool-cases, leb, length, String,
}
use vecton.Prelude.Maps.{get}
use vecton.Prelude.Result.{ok, panic, map_err}
use vecton.Prelude.Checked.{Safe, Safe-some, Safe-bind}
use vecton.Types.Values.{InodeId, LeaseEpoch, BlockId, block_id_eq}
use vecton.Registry.{SessionRegistryState, active, WriteSession, pending_eq, Limits, one_if_some}
use vecton.Registry.Entries.{put_session}
use vecton.Registry.SessionChecks.{
  active_session, allocation_step, new_step, next_target_file_offset, AllocationStep, replay_target,
  new_target, BeginAllocateBlockError,
}
use vecton.Registry.Targets.{begin_allocate_block, allocate_swept, reserve_target, replay}
use vecton.Registry.Calls.{sweep}
use vecton.Registry.WellFormed.Entries.{target_gauges-Safe}
use vecton.Registry.WellFormed.Replacement.{rewritten, rewritten-WellFormed}
use vecton.Registry.Valid.{Valid, Upholds, IsSession, sweep-Valid, attempt-Safe, rewritten-Valid}

-- Where the tests on a session come from, and that they never panic.
pub active_session-get :
    (s : SessionRegistryState) (k : InodeId) (x : WriteSession)
    → active_session s k ≡ ok x
    → get k s.entries ≡ some (active x)
unfolding active_session
active_session-get s k x h = ground arith

pub active_session-ne-panic :
    {E : Type 0} (f : String → E) (s : SessionRegistryState) (k : InodeId)
    → map_err f (active_session s k) ≢ panic
unfolding active_session
active_session-ne-panic f s k h = ground arith

allocation_step-ne-panic :
    (r : Limits) (x : WriteSession) (e : LeaseEpoch) (p : Option BlockId)
    → allocation_step r x e p ≢ panic
unfolding allocation_step new_step next_target_file_offset
allocation_step-ne-panic r x e p h = ground arith

-- What a new step says of its session.
record IsNew (r : Limits) (x : WriteSession) (p : Option BlockId) : Type 0 where
  pub step : get p x.issued_steps ≡ none
  pub idle : x.pending_allocate_block ≡ none
  pub unpublished : x.active_publication ≡ none
  pub room : length x.issued_targets < r.max_write_targets_per_session

allocation_step-IsNew :
    (r : Limits) (x : WriteSession) (e : LeaseEpoch) (p : Option BlockId) (offset : ℕ)
    → allocation_step r x e p ≡ ok (new_target offset)
    → IsNew r x p
unfolding allocation_step new_step next_target_file_offset
allocation_step-IsNew r x e p offset h = record {
  step = ground arith;
  idle = ground arith;
  unpublished = ground arith;
  room = ground arith;
}

-- The session with its step pending.
pending-IsSession :
    {r : Limits} (x : WriteSession) (p : Option BlockId)
    → IsSession r x
    → IsNew r x p
    → IsSession r (record x { pending_allocate_block = some (record { previous_block_id = p }) })
pending-IsSession x p is new = record {
  targets = omega (arith, new.room);
  steps = is.steps;
  steps_unique = is.steps_unique;
  step_new = λ q e. ground (arith, new.step);
  exclusive = λ q e. new.unpublished;
}

module _ {r : Limits} {s : SessionRegistryState} (v : Valid r s) (k : InodeId) (x : WriteSession)
    (old : get k s.entries ≡ some (active x)) where
  reserve_target-Safe :
      (p : Option BlockId) (offset : ℕ)
      → IsNew r x p
      → Safe (Upholds r) (reserve_target r k x p offset s)
  unfolding reserve_target put_session
  reserve_target-Safe p offset new =
      elim (Bool-cases (leb r.max_write_targets s.outstanding_write_targets)) [
        | inl full ↦ rw (reserve_target, full) (Safe-some _ v)
        | inr room ↦
            let x' : WriteSession = record x {
              pending_allocate_block = some (record { previous_block_id = p });
            } in
            let s' : SessionRegistryState =
              rewritten k (active x') s.opening_sessions (s.outstanding_write_targets + 1)
                (s.pending_write_targets + 1) s in
            let w' =
              rewritten-WellFormed v.well_formed k (active x) (active x') s.opening_sessions
                (s.outstanding_write_targets + 1) (s.pending_write_targets + 1)
                (record {
                  old = old;
                  key = v.well_formed.entry_key k (active x) old;
                  client = refl;
                  ancestors = refl;
                  operation = refl;
                  openings_count = refl;
                  outstanding_count = omega (arith, ap one_if_some new.idle);
                  pending_count = omega (arith, ap one_if_some new.idle);
                })
                refl in
            rw (reserve_target, room, new.idle, target_gauges-Safe w')
              (Safe-some _ (
                rewritten-Valid v s' k (active x) x' w' refl refl old refl (ground arith)
                  (pending-IsSession x p (v.session k x old) new)))
      ]

module _ {r : Limits} {s : SessionRegistryState} (v : Valid r s) where
  allocate_swept-Safe :
      (k : InodeId) (e : LeaseEpoch) (p : Option BlockId)
      → Safe (Upholds r) (allocate_swept r k e p s)
  unfolding allocate_swept
  allocate_swept-Safe k e p =
      attempt-Safe v (map_err BeginAllocateBlockError.session (active_session s k)) _
        (active_session-ne-panic BeginAllocateBlockError.session s k)
        (λ x found.
          attempt-Safe v (allocation_step r x e p) _ (allocation_step-ne-panic r x e p)
            (λ step taken. go x (active_session-get s k x (ground (arith, found))) step taken))
    where
      go :
          (x : WriteSession)
          → get k s.entries ≡ some (active x)
          → (step : AllocationStep) → allocation_step r x e p ≡ ok step
          → Safe (Upholds r) (elim step [
            | replay_target target ↦ some (s, ok (replay target))
            | new_target file_offset ↦ reserve_target r k x p file_offset s
          ])
      go x old (replay_target target) taken = Safe-some _ v
      go x old (new_target offset) taken =
          reserve_target-Safe v k x old p offset (allocation_step-IsNew r x e p offset taken)

module _ {r : Limits} {s : SessionRegistryState} (v : Valid r s) where
  -- begin_allocate_block
  pub begin_allocate_block-Safe :
      (k : InodeId) (e : LeaseEpoch) (p : Option BlockId) (now : ℕ)
      → Safe (Upholds r) (begin_allocate_block r k e p now s)
  unfolding begin_allocate_block
  begin_allocate_block-Safe k e p now =
      Safe-bind (sweep k now s) _ (sweep-Valid k now v) (λ s' v'. allocate_swept-Safe v' k e p)
