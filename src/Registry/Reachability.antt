-- ===== src/Registry/Reachability.antt =====
-- Every state that the registry reaches is valid, and no request panics
-- (beryl-metadata/src/session_registry.rs).
use vecton.Prelude.{◌≡◌, ◌≢◌, refl, subst, Option, none, some, arith, nat_eq}
use vecton.Prelude.Maps.{get}
use vecton.Prelude.Counts.{total, size}
use vecton.Prelude.Checked.{Safe, Safe-some, Safe-map}
use vecton.Registry.{SessionRegistryState, default_state, Limits}
use vecton.Registry.Requests.{
  Request, begin_session, activate, drop_opening, begin_create, activate_create, drop_create,
  allocate, complete_target, drop_target, publish, submit, revalidate, sync, commit, drop_owner,
  lookup, identify, has_write, end_session, validate, renew, retire, state_of, perform, Allowed,
  Reachable, start, next,
}
use vecton.Registry.WellFormed.{WellFormed}
use vecton.Registry.WellFormed.Sweep.{retire_expired_entries-Kept}
use vecton.Registry.Valid.{Valid, AreLimits, Valid-Kept}
use vecton.Registry.Valid.Opening.{begin_session_at-Safe}
use vecton.Registry.Valid.Activation.{activate_opening-Safe, cancel_opening-Safe}
use vecton.Registry.Valid.Creating.{
  begin_create_session_at-Safe, activate_create_opening-Safe, cancel_create_opening-Safe,
}
use vecton.Registry.Valid.Targets.{begin_allocate_block-Safe}
use vecton.Registry.Valid.Completion.{complete_write_target-Safe, cancel_write_target-Safe}
use vecton.Registry.Valid.Publishing.{
  begin_publication-Safe, revalidate_publication-Safe, complete_commit_publication-Safe,
  drop_publication-Valid,
}
use vecton.Registry.Valid.Syncing.{mark_submitted-Safe}
use vecton.Registry.Valid.Release.{complete_sync_publication-Safe}
use vecton.Registry.Valid.Lookup.{
  get_session-Safe, get_session_identity-Safe, has_active_write_under_at-Safe,
  validate_session-Safe, renew_session_at-Safe, remove_session_if_epoch-Safe,
}

-- The empty registry.
default-WellFormed : WellFormed default_state
unfolding get total
default-WellFormed = record {
  entries_unique = tt;
  creates_unique = tt;
  entry_key = λ k e g. absurd (cc);
  create_key = λ o c g. absurd (cc);
  by_expiry = record {
    unique = tt;
    sound = λ j w g. absurd (cc);
    complete = λ k v j g. absurd (cc);
  };
  operations = record {
    unique = tt;
    sound = λ j w g. absurd (cc);
    complete = λ k v j g. absurd (cc);
  };
  by_path = record { unique = tt; sound = λ j w g. absurd (cc); complete = λ k v j g. absurd (cc) };
  create_by_expiry = record {
    unique = tt;
    sound = λ j w g. absurd (cc);
    complete = λ k v j g. absurd (cc);
  };
  create_operations = record {
    unique = tt;
    sound = λ j w g. absurd (cc);
    complete = λ k v j g. absurd (cc);
  };
  occupied = record { unique = tt; at = λ j. refl };
  activity = record { unique = tt; at = λ a t. refl };
  opening_count = refl;
  outstanding = refl;
  pending = refl;
  apart = λ o c g. absurd (cc);
  issued_ids = λ o c g. absurd (cc);
}

default-Valid : (r : Limits) → Valid r default_state
unfolding get total size
default-Valid r = record {
  well_formed = default-WellFormed;
  sessions_bounded = omega arith;
  clients_bounded = λ client. omega arith;
  targets_bounded = omega arith;
  session = λ k x g. absurd (cc);
}

state_of-Safe :
    {A : Type 0} {P : SessionRegistryState → Type 0} (call : Option (SessionRegistryState × A))
    → Safe (λ x. P x.0) call
    → Safe P (state_of call)
state_of-Safe none p = absurd (ground (arith, p.runs))
state_of-Safe {P = P} (some (s, a)) p =
    let same : p.result.0 ≡ s = ground (arith, p.runs) in Safe-some s (subst P same p.holds)

-- From a valid registry no request panics, and what it leaves is valid.
pub perform-Safe :
    (r : Limits) (q : Request) (s : SessionRegistryState)
    → AreLimits r
    → Valid r s
    → Allowed q s
    → Safe (Valid r) (perform r q s)
unfolding perform
perform-Safe r (begin_session input now) s l v a =
    state_of-Safe _ (begin_session_at-Safe v input now)
perform-Safe r (activate k id e now file tail) s l v a =
    state_of-Safe _ (activate_opening-Safe v l k id e now file tail)
perform-Safe r (drop_opening k id) s l v a = cancel_opening-Safe k id v
perform-Safe r (begin_create input now) s l v a =
    state_of-Safe _ (begin_create_session_at-Safe v input now)
perform-Safe r (activate_create o id k e expires layout g now) s l v a =
    state_of-Safe _ (activate_create_opening-Safe v o id k e expires layout g now)
perform-Safe r (drop_create o id) s l v a = cancel_create_opening-Safe v o id
perform-Safe r (allocate k e p now) s l v a =
    state_of-Safe _ (begin_allocate_block-Safe v k e p now)
perform-Safe r (complete_target k e p target now) s l v a =
    state_of-Safe _ (complete_write_target-Safe v k e p target now)
perform-Safe r (drop_target k e p) s l v a = cancel_write_target-Safe v k e p
perform-Safe r (publish k e now) s l v a = state_of-Safe _ (begin_publication-Safe v k e now)
perform-Safe r (submit p now) s l v a = state_of-Safe _ (mark_submitted-Safe v p now a)
perform-Safe r (revalidate k e p now) s l v a =
    state_of-Safe _ (revalidate_publication-Safe v k e p now)
perform-Safe r (sync k e p g n now) s l v a =
    state_of-Safe _ (complete_sync_publication-Safe v k e p g n now)
perform-Safe r (commit k e p) s l v a = complete_commit_publication-Safe v k e p
perform-Safe r (drop_owner p) s l v a = Safe-some _ (drop_publication-Valid v p)
perform-Safe r (lookup k now) s l v a = state_of-Safe _ (get_session-Safe v k now)
perform-Safe r (identify k now) s l v a = state_of-Safe _ (get_session_identity-Safe v k now)
perform-Safe r (has_write k now) s l v a = state_of-Safe _ (has_active_write_under_at-Safe v k now)
perform-Safe r (end_session k e) s l v a = state_of-Safe _ (remove_session_if_epoch-Safe v k e)
perform-Safe r (validate k e now) s l v a = state_of-Safe _ (validate_session-Safe v k e now)
perform-Safe r (renew k e c now) s l v a = state_of-Safe _ (renew_session_at-Safe v k e c now)
perform-Safe r (retire now) s l v a =
    state_of-Safe _
      (Safe-map (retire_expired_entries-Kept now v.well_formed) (λ x p. Valid-Kept v p.0))

-- With limits that the constructor accepts, every state that the calls of the registry reach from
-- the empty one is valid: the path, operation, expiry and ancestor indexes and the counts of
-- clients, openings and targets are exactly those of the entries and create openings, the limits on
-- sessions, sessions per client, targets and targets per session hold, and in each active session
-- issued steps point to issued targets and a pending step is new and excludes a publication. A
-- submission is assumed to come from an owner that agrees with the session on whether the
-- publication was submitted before.
pub Reachable-Valid :
    (r : Limits) (s : SessionRegistryState) → AreLimits r → Reachable r s → Valid r s
Reachable-Valid r _ l start = default-Valid r
Reachable-Valid r s' l (next s _ q reached a done) =
    let p = perform-Safe r q s l (Reachable-Valid r s l reached) a in
    subst (Valid r) (ground (arith, p.runs, done)) p.holds

-- With limits that the constructor accepts, no call of the registry panics in a state that its
-- calls reach from the empty one: no assert, expect, unreachable arm or checked subtraction fails.
-- A submission is assumed to come from an owner that agrees with the session on whether the
-- publication was submitted before.
pub Reachable-perform :
    (r : Limits) (s : SessionRegistryState) (q : Request)
    → AreLimits r
    → Reachable r s
    → Allowed q s
    → perform r q s ≢ none
Reachable-perform r s q l reached a h =
    ground (arith, (perform-Safe r q s l (Reachable-Valid r s l reached) a).runs, h)
