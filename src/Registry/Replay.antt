-- ===== src/Registry/Replay.antt =====
-- A repeated AllocateBlock step is answered with its target
-- (beryl-metadata/src/session_registry.rs).
use vecton.Prelude.{
  ℕ, ◌<◌, ◌≡◌, refl, ap, ◌∙◌, some, none, arith, inl, inr, nat_eq, eqb_iff, Option-cases, List, [],
  ◌∷◌, ◌++◌, length, get_elem?, String, option_eq,
}
use vecton.Prelude.Maps.{get, insert, get-insert_self}
use vecton.Prelude.Result.{Result, ok, err, panic}
use vecton.Prelude.Checked.{◌>>=◌}
use vecton.Types.Values.{InodeId, LeaseEpoch, LocatedBlock, block_id_eq}
use vecton.Registry.{
  SessionRegistryState, active, WriteSession, PendingAllocateBlock, pending_eq, Limits,
  retirement_at_ms,
}
use vecton.Registry.Entries.{put_session, record_write_target_gauges}
use vecton.Registry.SessionChecks.{active_session, allocation_step, validate_write_target}
use vecton.Registry.Targets.{
  begin_allocate_block, allocate_swept, pending_session, complete_write_target, complete_swept,
  install_target, with_target, release_pending, replay, invalid_target, CompleteWriteTargetError,
}
use vecton.Registry.Calls.{Call, sweep}
use vecton.Registry.WellFormed.{WellFormed}
use vecton.Registry.WellFormed.Live.{sweep-Swept}

get_elem?-length :
    (xs : List LocatedBlock) (x : LocatedBlock) → get_elem? (xs ++ x ∷ []) (length xs) ≡ some x
get_elem?-length [] x = refl
get_elem?-length (y ∷ ys) x = get_elem?-length ys x

pending_session-epoch :
    (k : InodeId) (e : LeaseEpoch) (p : PendingAllocateBlock) (s : SessionRegistryState)
    (x : WriteSession)
    → pending_session k e p s ≡ some x
    → x.lease_epoch ≡ e
unfolding pending_session
pending_session-epoch k e p s x h = ground arith

-- The session that the completed target is stored in.
pub record Stores (s' : SessionRegistryState) (k : InodeId) (e : LeaseEpoch)
    (p : PendingAllocateBlock) (target : LocatedBlock) : Type 0 where
  pub before : WriteSession
  pub stored : get k s'.entries ≡ some (active (with_target before p target))
  pub epoch : before.lease_epoch ≡ e

install_target-entries :
    (k : InodeId) (x : WriteSession) (p : PendingAllocateBlock) (target t : LocatedBlock)
    (s s' : SessionRegistryState)
    → install_target k x p target s ≡ some (s', ok t)
    → s'.entries ≡ insert k (active (with_target x p target)) s.entries
unfolding install_target put_session record_write_target_gauges
install_target-entries k x p target t s s' h = ground arith

complete_swept-Stores :
    (k : InodeId) (e : LeaseEpoch) (p : PendingAllocateBlock) (target t : LocatedBlock)
    (s s' : SessionRegistryState)
    → complete_swept k e p target s ≡ some (s', ok t)
    → Stores s' k e p target
unfolding complete_swept
complete_swept-Stores k e p target t s s' h = elim (Option-cases (pending_session k e p s)) [
  | inl gone ↦ absurd (ground (arith, rw (complete_swept, gone) at h))
  | inr (x, current) ↦
      go x (pending_session-epoch k e p s x current) (validate_write_target x e target)
        (rw (complete_swept, current) at h)
]
  where
    go :
        (x : WriteSession)
        → x.lease_epoch ≡ e
        → (m : Result String Unit)
        → ◌≡◌ {A = Call CompleteWriteTargetError LocatedBlock}
            (elim m [
              | ok _ ↦ install_target k x p target s
              | err error ↦ do s1 ← release_pending k x s; some (s1, err (invalid_target error))
              | panic ↦ none
            ])
            (some (s', ok t))
        → Stores s' k e p target
    go x epoch (ok _) q = record {
      before = x;
      stored =
          ap (get k) (install_target-entries k x p target t s s' q)
          ∙ get-insert_self k (active (with_target x p target)) s.entries;
      epoch = epoch;
    }
    go x epoch (err error) q = elim (Option-cases (release_pending k x s)) [
      | inl stuck ↦ absurd (ground (arith, rw stuck at q))
      | inr (s1, done) ↦ absurd (ground (arith, rw done at q))
    ]
    go x epoch panic q = absurd (ground (arith, q))

allocate_swept-replays :
    (r : Limits) (k : InodeId) (e : LeaseEpoch) (p : PendingAllocateBlock) (target : LocatedBlock)
    (s : SessionRegistryState) (x : WriteSession)
    → get k s.entries ≡ some (active (with_target x p target))
    → x.lease_epoch ≡ e
    → allocate_swept r k e p.previous_block_id s ≡ some (s, ok (replay target))
unfolding allocate_swept active_session allocation_step
allocate_swept-replays r k e p target s x found epoch = rw (
  allocate_swept,
  active_session,
  allocation_step,
  found,
  epoch,
  (eqb_iff e e).1 refl,
  get-insert_self p.previous_block_id (length x.issued_targets) x.issued_steps,
  get_elem?-length x.issued_targets target,
)

-- Once a target is completed, its AllocateBlock step, repeated under the same epoch while the session
-- has not reached its time of retirement, is answered with that target.
pub complete_write_target-replays :
    (r : Limits) (k : InodeId) (e : LeaseEpoch) (p : PendingAllocateBlock) (target t : LocatedBlock)
    (now now' : ℕ) (s s' : SessionRegistryState) (x : WriteSession)
    → WellFormed s'
    → complete_write_target k e p target now s ≡ some (s', ok t)
    → get k s'.entries ≡ some (active x)
    → now' < retirement_at_ms (active x)
    → (s'' : SessionRegistryState) × (begin_allocate_block r k e p.previous_block_id now' s'
        ≡ some (s'', ok (replay target)))
unfolding complete_write_target begin_allocate_block
complete_write_target-replays r k e p target t now now' s s' x w h found live =
    elim (Option-cases (sweep k now s)) [
      | inl stuck ↦ absurd (ground (arith, rw (complete_write_target, stuck) at h))
      | inr (s1, swept) ↦
          let st =
            complete_swept-Stores k e p target t s1 s' (rw (complete_write_target, swept) at h) in
          let q = sweep-Swept k now' w in
          let same : active x ≡ active (with_target st.before p target) =
            ground (arith, found, st.stored) in
          let kept : get k q.result.entries ≡ some (active (with_target st.before p target)) =
            q.holds.live k (active x) found live ∙ ap (λ y. some y) same in
          (
            q.result,
            rw (begin_allocate_block, q.runs)
                (allocate_swept-replays r k e p target q.result st.before kept st.epoch),
          )
    ]
