-- ===== src/Registry/Valid/Completion.antt =====
-- Completing or dropping a write target keeps the registry valid (beryl-metadata/src/session_registry.rs).
use vecton.Prelude.{
  ℕ, ◌+◌, ◌-◌, ◌≤◌, ◌≡◌, ◌≢◌, refl, ap, some, none, arith, inl, inr, nat_eq, option_eq,
  Option-cases, checked_sub, length, length-append, [], ◌∷◌, ◌++◌, String, option_eqb_iff,
}
use vecton.Prelude.Maps.{get, get-insert, insert-Unique}
use vecton.Prelude.Result.{Result, ok, err, panic}
use vecton.Prelude.Checked.{◌>>=◌, Safe, Safe-some, Safe-bind}
use vecton.Types.Layout.{new_shape, for_effective_len}
use vecton.Types.Values.{InodeId, LeaseEpoch, LocatedBlock, block_id_eq}
use vecton.Registry.{
  SessionRegistryState, active, WriteSession, PendingAllocateBlock, pending_eq, Limits, one_if_some,
}
use vecton.Registry.Entries.{put_session}
use vecton.Registry.SessionChecks.{next_target_file_offset, validate_write_target}
use vecton.Registry.Targets.{
  pending_session, release_pending, cancel_write_target, complete_write_target, complete_swept,
  install_target, CompleteWriteTargetError, with_target, invalid_target,
}
use vecton.Registry.Calls.{sweep}
use vecton.Registry.WellFormed.{entry_pending, entry_targets}
use vecton.Registry.WellFormed.Entries.{target_gauges-Safe, within}
use vecton.Registry.WellFormed.Replacement.{rewritten, rewritten-WellFormed}
use vecton.Registry.Valid.{Valid, Upholds, IsSession, sweep-Valid, rewritten-Valid}

validate_write_target-ne-panic :
    (x : WriteSession) (e : LeaseEpoch) (t : LocatedBlock) → validate_write_target x e t ≢ panic
unfolding validate_write_target next_target_file_offset new_shape for_effective_len
validate_write_target-ne-panic x e t h = ground arith

checked_sub-some : (a b : ℕ) → b ≤ a → checked_sub a b ≡ some (a - b)
checked_sub-some a b h = ground arith

pending_session-get :
    (k : InodeId) (e : LeaseEpoch) (p : PendingAllocateBlock) (s : SessionRegistryState)
    (x : WriteSession)
    → pending_session k e p s ≡ some x
    → (get k s.entries ≡ some (active x)) × (x.pending_allocate_block ≡ some p)
unfolding pending_session
pending_session-get k e p s x h =
    (ground arith, ground (arith, option_eqb_iff x.pending_allocate_block (some p)))

released-IsSession :
    {r : Limits} (x : WriteSession)
    → IsSession r x
    → IsSession r (record x { pending_allocate_block = none })
released-IsSession x is = record {
  targets = omega (arith, is.targets);
  steps = is.steps;
  steps_unique = is.steps_unique;
  step_new = λ q e. absurd (cc);
  exclusive = λ q e. absurd (cc);
}

-- A pending step becomes an issued one.
issued-IsSession :
    {r : Limits} (x : WriteSession) (p : PendingAllocateBlock) (target : LocatedBlock)
    → x.pending_allocate_block ≡ some p
    → IsSession r x
    → IsSession r (with_target x p target)
issued-IsSession x p target held is =
    let longer : length (x.issued_targets ++ target ∷ []) ≡ length x.issued_targets + 1 =
      omega (arith, length-append x.issued_targets (target ∷ [])) in
    record {
      targets = omega (arith, is.targets, longer, ap one_if_some held);
      steps = λ q n g. ground (
        arith,
        get-insert p.previous_block_id q (length x.issued_targets) x.issued_steps,
        is.steps q n,
        longer,
      );
      steps_unique =
          insert-Unique p.previous_block_id (length x.issued_targets) x.issued_steps
            is.steps_unique;
      step_new = λ q e. absurd (cc);
      exclusive = λ q e. absurd (cc);
    }

module _ {r : Limits} {s : SessionRegistryState} (v : Valid r s) (k : InodeId) (x : WriteSession)
    (p : PendingAllocateBlock) (old : get k s.entries ≡ some (active x))
    (held : x.pending_allocate_block ≡ some p) where
  one_pending : (1 ≤ s.pending_write_targets) × (1 ≤ s.outstanding_write_targets)
  one_pending = (
    omega (
      arith,
      v.well_formed.pending,
      within entry_pending k (active x) s.entries old,
      ap one_if_some held,
    ),
    omega (
      arith,
      v.well_formed.outstanding,
      within entry_targets k (active x) s.entries old,
      ap one_if_some held,
    ),
  )

  release_pending-Safe : Safe (Valid r) (release_pending k x s)
  unfolding release_pending put_session
  release_pending-Safe =
      let x' : WriteSession = record x { pending_allocate_block = none } in
      let s' : SessionRegistryState =
        rewritten k (active x') s.opening_sessions (s.outstanding_write_targets - 1)
          (s.pending_write_targets - 1) s in
      let w' =
        rewritten-WellFormed v.well_formed k (active x) (active x') s.opening_sessions
          (s.outstanding_write_targets - 1) (s.pending_write_targets - 1)
          (record {
            old = old;
            key = v.well_formed.entry_key k (active x) old;
            client = refl;
            ancestors = refl;
            operation = refl;
            openings_count = refl;
            outstanding_count = omega (arith, ap one_if_some held, one_pending.1);
            pending_count = omega (arith, ap one_if_some held, one_pending.0);
          })
          refl in
      rw
        (
          checked_sub-some s.outstanding_write_targets 1 one_pending.1,
          checked_sub-some s.pending_write_targets 1 one_pending.0,
          target_gauges-Safe w',
        )
        (Safe-some s' (
          rewritten-Valid v s' k (active x) x' w' refl refl old refl
            (omega (arith, v.targets_bounded)) (released-IsSession x (v.session k x old))))

  install_target-Safe : (target : LocatedBlock) → Safe (Upholds r) (install_target k x p target s)
  unfolding install_target put_session
  install_target-Safe target =
      let x' : WriteSession = with_target x p target in
      let s' : SessionRegistryState =
        rewritten k (active x') s.opening_sessions s.outstanding_write_targets
          (s.pending_write_targets - 1) s in
      let w' =
        rewritten-WellFormed v.well_formed k (active x) (active x') s.opening_sessions
          s.outstanding_write_targets (s.pending_write_targets - 1)
          (record {
            old = old;
            key = v.well_formed.entry_key k (active x) old;
            client = refl;
            ancestors = refl;
            operation = refl;
            openings_count = refl;
            outstanding_count =
                omega (arith, ap one_if_some held, length-append x.issued_targets (target ∷ []));
            pending_count = omega (arith, ap one_if_some held, one_pending.0);
          })
          refl in
      rw
        (
          (v.session k x old).step_new p held,
          checked_sub-some s.pending_write_targets 1 one_pending.0,
          target_gauges-Safe w',
        )
        (Safe-some _ (
          rewritten-Valid v s' k (active x) x' w' refl refl old refl v.targets_bounded
            (issued-IsSession x p target held (v.session k x old))))

module _ {r : Limits} {s : SessionRegistryState} (v : Valid r s) (k : InodeId) (e : LeaseEpoch)
    (p : PendingAllocateBlock) where
  -- WriteTargetReservation::drop
  pub cancel_write_target-Safe : Safe (Valid r) (cancel_write_target k e p s)
  unfolding cancel_write_target
  cancel_write_target-Safe = elim (Option-cases (pending_session k e p s)) [
    | inl gone ↦ rw (cancel_write_target, gone) (Safe-some s v)
    | inr (x, current) ↦
        let (old, held) = pending_session-get k e p s x current in
        rw (cancel_write_target, current) (release_pending-Safe v k x p old held)
  ]

  complete_swept-Safe : (target : LocatedBlock) → Safe (Upholds r) (complete_swept k e p target s)
  unfolding complete_swept
  complete_swept-Safe target = elim (Option-cases (pending_session k e p s)) [
    | inl gone ↦ rw (complete_swept, gone) (Safe-some _ v)
    | inr (x, current) ↦
        let (old, held) = pending_session-get k e p s x current in
        rw (complete_swept, current)
          (go x old held (validate_write_target x e target)
            (validate_write_target-ne-panic x e target))
  ]
    where
      go :
          (x : WriteSession)
          → get k s.entries ≡ some (active x)
          → x.pending_allocate_block ≡ some p
          → (m : Result String Unit) → m ≢ panic
          → Safe (Upholds {E = CompleteWriteTargetError} {A = LocatedBlock} r) (elim m [
            | ok _ ↦ install_target k x p target s
            | err error ↦ do s' ← release_pending k x s; some (s', err (invalid_target error))
            | panic ↦ none
          ])
      go x old held (ok _) calm = install_target-Safe v k x p old held target
      go x old held (err error) calm =
          Safe-bind (release_pending k x s) _ (release_pending-Safe v k x p old held)
            (λ s' v'. Safe-some _ v')
      go x old held panic calm = absurd (calm refl)

module _ {r : Limits} {s : SessionRegistryState} (v : Valid r s) where
  -- WriteTargetReservation::complete
  pub complete_write_target-Safe :
      (k : InodeId) (e : LeaseEpoch) (p : PendingAllocateBlock) (target : LocatedBlock) (now : ℕ)
      → Safe (Upholds r) (complete_write_target k e p target now s)
  unfolding complete_write_target
  complete_write_target-Safe k e p target now =
      Safe-bind (sweep k now s) _ (sweep-Valid k now v)
        (λ s' v'. complete_swept-Safe v' k e p target)
