-- ===== src/Registry/Valid/Release.antt =====
-- A completed SyncWrite and the release of its publication keep the registry valid
-- (beryl-metadata/src/session_registry.rs).
use vecton.Prelude.{
  ℕ, ◌-◌, ◌≤◌, ◌<◌, ◌≡◌, refl, ap, sym, ◌∙◌, subst, Option, some, none, arith, inl, inr, nat_eq,
  pair_eq, option_eq, Bool, true, false, Bool-cases, checked_sub, length, length-take, take, List,
  [], ◌∷◌, String, Map, Unique, u64_max,
}
use vecton.Prelude.Maps.{get}
use vecton.Prelude.Result.{ok}
use vecton.Prelude.Checked.{◌>>=◌, Safe, Safe-some, Safe-bind}
use vecton.Types.Values.{
  InodeId, LeaseEpoch, ContentGeneration, LocatedBlock, BlockId, block_id_eq, append,
}
use vecton.Registry.{
  SessionRegistryState, active, WriteSession, WritePublicationId, Limits, retirement_at_ms,
  session_retirement,
}
use vecton.Registry.Entries.{put_session, move_expiry_indexes}
use vecton.Registry.SessionChecks.{active_session, check_owner, check_sync}
use vecton.Registry.Publishing.{
  partition_point, retain_below, release_sync_publication, synced_session, install_sync, sync_swept,
  complete_sync_publication,
}
use vecton.Registry.Calls.{sweep}
use vecton.Registry.WellFormed.{entry_targets}
use vecton.Registry.WellFormed.Entries.{target_gauges-Safe, within}
use vecton.Registry.WellFormed.Replacement.{Rewrites, rewritten, rewritten-WellFormed}
use vecton.Registry.Valid.{Valid, Upholds, IsSession, sweep-Valid, attempt-Safe, rewritten-Valid}
use vecton.Registry.Valid.Publishing.{
  same_counts, plain-ne-panic, check_owner-ne-panic, check_sync-ne-panic, published-IsSession,
}
use vecton.Registry.Valid.Syncing.{move-Safe}
use vecton.Registry.Valid.Targets.{active_session-get}

-- The steps that are retained point below the bound, and no new step appears.
retain_below-lt :
    (n : ℕ) (m : Map (Option BlockId) ℕ) (p : Option BlockId) (i : ℕ)
    → get p (retain_below n m) ≡ some i
    → i < n
unfolding retain_below get
retain_below-lt n [] p i h = absurd (cc)
retain_below-lt n ((q, j) ∷ m) p i h = ground (arith, retain_below-lt n m p i)

retain_below-none :
    (n : ℕ) (m : Map (Option BlockId) ℕ) (p : Option BlockId)
    → get p m ≡ none
    → get p (retain_below n m) ≡ none
unfolding retain_below get
retain_below-none n [] p h = refl
retain_below-none n ((q, j) ∷ m) p h = ground (arith, retain_below-none n m p)

retain_below-Unique : (n : ℕ) (m : Map (Option BlockId) ℕ) → Unique m → Unique (retain_below n m)
unfolding retain_below
retain_below-Unique n [] u = tt
retain_below-Unique n ((q, j) ∷ m) u =
    ground (arith, retain_below-Unique n m u.1, retain_below-none n m q u.0)

partition_point-le : (n : ℕ) (ts : List LocatedBlock) → partition_point n ts ≤ length ts
unfolding partition_point
partition_point-le n [] = omega arith
partition_point-le n (t ∷ ts) = ground (arith, partition_point-le n ts)

-- The session after a SyncWrite.
synced-IsSession :
    {r : Limits} (x : WriteSession) (g : ContentGeneration) (n : ℕ)
    → IsSession r x
    → IsSession r (synced_session x g n)
synced-IsSession x g n is =
    let point : ℕ = partition_point n x.issued_targets in
    let left : length (take point x.issued_targets) ≡ point =
      omega (arith, length-take point x.issued_targets, partition_point-le n x.issued_targets) in
    record {
      targets = omega (arith, is.targets, left, partition_point-le n x.issued_targets);
      steps = λ p i h. omega (arith, retain_below-lt point x.issued_steps p i h, left);
      steps_unique = retain_below-Unique point x.issued_steps is.steps_unique;
      step_new =
          λ q e. retain_below-none point x.issued_steps q.previous_block_id (is.step_new q e);
      exclusive = λ q e. refl;
    }

-- A session that no publication owns, with its lease as the time of retirement.
released-IsSession :
    {r : Limits} (x : WriteSession)
    → IsSession r x
    → IsSession r (record x { active_publication = none; publication_submitted = false })
released-IsSession x is = record {
  targets = is.targets;
  steps = is.steps;
  steps_unique = is.steps_unique;
  step_new = is.step_new;
  exclusive = λ q e. refl;
}

module _ {r : Limits} {s : SessionRegistryState} (v : Valid r s) (k : InodeId) (x x' : WriteSession)
    (out : ℕ)
    (h : Rewrites s k (active x) (active x') s.opening_sessions out s.pending_write_targets)
    (submitted : x'.publication_submitted ≡ x.publication_submitted)
    (expires : x'.expires_at_ms ≡ x.expires_at_ms) (room : out ≤ r.max_write_targets)
    (is : IsSession r x') where
  released :
      (b : Bool)
      → Rewrites s k
          (active x)
          (active (record x' { active_publication = none; publication_submitted = b }))
          s.opening_sessions
          out
          s.pending_write_targets
  released b = record {
    old = h.old;
    key = h.key;
    client = h.client;
    ancestors = h.ancestors;
    operation = h.operation;
    openings_count = h.openings_count;
    outstanding_count = h.outstanding_count;
    pending_count = h.pending_count;
  }

  -- The publication lets its session go.
  release-Safe :
      Safe (Valid r) (release_sync_publication k x' (record s { outstanding_write_targets = out }))
  unfolding release_sync_publication put_session
  release-Safe = elim (Bool-cases x'.publication_submitted) [
    | inl held ↦
        let y : WriteSession = record x' {
          active_publication = none;
          publication_submitted = false;
        } in
        rw (release_sync_publication, held)
          (subst
            (λ as'. Safe (Valid r) (
              move_expiry_indexes k as' u64_max x'.expires_at_ms
                (put_session k y (record s { outstanding_write_targets = out }))))
            (sym h.ancestors)
            (move-Safe v k x y out (released false) room (released-IsSession x' is) u64_max
              x'.expires_at_ms
              (sym (ap (λ (b : Bool). session_retirement b x.expires_at_ms) (sym submitted ∙ held)))
              refl))
    | inr plain ↦
        let y : WriteSession = record x' { active_publication = none } in
        let h' : Rewrites s k (active x) (active y) s.opening_sessions out s.pending_write_targets =
          released x'.publication_submitted in
        let same : retirement_at_ms (active y) ≡ retirement_at_ms (active x) =
          rw (submitted, expires) in
        let w' =
          rewritten-WellFormed v.well_formed k (active x) (active y) s.opening_sessions out
            s.pending_write_targets h' same in
        rw (release_sync_publication, plain)
          (Safe-some _ (
            rewritten-Valid v
              (rewritten k (active y) s.opening_sessions out s.pending_write_targets s) k (active x)
              y w' refl refl h.old h.client room (published-IsSession x' none (λ q e. refl) is)))
  ]

checked_sub-some : (a b : ℕ) → b ≤ a → checked_sub a b ≡ some (a - b)
checked_sub-some a b h = ground arith

module _ {r : Limits} {s : SessionRegistryState} (v : Valid r s) (k : InodeId) (x : WriteSession)
    (old : get k s.entries ≡ some (active x)) where
  install_sync-Safe : (g : ContentGeneration) (n : ℕ) → Safe (Upholds r) (install_sync k x g n s)
  unfolding install_sync
  install_sync-Safe g n =
      let point : ℕ = partition_point n x.issued_targets in
      let gone : ℕ = length x.issued_targets - point in
      let le = partition_point-le n x.issued_targets in
      let within_all : gone ≤ s.outstanding_write_targets =
        omega (arith, v.well_formed.outstanding, within entry_targets k (active x) s.entries old) in
      rw (checked_sub-some s.outstanding_write_targets gone within_all) (
        Safe-bind
          (release_sync_publication k (synced_session x g n)
            (record s { outstanding_write_targets = s.outstanding_write_targets - gone }))
          _
          (release-Safe v k x (synced_session x g n) (s.outstanding_write_targets - gone)
            (record {
              old = old;
              key = v.well_formed.entry_key k (active x) old;
              client = refl;
              ancestors = refl;
              operation = refl;
              openings_count = refl;
              outstanding_count = omega (arith, within_all, le, length-take point x.issued_targets);
              pending_count = refl;
            })
            refl refl (omega (arith, v.targets_bounded))
            (synced-IsSession x g n (v.session k x old)))
          (λ s' v'. rw (target_gauges-Safe v'.well_formed) (Safe-some _ v')))

  repeat_sync-Safe : Safe (Valid r) (release_sync_publication k (record x { mode = append }) s)
  repeat_sync-Safe =
      let is = v.session k x old in
      release-Safe v k x (record x { mode = append }) s.outstanding_write_targets
        (same_counts v k x (record x { mode = append }) old refl refl refl refl refl refl) refl refl
        v.targets_bounded
        (record {
          targets = is.targets;
          steps = is.steps;
          steps_unique = is.steps_unique;
          step_new = is.step_new;
          exclusive = is.exclusive;
        })

module _ {r : Limits} {s : SessionRegistryState} (v : Valid r s) where
  sync_swept-Safe :
      (k : InodeId) (e : LeaseEpoch) (p : WritePublicationId) (g : ContentGeneration) (n : ℕ)
      → Safe (Upholds r) (sync_swept k e p g n s)
  unfolding sync_swept
  sync_swept-Safe k e p g n = attempt-Safe v (active_session s k) _ (plain-ne-panic s k) (λ x found.
      attempt-Safe v (check_owner x e p) _ (check_owner-ne-panic x e p) (λ _ _.
        attempt-Safe v (check_sync x g n) _ (check_sync-ne-panic x g n)
          (λ repeated _. go x (active_session-get s k x found) repeated)))
    where
      go :
          (x : WriteSession)
          → get k s.entries ≡ some (active x)
          → (repeated : Bool)
          → Safe (Upholds {E = String} {A = Unit} r) (elim repeated [
            | true ↦ do
              s' ← release_sync_publication k (record x { mode = append }) s
              some (s', ok tt)
            | false ↦ install_sync k x g n s
          ])
      go x old true = Safe-bind _ _ (repeat_sync-Safe v k x old) (λ s' v'. Safe-some _ v')
      go x old false = install_sync-Safe v k x old g n

module _ {r : Limits} {s : SessionRegistryState} (v : Valid r s) where
  -- WritePublication::complete_sync
  pub complete_sync_publication-Safe :
      (k : InodeId) (e : LeaseEpoch) (p : WritePublicationId) (g : ContentGeneration) (n now : ℕ)
      → Safe (Upholds r) (complete_sync_publication k e p g n now s)
  unfolding complete_sync_publication
  complete_sync_publication-Safe k e p g n now =
      Safe-bind (sweep k now s) _ (sweep-Valid k now v) (λ s' v'. sync_swept-Safe v' k e p g n)
