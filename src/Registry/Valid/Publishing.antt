-- ===== src/Registry/Valid/Publishing.antt =====
-- Publications keep the registry valid (beryl-metadata/src/session_registry.rs).
use vecton.Prelude.{
  ℕ, ◌≡◌, ◌≢◌, refl, ap, ◌∙◌, Option, some, none, arith, inl, inr, nat_eq, pair_eq, option_eq,
  Bool-cases, Option-cases, checked_add, not, ◌&&◌, length,
}
use vecton.Prelude.Maps.{get}
use vecton.Prelude.Result.{ok, panic, map_err}
use vecton.Prelude.Checked.{Safe, Safe-some, Safe-bind}
use vecton.Types.Values.{InodeId, LeaseEpoch, ContentGeneration, block_id_eq}
use vecton.Registry.{
  SessionRegistryState, active, WriteSession, WritePublicationId, PendingAllocateBlock, Limits,
  replay_operation, one_if_some,
}
use vecton.Registry.Entries.{put_session, remove_entry}
use vecton.Registry.SessionChecks.{
  active_session, check_publication, BeginWritePublicationError, check_owner, check_sync,
}
use vecton.Registry.Publishing.{
  WritePublication, begin_publication, publish_swept, revalidate_publication, publishing_session,
  complete_commit_publication, cancel_publication, drop_publication,
}
use vecton.Registry.Calls.{sweep}
use vecton.Registry.WellFormed.{WellFormed}
use vecton.Registry.WellFormed.Replacement.{Rewrites, rewritten-WellFormed}
use vecton.Registry.WellFormed.Sweep.{remove_entry-Kept}
use vecton.Registry.Valid.{
  Valid, Upholds, IsSession, Valid-Kept, sweep-Valid, attempt-Safe, rewritten-Valid,
}
use vecton.Registry.Valid.Targets.{active_session-get, active_session-ne-panic}

-- A rewrite that leaves the counted parts of a session alone.
pub same_counts :
    {r : Limits} {s : SessionRegistryState} (v : Valid r s) (k : InodeId) (x x' : WriteSession)
    → get k s.entries ≡ some (active x)
    → x'.inode_id ≡ x.inode_id
    → x'.open_client_id ≡ x.open_client_id
    → x'.ancestor_inode_ids ≡ x.ancestor_inode_ids
    → x'.create_replay ≡ x.create_replay
    → x'.issued_targets ≡ x.issued_targets
    → x'.pending_allocate_block ≡ x.pending_allocate_block
    → Rewrites s k
        (active x)
        (active x')
        s.opening_sessions
        s.outstanding_write_targets
        s.pending_write_targets
same_counts v k x x' old inode client ancestors replay targets pending = record {
  old = old;
  key = inode ∙ v.well_formed.entry_key k (active x) old;
  client = client;
  ancestors = ancestors;
  operation = ap replay_operation replay;
  openings_count = refl;
  outstanding_count = omega (arith, ap length targets, ap one_if_some pending);
  pending_count = omega (arith, ap one_if_some pending);
}

check_publication-ne-panic : (x : WriteSession) (e : LeaseEpoch) → check_publication x e ≢ panic
unfolding check_publication
check_publication-ne-panic x e h = ground arith

check_publication-idle :
    (x : WriteSession) (e : LeaseEpoch)
    → check_publication x e ≡ ok tt
    → x.pending_allocate_block ≡ none
unfolding check_publication
check_publication-idle x e h = ground arith

pub check_owner-ne-panic :
    (x : WriteSession) (e : LeaseEpoch) (p : WritePublicationId) → check_owner x e p ≢ panic
unfolding check_owner
check_owner-ne-panic x e p h = ground arith

pub check_sync-ne-panic :
    (x : WriteSession) (g : ContentGeneration) (n : ℕ) → check_sync x g n ≢ panic
unfolding check_sync
check_sync-ne-panic x g n h = ground arith

pub plain-ne-panic : (s : SessionRegistryState) (k : InodeId) → active_session s k ≢ panic
unfolding active_session
plain-ne-panic s k h = ground arith

-- A session whose publication field alone changes.
pub published-IsSession :
    {r : Limits} (x : WriteSession) (p : Option WritePublicationId)
    → ((q : PendingAllocateBlock) → x.pending_allocate_block ≡ some q → p ≡ none)
    → IsSession r x
    → IsSession r (record x { active_publication = p })
published-IsSession x p alone is = record {
  targets = is.targets;
  steps = is.steps;
  steps_unique = is.steps_unique;
  step_new = is.step_new;
  exclusive = alone;
}

WellFormed-publication :
    {s : SessionRegistryState} (n : ℕ)
    → WellFormed s
    → WellFormed (record s { next_publication_id = n })
WellFormed-publication n w = record {
  entries_unique = w.entries_unique;
  creates_unique = w.creates_unique;
  entry_key = w.entry_key;
  create_key = w.create_key;
  by_expiry = w.by_expiry;
  operations = w.operations;
  by_path = w.by_path;
  create_by_expiry = w.create_by_expiry;
  create_operations = w.create_operations;
  occupied = w.occupied;
  activity = w.activity;
  opening_count = w.opening_count;
  outstanding = w.outstanding;
  pending = w.pending;
  apart = w.apart;
  issued_ids = w.issued_ids;
}

module _ {r : Limits} {s : SessionRegistryState} (v : Valid r s) (k : InodeId) where
  -- A new value of the publication field is stored.
  put_publication-Valid :
      (x : WriteSession) (p : Option WritePublicationId) (n : ℕ)
      → get k s.entries ≡ some (active x)
      → ((q : PendingAllocateBlock) → x.pending_allocate_block ≡ some q → p ≡ none)
      → Valid r (
          put_session k
            (record x { active_publication = p })
            (record s { next_publication_id = n }))
  unfolding put_session
  put_publication-Valid x p n old alone =
      let x' : WriteSession = record x { active_publication = p } in
      let w' = WellFormed-publication n (
        rewritten-WellFormed v.well_formed k (active x) (active x') s.opening_sessions
          s.outstanding_write_targets s.pending_write_targets
          (same_counts v k x x' old refl refl refl refl refl refl) refl) in
      rewritten-Valid v (put_session k x' (record s { next_publication_id = n })) k (active x) x' w'
        refl refl old refl v.targets_bounded (published-IsSession x p alone (v.session k x old))

  publish_swept-Safe : (e : LeaseEpoch) → Safe (Upholds r) (publish_swept k e s)
  unfolding publish_swept
  publish_swept-Safe e =
      attempt-Safe v (map_err BeginWritePublicationError.session (active_session s k)) _
        (active_session-ne-panic BeginWritePublicationError.session s k)
        (λ x found.
          attempt-Safe v (check_publication x e) _ (check_publication-ne-panic x e) (λ _ passed.
            elim (Option-cases (checked_add s.next_publication_id 1)) [
              | inl exhausted ↦ rw exhausted (Safe-some _ v)
              | inr (next, advanced) ↦ rw advanced (
                  Safe-some _ (
                    put_publication-Valid x (some s.next_publication_id) next
                      (active_session-get s k x (ground (arith, found)))
                      (λ q e'. ground (arith, check_publication-idle x e passed, e'))))
            ]))

module _ {r : Limits} {s : SessionRegistryState} (v : Valid r s) where
  -- SessionRegistry::begin_publication
  pub begin_publication-Safe :
      (k : InodeId) (e : LeaseEpoch) (now : ℕ) → Safe (Upholds r) (begin_publication k e now s)
  unfolding begin_publication
  begin_publication-Safe k e now =
      Safe-bind (sweep k now s) _ (sweep-Valid k now v) (λ s' v'. publish_swept-Safe v' k e)

  -- WritePublication::revalidate
  pub revalidate_publication-Safe :
      (k : InodeId) (e : LeaseEpoch) (p : WritePublicationId) (now : ℕ)
      → Safe (Upholds r) (revalidate_publication k e p now s)
  unfolding revalidate_publication
  revalidate_publication-Safe k e p now =
      Safe-bind (sweep k now s) _ (sweep-Valid k now v) (λ s' v'.
        attempt-Safe v' (active_session s' k) _ (plain-ne-panic s' k) (λ x _.
          attempt-Safe v' (check_owner x e p) _ (check_owner-ne-panic x e p)
            (λ _ _. Safe-some _ v')))

  publishing_session-get :
      (k : InodeId) (e : LeaseEpoch) (p : WritePublicationId) (x : WriteSession)
      → publishing_session k e p s ≡ some x
      → get k s.entries ≡ some (active x)
  unfolding publishing_session
  publishing_session-get k e p x h = ground arith

  -- WritePublication::complete_commit
  pub complete_commit_publication-Safe :
      (k : InodeId) (e : LeaseEpoch) (p : WritePublicationId)
      → Safe (Valid r) (complete_commit_publication k e p s)
  unfolding complete_commit_publication
  complete_commit_publication-Safe k e p = elim (Option-cases (publishing_session k e p s)) [
    | inl gone ↦ rw (complete_commit_publication, gone) (Safe-some s v)
    | inr (x, current) ↦
        rw (complete_commit_publication, current)
          (Safe-bind (remove_entry k s) _ (remove_entry-Kept k v.well_formed)
            (λ y q. Safe-some y.0 (Valid-Kept v q)))
  ]

  cancel_publication-Valid :
      (k : InodeId) (e : LeaseEpoch) (p : WritePublicationId) → Valid r (cancel_publication k e p s)
  unfolding cancel_publication
  cancel_publication-Valid k e p = elim (Option-cases (publishing_session k e p s)) [
    | inl gone ↦ rw (cancel_publication, gone) v
    | inr (x, current) ↦
        rw (cancel_publication, current)
          (put_publication-Valid v k x none s.next_publication_id
            (publishing_session-get k e p x current) (λ q e'. refl))
  ]

module _ {r : Limits} {s : SessionRegistryState} (v : Valid r s) where
  -- WritePublication::drop
  pub drop_publication-Valid : (p : WritePublication) → Valid r (drop_publication p s)
  unfolding drop_publication
  drop_publication-Valid p = elim (Bool-cases (p.armed && not p.submitted)) [
    | inl held ↦
        rw (drop_publication, held)
          (cancel_publication-Valid v p.session.inode_id p.session.lease_epoch p.publication_id)
    | inr done ↦ rw (drop_publication, done) v
  ]
