-- ===== src/Registry/Valid/Lookup.antt =====
-- Looking a session up, renewing it or ending it keeps the registry valid
-- (beryl-metadata/src/session_registry.rs).
use vecton.Prelude.{
  ℕ, ◌≡◌, ◌≢◌, refl, ap, sym, subst, Option, some, none, arith, inl, inr, eqb, nat_eq, pair_eq,
  Bool, true, false, Bool-cases, Option-cases, List,
}
use vecton.Prelude.Maps.{get}
use vecton.Prelude.Result.{ok, panic}
use vecton.Prelude.Checked.{◌>>=◌, is_some, Safe, Safe-some, Safe-bind, Safe-attach}
use vecton.Types.Values.{InodeId, ClientId, LeaseEpoch}
use vecton.Registry.{
  SessionRegistryState, WriteSessionEntry, opening, active, WriteSession, Limits,
  session_retirement,
}
use vecton.Registry.Activity.{move_activities}
use vecton.Registry.Entries.{put_session, move_expiry_indexes, remove_entry}
use vecton.Registry.Retire.{retire_expired_entries, retire_expired_entry_for_inode}
use vecton.Registry.SessionChecks.{owned_session, renewable_session}
use vecton.Registry.Lookup.{
  get_session, get_session_identity, remove_session_if_epoch, has_epoch, session_of,
  validate_session, entry_expired, renew_found, renewed, renew_session_at,
  has_active_write_under_at,
}
use vecton.Registry.Calls.{sweep}
use vecton.Registry.WellFormed.Replacement.{rewritten, rewritten-WellFormed}
use vecton.Registry.WellFormed.Sweep.{
  retire_expired_entries-Kept, retire_expired_entry_for_inode-Kept, remove_entry-found,
}
use vecton.Registry.Valid.{
  Valid, Upholds, IsSession, Valid-Kept, sweep-Valid, attempt-Safe, rewritten-Valid,
}
use vecton.Registry.Valid.Publishing.{same_counts}
use vecton.Registry.Valid.Syncing.{move-Safe}

owned_session-ne-panic :
    (s : SessionRegistryState) (k : InodeId) (e : LeaseEpoch) → owned_session s k e ≢ panic
unfolding owned_session
owned_session-ne-panic s k e h = ground arith

renewable_session-ne-panic :
    (s : SessionRegistryState) (k : InodeId) (e : LeaseEpoch) (c : ClientId)
    → renewable_session s k e c ≢ panic
unfolding renewable_session owned_session
renewable_session-ne-panic s k e c h = ground arith

renewable_session-get :
    (s : SessionRegistryState) (k : InodeId) (e : LeaseEpoch) (c : ClientId) (x : WriteSession)
    → renewable_session s k e c ≡ ok x
    → get k s.entries ≡ some (active x)
unfolding renewable_session owned_session
renewable_session-get s k e c x h = ground arith

-- A session whose expiry alone changes.
renewed-IsSession :
    {r : Limits} (x : WriteSession) (t : ℕ)
    → IsSession r x
    → IsSession r (record x { expires_at_ms = t })
renewed-IsSession x t is = record {
  targets = is.targets;
  steps = is.steps;
  steps_unique = is.steps_unique;
  step_new = is.step_new;
  exclusive = is.exclusive;
}

-- The session may be written before or after its indexes move.
move-put :
    (k : InodeId) (as' : List InodeId) (t u : ℕ) (x : WriteSession) (s : SessionRegistryState)
    → move_expiry_indexes k as' t u (put_session k x s)
      ≡ (move_expiry_indexes k as' t u s >>= λ s'. some (put_session k x s'))
unfolding move_expiry_indexes put_session
move-put k as' t u x s = elim (Bool-cases (is_some (get (t, k) s.entries_by_expiry))) [
  | inl listed ↦ elim (Option-cases (move_activities as' t u s.ancestor_activity)) [
    | inl stuck ↦ rw (listed, stuck)
    | inr (m, moved) ↦ rw (listed, moved)
  ]
  | inr missing ↦ rw missing
]

module _ {r : Limits} {s : SessionRegistryState} (v : Valid r s) where
  -- get_session
  pub get_session-Safe : (k : InodeId) (now : ℕ) → Safe (λ x. Valid r x.0) (get_session k now s)
  unfolding get_session
  get_session-Safe k now =
      Safe-bind (sweep k now s) _ (sweep-Valid k now v) (λ s' v'. Safe-some _ v')

  -- get_session_identity
  pub get_session_identity-Safe :
      (k : InodeId) (now : ℕ) → Safe (λ x. Valid r x.0) (get_session_identity k now s)
  unfolding get_session_identity
  get_session_identity-Safe k now =
      Safe-bind (sweep k now s) _ (sweep-Valid k now v) (λ s' v'. Safe-some _ v')

  -- has_active_write_under
  pub has_active_write_under_at-Safe :
      (k : InodeId) (now : ℕ) → Safe (λ x. Valid r x.0) (has_active_write_under_at k now s)
  unfolding has_active_write_under_at
  has_active_write_under_at-Safe k now =
      Safe-bind (retire_expired_entries now s) _ (retire_expired_entries-Kept now v.well_formed)
        (λ x p. Safe-some _ (Valid-Kept v p.0))

  -- validate_session
  pub validate_session-Safe :
      (k : InodeId) (e : LeaseEpoch) (now : ℕ) → Safe (Upholds r) (validate_session k e now s)
  unfolding validate_session
  validate_session-Safe k e now = elim (Bool-cases (entry_expired now (get k s.entries))) [
    | inl past ↦
        rw (validate_session, past)
          (Safe-bind (retire_expired_entry_for_inode k now s) _
            (retire_expired_entry_for_inode-Kept k now v.well_formed)
            (λ x p. Safe-some _ (Valid-Kept v p.0)))
    | inr live ↦
        rw (validate_session, live)
          (Safe-bind (retire_expired_entries now s) _
            (retire_expired_entries-Kept now v.well_formed)
            (λ x p.
              let v' : Valid r x.0 = Valid-Kept v p.0 in
              attempt-Safe v' (owned_session x.0 k e) _ (owned_session-ne-panic x.0 k e)
                (λ _ _. Safe-some _ v')))
  ]

  renew_found-Safe :
      (k : InodeId) (now : ℕ) (x : WriteSession)
      → get k s.entries ≡ some (active x)
      → Safe (Upholds r) (renew_found r k now x s)
  unfolding renew_found put_session
  renew_found-Safe k now x old =
      let t : ℕ = renewed r now x in
      let x' : WriteSession = record x { expires_at_ms = t } in
      let h = same_counts v k x x' old refl refl refl refl refl refl in
      let is = renewed-IsSession x t (v.session k x old) in
      elim (Bool-cases x.publication_submitted) [
        | inl held ↦
            let same : session_retirement x.publication_submitted t
                ≡ session_retirement x.publication_submitted x.expires_at_ms =
              rw held in
            let w' =
              rewritten-WellFormed v.well_formed k (active x) (active x') s.opening_sessions
                s.outstanding_write_targets s.pending_write_targets h same in
            rw (renew_found, held)
              (Safe-some _ (
                rewritten-Valid v
                  (rewritten k (active x') s.opening_sessions s.outstanding_write_targets
                    s.pending_write_targets s)
                  k (active x) x' w' refl refl old refl v.targets_bounded is))
        | inr plain ↦
            let p =
              move-Safe v k x x' s.outstanding_write_targets h v.targets_bounded is x.expires_at_ms
                t (sym (ap (λ (b : Bool). session_retirement b x.expires_at_ms) plain))
                (sym (ap (λ (b : Bool). session_retirement b t) plain)) in
            rw (renew_found, plain)
              (Safe-attach (move_expiry_indexes k x.ancestor_inode_ids x.expires_at_ms t s)
                (λ s'. put_session k x' s') _
                (subst (Safe (Valid r)) (move-put k x.ancestor_inode_ids x.expires_at_ms t x' s) p))
      ]

module _ {r : Limits} {s : SessionRegistryState} (v : Valid r s) where
  -- renew_session
  pub renew_session_at-Safe :
      (k : InodeId) (e : LeaseEpoch) (c : ClientId) (now : ℕ)
      → Safe (Upholds r) (renew_session_at r k e c now s)
  unfolding renew_session_at
  renew_session_at-Safe k e c now = elim (Bool-cases (entry_expired now (get k s.entries))) [
    | inl past ↦
        rw (renew_session_at, past)
          (Safe-bind (retire_expired_entry_for_inode k now s) _
            (retire_expired_entry_for_inode-Kept k now v.well_formed)
            (λ x p. Safe-some _ (Valid-Kept v p.0)))
    | inr live ↦
        rw (renew_session_at, live)
          (Safe-bind (retire_expired_entries now s) _
            (retire_expired_entries-Kept now v.well_formed)
            (λ x p.
              let v' : Valid r x.0 = Valid-Kept v p.0 in
              attempt-Safe v' (renewable_session x.0 k e c) _ (renewable_session-ne-panic x.0 k e c)
                (λ y found. renew_found-Safe v' k now y (renewable_session-get x.0 k e c y found))))
  ]

  -- remove_session_if_epoch
  pub remove_session_if_epoch-Safe :
      (k : InodeId) (e : LeaseEpoch) → Safe (λ x. Valid r x.0) (remove_session_if_epoch k e s)
  unfolding remove_session_if_epoch
  remove_session_if_epoch-Safe k e = elim (Option-cases (get k s.entries)) [
    | inl absent ↦ rw (remove_session_if_epoch, absent) (Safe-some _ v)
    | inr (entry, found) ↦ go entry found
  ]
    where
      go :
          (entry : WriteSessionEntry)
          → get k s.entries ≡ some entry
          → Safe
              (λ (x : SessionRegistryState × Option WriteSession). Valid r x.0)
              (elim (has_epoch e (session_of (get k s.entries))) [
                | false ↦ some (s, none)
                | true ↦ do
                  (s', removed) ← remove_entry k s
                  x ← session_of removed
                  some (s', some x)
              ])
      go (opening o) found = rw found (Safe-some _ v)
      go (active x) found = elim (Bool-cases (eqb x.lease_epoch e)) [
        | inl hit ↦
            rw (found, hit)
              (Safe-bind (remove_entry k s) _ (remove_entry-found k (active x) v.well_formed found)
                (λ y p. rw (p.2) (Safe-some _ (Valid-Kept v p.0))))
        | inr miss ↦ rw (found, miss) (Safe-some _ v)
      ]
