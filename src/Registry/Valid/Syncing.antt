-- ===== src/Registry/Valid/Syncing.antt =====
-- Submission and SyncWrite move a session between expiries and keep the registry valid
-- (beryl-metadata/src/session_registry.rs).
use vecton.Prelude.{
  ℕ, ◌+◌, ◌-◌, ◌≤◌, ◌≡◌, refl, ap, sym, ◌∙◌, subst, some, arith, inl, inr, eqb, nat_eq, pair_eq,
  option_eq, Bool, true, false, Bool-cases, leb, not, ◌||◌, ◌==◌, option_eqb_iff, u64_max,
}
use vecton.Prelude.Maps.{get, insert, remove}
use vecton.Prelude.Checked.{is_none, Safe, Safe-some, Safe-bind}
use vecton.Types.Values.{InodeId, block_id_eq, checked_next}
use vecton.Registry.{
  SessionRegistryState, active, WriteSession, Limits, retirement_at_ms, session_retirement,
}
use vecton.Registry.Entries.{put_session, move_expiry_indexes}
use vecton.Registry.Activity.{Activity, share, move_activities}
use vecton.Registry.SessionChecks.{active_session}
use vecton.Registry.Publishing.{WritePublication, mark_submitted}
use vecton.Registry.WellFormed.{WellFormed, activity_of}
use vecton.Registry.WellFormed.Replacement.{Rewrites, rewritten, moved-WellFormed, activities_move}
use vecton.Registry.Valid.{Valid, Upholds, IsSession, attempt-Safe, rewritten-Valid}
use vecton.Registry.Valid.Publishing.{same_counts, plain-ne-panic}
use vecton.Registry.Valid.Targets.{active_session-get}

-- A session moves to another expiry without a panic.
module _ {r : Limits} {s : SessionRegistryState} (v : Valid r s) (k : InodeId) (x x' : WriteSession)
    (out : ℕ)
    (h : Rewrites s k (active x) (active x') s.opening_sessions out s.pending_write_targets)
    (room : out ≤ r.max_write_targets) (is : IsSession r x') where
  pub move-Safe :
      (previous next : ℕ)
      → previous ≡ retirement_at_ms (active x)
      → next ≡ retirement_at_ms (active x')
      → Safe (Valid r) (
          move_expiry_indexes k x.ancestor_inode_ids previous next
            (put_session k x' (record s { outstanding_write_targets = out })))
  unfolding move_expiry_indexes put_session
  move-Safe previous next from to =
      let listed : get (previous, k) s.entries_by_expiry ≡ some tt =
        v.well_formed.by_expiry.complete k (active x) (previous, k) h.old
          (ap (λ (t : ℕ). some (t, k)) (sym from)) in
      rw listed (
        Safe-bind (move_activities x.ancestor_inode_ids previous next s.ancestor_activity) _
          (activities_move v.well_formed k (active x) (active x') s.opening_sessions out
            s.pending_write_targets h previous next from)
          (λ activity act.
            let w' =
              moved-WellFormed v.well_formed k (active x) (active x') s.opening_sessions out
                s.pending_write_targets h activity
                (subst
                  (λ (t : ℕ). Activity activity (λ a u.
                    activity_of s a u
                    - share x.ancestor_inode_ids t a u
                    + share x.ancestor_inode_ids (retirement_at_ms (active x')) a u))
                  from
                  (subst
                    (λ (t : ℕ). Activity activity (λ a u.
                      activity_of s a u
                      - share x.ancestor_inode_ids previous a u
                      + share x.ancestor_inode_ids t a u))
                    to act)) in
            let s' : SessionRegistryState =
              record (rewritten k (active x') s.opening_sessions out s.pending_write_targets s) {
                entries_by_expiry = insert (next, k) tt (remove (previous, k) s.entries_by_expiry);
                ancestor_activity = activity;
              } in
            Safe-some s' (
              rewritten-Valid v s' k (active x) x'
                (subst
                  (λ (t : ℕ).
                    WellFormed
                      (record (rewritten k (active x') s.opening_sessions out
                        s.pending_write_targets s) {
                          entries_by_expiry =
                              insert (next, k) tt (remove (t, k) s.entries_by_expiry);
                          ancestor_activity = activity;
                        }))
                  (sym from)
                  (subst
                    (λ (t : ℕ).
                      WellFormed
                        (record (rewritten k (active x') s.opening_sessions out
                          s.pending_write_targets s) {
                            entries_by_expiry =
                                insert (t, k) tt
                                  (remove (retirement_at_ms (active x), k) s.entries_by_expiry);
                            ancestor_activity = activity;
                          }))
                    (sym to) w'))
                refl refl h.old h.client room is)))

-- The owner and the session agree on whether the publication was submitted.
abbrev pub Agrees : WritePublication → SessionRegistryState → Type 0
Agrees p s =
    (x : WriteSession)
    → get p.session.inode_id s.entries ≡ some (active x)
    → x.active_publication ≡ some p.publication_id
    → x.publication_submitted ≡ p.submitted

module _ {r : Limits} {s : SessionRegistryState} (v : Valid r s) where
  submit-Safe :
      (p : WritePublication) (x : WriteSession)
      → get p.session.inode_id s.entries ≡ some (active x)
      → x.publication_submitted ≡ false
      → Safe (Valid r) (
          move_expiry_indexes p.session.inode_id x.ancestor_inode_ids x.expires_at_ms u64_max
            (put_session p.session.inode_id (record x { publication_submitted = true }) s))
  submit-Safe p x old idle =
      let is = v.session p.session.inode_id x old in
      move-Safe v p.session.inode_id x (record x { publication_submitted = true })
        s.outstanding_write_targets
        (same_counts v p.session.inode_id x (record x { publication_submitted = true }) old refl
          refl refl refl refl refl)
        v.targets_bounded
        (record {
          targets = is.targets;
          steps = is.steps;
          steps_unique = is.steps_unique;
          step_new = is.step_new;
          exclusive = is.exclusive;
        })
        x.expires_at_ms u64_max (sym (ap (λ (b : Bool). session_retirement b x.expires_at_ms) idle))
        refl

  -- WritePublication::mark_submitted
  pub mark_submitted-Safe :
      (p : WritePublication) (now : ℕ) → Agrees p s → Safe (Upholds r) (mark_submitted p now s)
  unfolding mark_submitted
  mark_submitted-Safe p now agrees = elim (Bool-cases p.submitted) [
    | inl done ↦ rw (mark_submitted, done) (Safe-some _ v)
    | inr idle ↦ elim (Bool-cases (is_none (checked_next p.session.lease_epoch))) [
      | inl exhausted ↦ rw (mark_submitted, idle, exhausted) (Safe-some _ v)
      | inr free ↦
          rw (mark_submitted, idle, free)
            (attempt-Safe v (active_session s p.session.inode_id) _
              (plain-ne-panic s p.session.inode_id)
              (λ x found.
                elim (Bool-cases (
                  not (eqb x.lease_epoch p.session.lease_epoch)
                  || not (x.active_publication == some p.publication_id)
                  || leb x.expires_at_ms now)) [
                    | inl changed ↦ rw changed (Safe-some _ v)
                    | inr current ↦
                        let old = active_session-get s p.session.inode_id x found in
                        let owned : x.active_publication ≡ some p.publication_id = ground (
                          arith,
                          current,
                          option_eqb_iff x.active_publication (some p.publication_id),
                        ) in
                        rw current (
                          Safe-bind _ _ (submit-Safe p x old (agrees x old owned ∙ idle))
                            (λ s' v'. Safe-some _ v'))
                  ]))
    ]
  ]
