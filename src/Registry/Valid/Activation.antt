-- ===== src/Registry/Valid/Activation.antt =====
-- Activating an opening, or dropping it, keeps the registry valid (beryl-metadata/src/session_registry.rs).
use vecton.Prelude.{
  ℕ, ◌+◌, ◌-◌, ◌≤◌, ◌≡◌, refl, subst, Option, some, none, arith, inl, inr, eqb, nat_eq, string_eq,
  pair_eq, option_eq, false, Bool-cases, Option-cases, checked_sub, leb, not, ◌||◌, ◌&&◌, length,
}
use vecton.Prelude.Maps.{get, get-insert}
use vecton.Prelude.Counts.{size}
use vecton.Prelude.Checked.{is_some, Safe, Safe-some, Safe-bind}
use vecton.Types.Layout.{file_layout_eqb}
use vecton.Types.Values.{InodeId, LeaseEpoch, LocatedBlock, block_id_eq}
use vecton.Inode.{FileData}
use vecton.Registry.{
  SessionRegistryState, WriteSessionEntry, opening, active, OpeningSession, Limits, operation_eq,
  WriteOpeningId, one_if_some,
}
use vecton.Registry.Entries.{remove_entry}
use vecton.Registry.Retire.{retire_expired_entry_for_inode}
use vecton.Registry.Opening.{
  activate_opening, activate_current, current_opening, opened_session, option_to_list,
  cancel_opening,
}
use vecton.Registry.WellFormed.{entry_slots, entry_opening}
use vecton.Registry.WellFormed.Entries.{session_gauges-Safe, within}
use vecton.Registry.WellFormed.Replacement.{rewritten-WellFormed, rewritten, changes}
use vecton.Registry.WellFormed.Sweep.{retire_expired_entry_for_inode-Kept, remove_entry-Kept}
use vecton.Registry.Valid.{Valid, Upholds, IsSession, AreLimits, Valid-Kept}

-- A fresh session has nothing pending, at most its tail, and no steps.
opened-IsSession :
    {r : Limits} (o : OpeningSession) (file : FileData) (tail : Option LocatedBlock)
    → AreLimits r
    → IsSession r (opened_session o file tail)
unfolding get
opened-IsSession o file none limits = record {
  targets = omega arith;
  steps = λ p n g. absurd (cc);
  steps_unique = tt;
  step_new = λ p e. refl;
  exclusive = λ p e. refl;
}
opened-IsSession o file (some tail) limits = record {
  targets = omega (arith, limits.per_session);
  steps = λ p n g. absurd (cc);
  steps_unique = tt;
  step_new = λ p e. refl;
  exclusive = λ p e. refl;
}

current_opening-get :
    (k : InodeId) (id : WriteOpeningId) (s : SessionRegistryState) (o : OpeningSession)
    → current_opening k id s ≡ some o
    → get k s.entries ≡ some (opening o)
unfolding current_opening
current_opening-get k id s o h = ground arith

one_tail : (tail : Option LocatedBlock) → length (option_to_list tail) ≡ one_if_some tail
one_tail none = refl
one_tail (some t) = refl

tail_room :
    (m n : ℕ) (tail : Option LocatedBlock)
    → n ≤ m
    → (is_some tail && leb m n) ≡ false
    → n + one_if_some tail ≤ m
tail_room m n none le h = omega (arith, le)
tail_room m n (some t) le h = ground arith

module _ {r : Limits} {s : SessionRegistryState} (v : Valid r s) (limits : AreLimits r) where
  opened-Valid :
      (k : InodeId) (o : OpeningSession) (file : FileData) (tail : Option LocatedBlock)
      → get k s.entries ≡ some (opening o)
      → (is_some tail && leb r.max_write_targets s.outstanding_write_targets) ≡ false
      → (checked_sub s.opening_sessions 1 ≡ some (s.opening_sessions - 1))
        × Valid r (
            rewritten k
              (active (opened_session o file tail))
              (s.opening_sessions - 1)
              (s.outstanding_write_targets + one_if_some tail)
              s.pending_write_targets
              s)
  unfolding size
  opened-Valid k o file tail old room =
      let w = v.well_formed in
      let e' : WriteSessionEntry = active (opened_session o file tail) in
      let counted : 1 ≤ s.opening_sessions =
        omega (arith, w.opening_count, within entry_opening k (opening o) s.entries old) in
      let w' =
        rewritten-WellFormed w k (opening o) e' (s.opening_sessions - 1)
          (s.outstanding_write_targets + one_if_some tail) s.pending_write_targets
          (record {
            old = old;
            key = w.entry_key k (opening o) old;
            client = refl;
            ancestors = refl;
            operation = refl;
            openings_count = omega (arith, counted);
            outstanding_count = omega (arith, one_tail tail);
            pending_count = omega arith;
          })
          refl in
      (
        ground (arith, counted),
        record {
          well_formed = w';
          sessions_bounded =
              omega (arith, v.sessions_bounded, changes (λ _ _. 1) k (opening o) e' s.entries old);
          clients_bounded = λ client. omega (
            arith,
            v.clients_bounded client,
            changes (entry_slots client) k (opening o) e' s.entries old,
          );
          targets_bounded =
              tail_room r.max_write_targets s.outstanding_write_targets tail v.targets_bounded room;
          session = λ j x g. elim (Bool-cases (eqb k j)) [
            | inl hit ↦
                let same : opened_session o file tail ≡ x =
                  ground (arith, get-insert k j e' s.entries) in
                subst (IsSession r) same (opened-IsSession o file tail limits)
            | inr miss ↦ v.session j x (ground (arith, get-insert k j e' s.entries))
          ];
        },
      )

  activate_current-Safe :
      (k : InodeId) (o : OpeningSession) (returned : LeaseEpoch) (file : FileData)
      (tail : Option LocatedBlock)
      → get k s.entries ≡ some (opening o)
      → Safe (Upholds r) (activate_current r k o returned file tail s)
  unfolding activate_current
  activate_current-Safe k o returned file tail old =
      elim (Bool-cases (not (eqb o.proposed_lease_epoch returned))) [
        | inl other ↦ rw (activate_current, other) (Safe-some _ v)
        | inr same ↦
            elim (Bool-cases
              (not (eqb file.lease_epoch returned) || not (file_layout_eqb file.layout o.layout))) [
                | inl changed ↦ rw (activate_current, same, changed) (Safe-some _ v)
                | inr kept ↦
                    elim (Bool-cases
                      (is_some tail && leb r.max_write_targets s.outstanding_write_targets)) [
                        | inl full ↦ rw (activate_current, same, kept, full) (Safe-some _ v)
                        | inr room ↦
                            let (counted, v') = opened-Valid k o file tail old room in
                            rw
                              (
                                activate_current,
                                same,
                                kept,
                                room,
                                counted,
                                session_gauges-Safe v'.well_formed,
                              )
                              (Safe-some _ v')
                      ]
              ]
      ]

  -- WriteOpening::activate
  pub activate_opening-Safe :
      (k : InodeId) (id : WriteOpeningId) (returned : LeaseEpoch) (now : ℕ) (file : FileData)
      (tail : Option LocatedBlock)
      → Safe (Upholds r) (activate_opening r k id returned now file tail s)
  unfolding activate_opening
  activate_opening-Safe k id returned now file tail = elim (Option-cases (current_opening k id s)) [
    | inl gone ↦ rw (activate_opening, gone) (Safe-some _ v)
    | inr (o, current) ↦ elim (Bool-cases (leb o.expires_at_ms now)) [
      | inl past ↦
          rw (activate_opening, current, past)
            (Safe-bind (retire_expired_entry_for_inode k now s) _
              (retire_expired_entry_for_inode-Kept k now v.well_formed)
              (λ x p. Safe-some _ (Valid-Kept v p.0)))
      | inr live ↦
          rw (activate_opening, current, live)
            (activate_current-Safe k o returned file tail (current_opening-get k id s o current))
    ]
  ]

-- WriteOpening::drop
pub cancel_opening-Safe :
    {r : Limits} {s : SessionRegistryState} (k : InodeId) (id : WriteOpeningId)
    → Valid r s
    → Safe (Valid r) (cancel_opening k id s)
unfolding cancel_opening
cancel_opening-Safe {s = s} k id v = elim (Option-cases (current_opening k id s)) [
  | inl gone ↦ rw (cancel_opening, gone) (Safe-some s v)
  | inr (o, current) ↦
      rw (cancel_opening, current)
        (Safe-bind (remove_entry k s) _ (remove_entry-Kept k v.well_formed)
          (λ x p. Safe-some x.0 (Valid-Kept v p)))
]
