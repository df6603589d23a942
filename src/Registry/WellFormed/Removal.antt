-- ===== src/Registry/WellFormed/Removal.antt =====
-- An entry leaves the registry with all its indexes (beryl-metadata/src/session_registry.rs).
use vecton.Prelude.{
  ℕ, ◌-◌, ◌≤◌, ◌<◌, ◌≡◌, refl, Option, some, none, arith, inl, inr, eqb_iff, nat_eq, pair_eq,
  option_eq, Map, Unique, ◌==◌, test_refl, Option-cases, checked_sub,
}
use vecton.Prelude.Maps.{get, remove, get-remove, remove-Unique}
use vecton.Prelude.Counts.{Counts, Counts-ext, decrement-Counts, Counts-or_zero, at_key}
use vecton.Prelude.Indexes.{Indexes, Indexes-remove, Indexes-remove_keyless}
use vecton.Prelude.Checked.{Safe, Safe-some, Safe-assert, Safe-bind}
use vecton.Types.Values.{InodeId, ClientId}
use vecton.Registry.{
  SessionRegistryState, WriteSessionEntry, CreateFileOperationId, operation_eq, client_id_of,
  retirement_at_ms, ancestors_of, owned_write_targets, pending_write_targets_of, operation_of,
}
use vecton.Registry.Activity.{
  Activity, Activity-ext, share, drop_activities, drop_activities-Activity,
}
use vecton.Registry.Entries.{count_opening, leave_operation, remove_found}
use vecton.Registry.WellFormed.{
  WellFormed, expiry_key, operation_key, entry_slots, entry_share, entry_opening, entry_targets,
  entry_pending, client_slots, activity_of,
}
use vecton.Registry.WellFormed.Entries.{shrinks, within, session_gauges-Safe, target_gauges-Safe}

leave_operation-Safe :
    (o : Option CreateFileOperationId) (k : InodeId) (e : WriteSessionEntry)
    {m : Map CreateFileOperationId InodeId} {entries : Map InodeId WriteSessionEntry}
    → operation_of e ≡ o
    → Unique entries
    → get k entries ≡ some e
    → Indexes (λ k. k) operation_key m entries
    → Safe (λ m'. Indexes (λ k. k) operation_key m' (remove k entries)) (leave_operation o k m)
leave_operation-Safe none k e {m} at u old h =
    Safe-some m (Indexes-remove_keyless (λ k. k) operation_key k e u old at h)
leave_operation-Safe (some x) k e {m} at u old h =
    let found : get x m ≡ some k = h.complete k e x old at in
    Safe-assert (get x m == some k) _ (rw found (test_refl (some k))) (
      Safe-some _ (
        Indexes-remove (λ k. k) operation_key k e x u old at
          (λ k' e' g at'. ground (arith, h.complete k' e' x g at', found)) h))

-- The state that `remove_found` leaves.
abbrev pub removed :
    InodeId
    → WriteSessionEntry
    → Map CreateFileOperationId InodeId
    → Map InodeId (Map ℕ ℕ)
    → Map ClientId ℕ
    → SessionRegistryState
    → SessionRegistryState
removed k e operations activity occupied s = record s {
  entries = remove k s.entries;
  active_create_operations = operations;
  opening_sessions = s.opening_sessions - count_opening e;
  entries_by_expiry = remove (retirement_at_ms e, k) s.entries_by_expiry;
  ancestor_activity = activity;
  occupied_sessions_by_client = occupied;
  outstanding_write_targets = s.outstanding_write_targets - owned_write_targets e;
  pending_write_targets = s.pending_write_targets - pending_write_targets_of e;
}

checked_sub-some : (a b : ℕ) → b ≤ a → checked_sub a b ≡ some (a - b)
checked_sub-some a b h = ground arith

module _ {s : SessionRegistryState} (w : WellFormed s) (k : InodeId) (e : WriteSessionEntry)
    (old : get k s.entries ≡ some e) where
  removed-WellFormed :
      (operations : Map CreateFileOperationId InodeId) (activity : Map InodeId (Map ℕ ℕ))
      (occupied : Map ClientId ℕ)
      → Indexes (λ k. k) operation_key operations (remove k s.entries)
      → Activity activity
          (λ a t. activity_of s a t - share (ancestors_of e) (retirement_at_ms e) a t)
      → Counts occupied (λ j. client_slots s j - at_key (client_id_of e) j)
      → WellFormed (removed k e operations activity occupied s)
  removed-WellFormed operations activity occupied ops act occ = record {
    entries_unique = remove-Unique k s.entries w.entries_unique;
    creates_unique = w.creates_unique;
    entry_key =
        λ j x g. w.entry_key j x (ground (arith, get-remove k j s.entries w.entries_unique));
    create_key = w.create_key;
    by_expiry =
        Indexes-remove (λ _. tt) expiry_key k e (retirement_at_ms e, k) w.entries_unique old refl
          (λ k' e' g at. ground (arith, at)) w.by_expiry;
    operations = ops;
    by_path = w.by_path;
    create_by_expiry = w.create_by_expiry;
    create_operations = w.create_operations;
    occupied = Counts-ext (λ j. omega (arith, shrinks (entry_slots j) k e s.entries old)) occ;
    activity = Activity-ext (λ a t. omega (arith, shrinks (entry_share a t) k e s.entries old)) act;
    opening_count = omega (arith, w.opening_count, shrinks entry_opening k e s.entries old);
    outstanding = omega (arith, w.outstanding, shrinks entry_targets k e s.entries old);
    pending = omega (arith, w.pending, shrinks entry_pending k e s.entries old);
    apart = λ o c g. elim (Option-cases (get o operations)) [
      | inl free ↦ free
      | inr (j, taken) ↦
          let (k', e', found, at, _) = ops.sound o j taken in
          let was : get k' s.entries ≡ some e' =
            ground (arith, get-remove k k' s.entries w.entries_unique) in
          absurd (ground (arith, w.operations.complete k' e' o was at, w.apart o c g))
    ];
    issued_ids = w.issued_ids;
  }

  occupied_slot : 0 < client_slots s (client_id_of e)
  occupied_slot = ground (
    arith,
    within (entry_slots (client_id_of e)) k e s.entries old,
    eqb_iff (client_id_of e) (client_id_of e),
  )

  -- An entry of the registry is removed without a panic.
  pub remove_found-Safe :
      Safe
        (λ s'.
          WellFormed s'
          × ((operations : Map CreateFileOperationId InodeId) × (activity : Map InodeId (Map ℕ ℕ))
              × (occupied : Map ClientId ℕ) × (s' ≡ removed k e operations activity occupied s)))
        (remove_found k e s)
  unfolding remove_found
  remove_found-Safe =
      Safe-assert _ _ (ground (arith, Counts-or_zero w.occupied (client_id_of e), occupied_slot)) (
        Safe-bind (leave_operation (operation_of e) k s.active_create_operations) _
          (leave_operation-Safe (operation_of e) k e refl w.entries_unique old w.operations)
          (λ operations ops.
            rw
              (checked_sub-some s.opening_sessions (count_opening e)
                (omega (arith, w.opening_count, within entry_opening k e s.entries old)))
              (Safe-assert _ _ (rw (w.by_expiry.complete k e (retirement_at_ms e, k) old refl)) (
                Safe-bind
                  (drop_activities (ancestors_of e) (retirement_at_ms e) s.ancestor_activity) _
                  (drop_activities-Activity (ancestors_of e) (retirement_at_ms e) w.activity
                    (λ a t. omega (arith, within (entry_share a t) k e s.entries old)))
                  (λ activity act.
                    let (occupied, dropped, occ) =
                      decrement-Counts (client_id_of e) w.occupied occupied_slot in
                    rw
                      (
                        dropped,
                        checked_sub-some s.outstanding_write_targets (owned_write_targets e)
                            (omega (arith, w.outstanding, within entry_targets k e s.entries old)),
                        checked_sub-some s.pending_write_targets (pending_write_targets_of e)
                            (omega (arith, w.pending, within entry_pending k e s.entries old)),
                      )
                      (let w' = removed-WellFormed operations activity occupied ops act occ in
                        rw (session_gauges-Safe w') (record {
                          result = removed k e operations activity occupied s;
                          runs = target_gauges-Safe w';
                          holds = (w', (operations, activity, occupied, refl));
                        })))))))
