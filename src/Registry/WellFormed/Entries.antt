-- ===== src/Registry/WellFormed/Entries.antt =====
-- Entries come and go with all their indexes (beryl-metadata/src/session_registry.rs).
use vecton.Prelude.{
  ℕ, ◌+◌, ◌≤◌, ◌≡◌, refl, ap, [], ◌∷◌, Option, some, none, arith, inl, inr, eqb, eqb_iff, nat_eq,
  pair_eq, option_eq, Map, Option-cases, Bool-cases, ◌∙◌,
}
use vecton.Prelude.Maps.{get, insert, remove, get-insert, insert-Unique}
use vecton.Prelude.Counts.{
  total, worth, size, total-insert, total-remove, worth-le-total, Counts-ext, bump-Counts, bump,
}
use vecton.Prelude.Indexes.{Indexes, Indexes-insert, Indexes-insert_keyless}
use vecton.Prelude.Checked.{is_none, Safe, Safe-some, Safe-assert, Safe-bind}
use vecton.Types.Values.{InodeId}
use vecton.Registry.{
  SessionRegistryState, WriteSessionEntry, CreateOpeningSession, CreateFileOperationId,
  operation_eq, entry_inode_id, client_id_of, retirement_at_ms, ancestors_of, owned_write_targets,
  pending_write_targets_of, operation_of,
}
use vecton.Registry.Activity.{Activity-ext, add_activities, add_activities-Activity}
use vecton.Registry.Entries.{
  count_opening, enter_operation, insert_entry, record_session_gauges, record_write_target_gauges,
}
use vecton.Registry.WellFormed.{
  WellFormed, expiry_key, operation_key, entry_slots, entry_share, entry_opening, entry_targets,
  entry_pending,
}

-- A sum over the entries grows by the measure of a new entry.
pub grows :
    (f : InodeId → WriteSessionEntry → ℕ) (k : InodeId) (e : WriteSessionEntry)
    (m : Map InodeId WriteSessionEntry)
    → get k m ≡ none
    → total f (insert k e m) ≡ total f m + f k e
grows f k e m new = omega (arith, total-insert f k e m, ap (worth f k) new)

pub shrinks :
    (f : InodeId → WriteSessionEntry → ℕ) (k : InodeId) (e : WriteSessionEntry)
    (m : Map InodeId WriteSessionEntry)
    → get k m ≡ some e
    → total f (remove k m) + f k e ≡ total f m
shrinks f k e m old = omega (arith, total-remove f k m, ap (worth f k) old)

-- A counted measure of one entry is at most the sum.
pub within :
    (f : InodeId → WriteSessionEntry → ℕ) (k : InodeId) (e : WriteSessionEntry)
    (m : Map InodeId WriteSessionEntry)
    → get k m ≡ some e
    → f k e ≤ total f m
within f k e m old = omega (arith, worth-le-total f k m, ap (worth f k) old)

opening-le-size : (m : Map InodeId WriteSessionEntry) → total entry_opening m ≤ size m
unfolding total size
opening-le-size [] = omega arith
opening-le-size ((k, e) ∷ m) = ground (arith, opening-le-size m)

pending-le-targets :
    (m : Map InodeId WriteSessionEntry) → total entry_pending m ≤ total entry_targets m
unfolding total
pending-le-targets [] = omega arith
pending-le-targets ((k, e) ∷ m) = ground (arith, pending-le-targets m)

-- The gauges of a well-formed registry do not panic.
pub session_gauges-Safe :
    {s : SessionRegistryState} → WellFormed s → record_session_gauges s ≡ some s
unfolding record_session_gauges
session_gauges-Safe {s} w = ground (arith, opening-le-size s.entries, w.opening_count)

pub target_gauges-Safe :
    {s : SessionRegistryState} → WellFormed s → record_write_target_gauges s ≡ some s
unfolding record_write_target_gauges
target_gauges-Safe {s} w = ground (arith, pending-le-targets s.entries, w.outstanding, w.pending)

enter_operation-Safe :
    (o : Option CreateFileOperationId) (k : InodeId) (e : WriteSessionEntry)
    {m : Map CreateFileOperationId InodeId} {entries : Map InodeId WriteSessionEntry}
    → operation_of e ≡ o
    → get k entries ≡ none
    → ((x : CreateFileOperationId) → o ≡ some x → get x m ≡ none)
    → Indexes (λ k. k) operation_key m entries
    → Safe (λ m'. Indexes (λ k. k) operation_key m' (insert k e entries)) (enter_operation o k m)
enter_operation-Safe none k e {m} at new free h =
    Safe-some m (Indexes-insert_keyless (λ k. k) operation_key k e new at h)
enter_operation-Safe (some x) k e {m} at new free h =
    Safe-assert (is_none (get x m)) _ (ground (arith, free x refl))
      (Safe-some _ (Indexes-insert (λ k. k) operation_key k e x (free x refl) new at h))

-- The state that `insert_entry` leaves.
abbrev pub inserted :
    WriteSessionEntry
    → Map CreateFileOperationId InodeId
    → SessionRegistryState
    → SessionRegistryState
inserted e operations s = record s {
  ancestor_activity = add_activities (ancestors_of e) (retirement_at_ms e) s.ancestor_activity;
  entries_by_expiry = insert (retirement_at_ms e, entry_inode_id e) tt s.entries_by_expiry;
  opening_sessions = s.opening_sessions + count_opening e;
  occupied_sessions_by_client = bump (client_id_of e) s.occupied_sessions_by_client;
  active_create_operations = operations;
  entries = insert (entry_inode_id e) e s.entries;
}

module _ {s : SessionRegistryState} (w : WellFormed s) where
  expiry_free :
      (k : InodeId) (t : ℕ) → get k s.entries ≡ none → get (t, k) s.entries_by_expiry ≡ none
  expiry_free k t new = elim (Option-cases (get (t, k) s.entries_by_expiry)) [
    | inl free ↦ free
    | inr (x, taken) ↦
        let (k', e', found, at, _) = w.by_expiry.sound (t, k) x taken in
        let same : k' ≡ k = ground (arith, at) in
        absurd (ground (arith, ap (λ j. get j s.entries) same, found, new))
  ]

  stays_apart :
      (k : InodeId) (e : WriteSessionEntry) (operations : Map CreateFileOperationId InodeId)
      → ((x : CreateFileOperationId) → operation_of e ≡ some x → get x s.create_openings ≡ none)
      → Indexes (λ k. k) operation_key operations (insert k e s.entries)
      → (o : CreateFileOperationId) (c : CreateOpeningSession) → get o s.create_openings ≡ some c
      → get o operations ≡ none
  stays_apart k e operations bound ops o c g = elim (Option-cases (get o operations)) [
    | inl free ↦ free
    | inr (j, taken) ↦
        let (k', e', found, at, _) = ops.sound o j taken in
        elim (Bool-cases (eqb k k')) [
          | inl hit ↦
              let same : e ≡ e' = ground (arith, get-insert k k' e s.entries) in
              absurd (ground (arith, bound o (ap operation_of same ∙ at), g))
          | inr miss ↦
              let was : get k' s.entries ≡ some e' = ground (arith, get-insert k k' e s.entries) in
              absurd (ground (arith, w.operations.complete k' e' o was at, w.apart o c g))
        ]
  ]

  inserted-WellFormed :
      (e : WriteSessionEntry) (operations : Map CreateFileOperationId InodeId)
      → ((x : CreateFileOperationId) → operation_of e ≡ some x → get x s.create_openings ≡ none)
      → get (entry_inode_id e) s.entries ≡ none
      → owned_write_targets e ≡ 0
      → pending_write_targets_of e ≡ 0
      → Indexes (λ k. k) operation_key operations (insert (entry_inode_id e) e s.entries)
      → WellFormed (inserted e operations s)
  inserted-WellFormed e operations bound new targets pending ops =
      let k : InodeId = entry_inode_id e in
      record {
        entries_unique = insert-Unique k e s.entries w.entries_unique;
        creates_unique = w.creates_unique;
        entry_key =
            λ j x g. ground (arith, get-insert k j e s.entries, eqb_iff k j, w.entry_key j x);
        create_key = w.create_key;
        by_expiry =
            Indexes-insert (λ _. tt) expiry_key k e (retirement_at_ms e, k)
              (expiry_free k (retirement_at_ms e) new) new refl w.by_expiry;
        operations = ops;
        by_path = w.by_path;
        create_by_expiry = w.create_by_expiry;
        create_operations = w.create_operations;
        occupied =
            Counts-ext (λ j. omega (arith, grows (entry_slots j) k e s.entries new))
              (bump-Counts (client_id_of e) w.occupied);
        activity =
            Activity-ext (λ a t. omega (arith, grows (entry_share a t) k e s.entries new))
              (add_activities-Activity (ancestors_of e) (retirement_at_ms e) w.activity);
        opening_count = omega (arith, w.opening_count, grows entry_opening k e s.entries new);
        outstanding = omega (arith, w.outstanding, grows entry_targets k e s.entries new, targets);
        pending = omega (arith, w.pending, grows entry_pending k e s.entries new, pending);
        apart = stays_apart k e operations bound ops;
        issued_ids = w.issued_ids;
      }

  -- A new entry without targets, whose operation is not active yet, is inserted without a panic.
  pub insert_entry-Safe :
      (e : WriteSessionEntry)
      → get (entry_inode_id e) s.entries ≡ none
      → owned_write_targets e ≡ 0
      → pending_write_targets_of e ≡ 0
      → ((x : CreateFileOperationId)
          → operation_of e ≡ some x
          → (get x s.active_create_operations ≡ none) × (get x s.create_openings ≡ none))
      → Safe
          (λ s'.
            WellFormed s'
            × ((operations : Map CreateFileOperationId InodeId) × (s' ≡ inserted e operations s)))
          (insert_entry e s)
  unfolding insert_entry
  insert_entry-Safe e new targets pending free =
      let k : InodeId = entry_inode_id e in
      Safe-assert _ _ (rw (expiry_free k (retirement_at_ms e) new)) (
        Safe-bind (enter_operation (operation_of e) k s.active_create_operations) _
          (enter_operation-Safe (operation_of e) k e refl new (λ x at. (free x at).0) w.operations)
          (λ operations ops. Safe-assert _ _ (rw new) (
            let w' =
              inserted-WellFormed e operations (λ x at. (free x at).1) new targets pending ops in
            record {
              result = inserted e operations s;
              runs = session_gauges-Safe w';
              holds = (w', (operations, refl));
            })))
