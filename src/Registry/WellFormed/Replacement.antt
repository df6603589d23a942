-- ===== src/Registry/WellFormed/Replacement.antt =====
-- An entry is written again, at the same or at another expiry
-- (beryl-metadata/src/session_registry.rs).
use vecton.Prelude.{
  ℕ, ◌+◌, ◌-◌, ◌≡◌, refl, ap, some, arith, eqb, eqb_iff, if◌then◌else◌, nat_eq, pair_eq, Map,
}
use vecton.Prelude.Maps.{get, insert, remove, get-insert, insert-Unique}
use vecton.Prelude.Counts.{total, worth, total-insert, Counts-ext}
use vecton.Prelude.Indexes.{Indexes-replace, Indexes-move}
use vecton.Prelude.Checked.{Safe}
use vecton.Types.Values.{InodeId}
use vecton.Registry.{
  SessionRegistryState, WriteSessionEntry, operation_eq, entry_inode_id, client_id_of,
  retirement_at_ms, ancestors_of, owned_write_targets, pending_write_targets_of, operation_of,
}
use vecton.Registry.Activity.{
  Activity, Activity-ext, share, move_activities, move_activities-Activity,
}
use vecton.Registry.Entries.{count_opening}
use vecton.Registry.WellFormed.{
  WellFormed, expiry_key, operation_key, entry_slots, entry_share, entry_opening, entry_targets,
  entry_pending, activity_of,
}
use vecton.Registry.WellFormed.Entries.{within}

-- The later entry of an inode, with the counters that belong to it.
pub record Rewrites (s : SessionRegistryState) (k : InodeId) (e e' : WriteSessionEntry)
    (openings outstanding pending : ℕ) : Type 0 where
  pub old : get k s.entries ≡ some e
  pub key : entry_inode_id e' ≡ k
  pub client : client_id_of e' ≡ client_id_of e
  pub ancestors : ancestors_of e' ≡ ancestors_of e
  pub operation : operation_of e' ≡ operation_of e
  pub openings_count : openings + count_opening e ≡ s.opening_sessions + count_opening e'
  pub outstanding_count :
      outstanding + owned_write_targets e ≡ s.outstanding_write_targets + owned_write_targets e'
  pub pending_count :
      pending + pending_write_targets_of e ≡ s.pending_write_targets + pending_write_targets_of e'

abbrev pub rewritten :
    InodeId → WriteSessionEntry → ℕ → ℕ → ℕ → SessionRegistryState → SessionRegistryState
rewritten k e' openings outstanding pending s = record s {
  entries = insert k e' s.entries;
  opening_sessions = openings;
  outstanding_write_targets = outstanding;
  pending_write_targets = pending;
}

pub changes :
    (f : InodeId → WriteSessionEntry → ℕ) (k : InodeId) (e e' : WriteSessionEntry)
    (m : Map InodeId WriteSessionEntry)
    → get k m ≡ some e
    → total f (insert k e' m) + f k e ≡ total f m + f k e'
changes f k e e' m old = omega (arith, total-insert f k e' m, ap (worth f k) old)

module _ {s : SessionRegistryState} (w : WellFormed s) (k : InodeId) (e e' : WriteSessionEntry)
    (openings outstanding pending : ℕ) (h : Rewrites s k e e' openings outstanding pending) where
  same_slots : (client : ℕ) → entry_slots client k e' ≡ entry_slots client k e
  same_slots client = ap (λ (c : ℕ). if eqb c client then 1 else 0) h.client

  -- At the same expiry.
  pub rewritten-WellFormed :
      retirement_at_ms e' ≡ retirement_at_ms e
      → WellFormed (rewritten k e' openings outstanding pending s)
  rewritten-WellFormed same = record {
    entries_unique = insert-Unique k e' s.entries w.entries_unique;
    creates_unique = w.creates_unique;
    entry_key =
        λ j x g. ground (arith, get-insert k j e' s.entries, eqb_iff k j, w.entry_key j x, h.key);
    create_key = w.create_key;
    by_expiry =
        Indexes-replace (λ _. tt) expiry_key k e e' h.old (ap (λ (t : ℕ). some (t, k)) same)
          w.by_expiry;
    operations = Indexes-replace (λ k. k) operation_key k e e' h.old h.operation w.operations;
    by_path = w.by_path;
    create_by_expiry = w.create_by_expiry;
    create_operations = w.create_operations;
    occupied =
        Counts-ext
          (λ j. omega (arith, changes (entry_slots j) k e e' s.entries h.old, same_slots j))
          w.occupied;
    activity =
        Activity-ext
          (λ a t. omega (
            arith,
            changes (entry_share a t) k e e' s.entries h.old,
            ap (λ x. share x (retirement_at_ms e') a t) h.ancestors,
            ap (λ (x : ℕ). share (ancestors_of e) x a t) same,
          ))
          w.activity;
    opening_count =
        omega
          (arith, changes entry_opening k e e' s.entries h.old, h.openings_count, w.opening_count);
    outstanding =
        omega
          (arith, changes entry_targets k e e' s.entries h.old, h.outstanding_count, w.outstanding);
    pending =
        omega (arith, changes entry_pending k e e' s.entries h.old, h.pending_count, w.pending);
    apart = w.apart;
    issued_ids = w.issued_ids;
  }

  -- At another expiry, once the multisets of the ancestors follow.
  pub moved-WellFormed :
      (activity : Map InodeId (Map ℕ ℕ))
      → Activity activity (λ a t.
        activity_of s a t
        - share (ancestors_of e) (retirement_at_ms e) a t
        + share (ancestors_of e) (retirement_at_ms e') a t)
      → WellFormed (record (rewritten k e' openings outstanding pending s) {
        entries_by_expiry =
            insert (retirement_at_ms e', k) tt (remove (retirement_at_ms e, k) s.entries_by_expiry);
        ancestor_activity = activity;
      })
  moved-WellFormed activity act = record {
    entries_unique = insert-Unique k e' s.entries w.entries_unique;
    creates_unique = w.creates_unique;
    entry_key =
        λ j x g. ground (arith, get-insert k j e' s.entries, eqb_iff k j, w.entry_key j x, h.key);
    create_key = w.create_key;
    by_expiry =
        Indexes-move (λ _. tt) expiry_key k e e' (retirement_at_ms e, k) (retirement_at_ms e', k)
          h.old refl refl (λ k' u g at. ground (arith, at)) (λ k' u g at. ground (arith, at))
          w.by_expiry;
    operations = Indexes-replace (λ k. k) operation_key k e e' h.old h.operation w.operations;
    by_path = w.by_path;
    create_by_expiry = w.create_by_expiry;
    create_operations = w.create_operations;
    occupied =
        Counts-ext
          (λ j. omega (arith, changes (entry_slots j) k e e' s.entries h.old, same_slots j))
          w.occupied;
    activity =
        Activity-ext
          (λ a t. omega (
            arith,
            changes (entry_share a t) k e e' s.entries h.old,
            within (entry_share a t) k e s.entries h.old,
            ap (λ x. share x (retirement_at_ms e') a t) h.ancestors,
          ))
          act;
    opening_count =
        omega
          (arith, changes entry_opening k e e' s.entries h.old, h.openings_count, w.opening_count);
    outstanding =
        omega
          (arith, changes entry_targets k e e' s.entries h.old, h.outstanding_count, w.outstanding);
    pending =
        omega (arith, changes entry_pending k e e' s.entries h.old, h.pending_count, w.pending);
    apart = w.apart;
    issued_ids = w.issued_ids;
  }

  -- The multisets follow without a panic.
  pub activities_move :
      (previous next : ℕ)
      → previous ≡ retirement_at_ms e
      → Safe
          (λ activity. Activity activity (λ a t.
            activity_of s a t
            - share (ancestors_of e) previous a t
            + share (ancestors_of e) next a t))
          (move_activities (ancestors_of e) previous next s.ancestor_activity)
  activities_move previous next same =
      move_activities-Activity (ancestors_of e) previous next w.activity (λ a t. omega (
        arith,
        within (entry_share a t) k e s.entries h.old,
        ap (λ (x : ℕ). share (ancestors_of e) x a t) same,
      ))
