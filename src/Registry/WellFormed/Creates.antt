-- ===== src/Registry/WellFormed/Creates.antt =====
-- CreateFile openings come and go with all their indexes (beryl-metadata/src/session_registry.rs).
use vecton.Prelude.{
  ℕ, ◌+◌, ◌-◌, ◌≤◌, ◌<◌, ◌≡◌, refl, ap, some, none, arith, inl, inr, eqb_iff, nat_eq, string_eq,
  pair_eq, option_eq, Map, test_refl, Option-cases,
}
use vecton.Prelude.Maps.{get, insert, remove, get-insert, get-remove, insert-Unique, remove-Unique}
use vecton.Prelude.Counts.{
  total, worth, Counts, Counts-ext, bump, bump-Counts, decrement-Counts, at_key, total-insert,
  total-remove, worth-le-total,
}
use vecton.Prelude.Indexes.{Indexes-insert, Indexes-remove}
use vecton.Prelude.Checked.{Safe, Safe-bind}
use vecton.Types.Values.{ClientId, InodeId}
use vecton.Registry.{
  SessionRegistryState, CreateOpeningSession, CreateFileOperationId, operation_eq,
  operation_eqb_iff,
}
use vecton.Registry.Activity.{
  Activity, Activity-ext, share, add_activities, add_activities-Activity, drop_activities,
  drop_activities-Activity,
}
use vecton.Registry.Creates.{path_of, expiry_of, insert_create_opening, remove_create_found}
use vecton.Registry.WellFormed.{
  WellFormed, create_path_key, create_expiry_key, create_opening_key, create_slots, create_share,
  client_slots, activity_of,
}
use vecton.Registry.WellFormed.Entries.{session_gauges-Safe}

module _ (f : CreateFileOperationId → CreateOpeningSession → ℕ) (o : CreateFileOperationId)
    (c : CreateOpeningSession) (m : Map CreateFileOperationId CreateOpeningSession) where
  pub grows_create : get o m ≡ none → total f (insert o c m) ≡ total f m + f o c
  grows_create new = omega (arith, total-insert f o c m, ap (worth f o) new)

  pub shrinks_create : get o m ≡ some c → total f (remove o m) + f o c ≡ total f m
  shrinks_create old = omega (arith, total-remove f o m, ap (worth f o) old)

  within_create : get o m ≡ some c → f o c ≤ total f m
  within_create old = omega (arith, worth-le-total f o m, ap (worth f o) old)

-- The state that `insert_create_opening` leaves.
abbrev pub create_inserted : CreateOpeningSession → SessionRegistryState → SessionRegistryState
create_inserted c s = record s {
  create_openings_by_path = insert (path_of c) c.operation_id s.create_openings_by_path;
  ancestor_activity =
      add_activities c.parent_ancestor_inode_ids c.expires_at_ms s.ancestor_activity;
  create_openings_by_expiry = insert (expiry_of c) tt s.create_openings_by_expiry;
  create_opening_operations = insert c.opening_id c.operation_id s.create_opening_operations;
  occupied_sessions_by_client = bump c.open_client_id s.occupied_sessions_by_client;
  create_openings = insert c.operation_id c s.create_openings;
}

-- The state that `remove_create_found` leaves.
abbrev pub create_removed :
    CreateFileOperationId
    → CreateOpeningSession
    → Map InodeId (Map ℕ ℕ)
    → Map ClientId ℕ
    → SessionRegistryState
    → SessionRegistryState
create_removed o c activity occupied s = record s {
  create_openings = remove o s.create_openings;
  create_openings_by_path = remove (path_of c) s.create_openings_by_path;
  create_openings_by_expiry = remove (expiry_of c) s.create_openings_by_expiry;
  create_opening_operations = remove c.opening_id s.create_opening_operations;
  ancestor_activity = activity;
  occupied_sessions_by_client = occupied;
}

module _ {s : SessionRegistryState} (w : WellFormed s) where
  -- An opening identity that was not given out before is in no index.
  id_free :
      (c : CreateOpeningSession)
      → ((o' : CreateFileOperationId) (c' : CreateOpeningSession)
          → get o' s.create_openings ≡ some c'
          → c'.opening_id < c.opening_id)
      → (get c.opening_id s.create_opening_operations ≡ none)
        × (get (expiry_of c) s.create_openings_by_expiry ≡ none)
  id_free c fresh = (
    elim (Option-cases (get c.opening_id s.create_opening_operations)) [
      | inl free ↦ free
      | inr (x, taken) ↦
          let (o', c', found, at, _) = w.create_operations.sound c.opening_id x taken in
          absurd (ground (arith, fresh o' c' found, at))
    ],
    elim (Option-cases (get (expiry_of c) s.create_openings_by_expiry)) [
      | inl free ↦ free
      | inr (x, taken) ↦
          let (o', c', found, at, _) = w.create_by_expiry.sound (expiry_of c) x taken in
          absurd (ground (arith, fresh o' c' found, at))
    ],
  )

  create_inserted-WellFormed :
      (c : CreateOpeningSession)
      → get c.operation_id s.active_create_operations ≡ none
      → get c.operation_id s.create_openings ≡ none
      → get (path_of c) s.create_openings_by_path ≡ none
      → get c.opening_id s.create_opening_operations ≡ none
      → get (expiry_of c) s.create_openings_by_expiry ≡ none
      → c.opening_id < s.next_opening_id
      → WellFormed (create_inserted c s)
  create_inserted-WellFormed c apart new path id expiry issued =
      let o : CreateFileOperationId = c.operation_id in
      record {
        entries_unique = w.entries_unique;
        creates_unique = insert-Unique o c s.create_openings w.creates_unique;
        entry_key = w.entry_key;
        create_key = λ j x g.
            ground
              (arith, get-insert o j c s.create_openings, operation_eqb_iff o j, w.create_key j x);
        by_expiry = w.by_expiry;
        operations = w.operations;
        by_path = Indexes-insert (λ o. o) create_path_key o c (path_of c) path new refl w.by_path;
        create_by_expiry =
            Indexes-insert (λ _. tt) create_expiry_key o c (expiry_of c) expiry new refl
              w.create_by_expiry;
        create_operations =
            Indexes-insert (λ o. o) create_opening_key o c c.opening_id id new refl
              w.create_operations;
        occupied =
            Counts-ext (λ j. omega (arith, grows_create (create_slots j) o c s.create_openings new))
              (bump-Counts c.open_client_id w.occupied);
        activity =
            Activity-ext
              (λ a t. omega (arith, grows_create (create_share a t) o c s.create_openings new))
              (add_activities-Activity c.parent_ancestor_inode_ids c.expires_at_ms w.activity);
        opening_count = w.opening_count;
        outstanding = w.outstanding;
        pending = w.pending;
        apart = λ j x g.
            ground (arith, get-insert o j c s.create_openings, operation_eqb_iff o j, w.apart j x);
        issued_ids = λ j x g. ground (arith, get-insert o j c s.create_openings, w.issued_ids j x);
      }

  -- A new opening with a fresh identity is inserted without a panic.
  pub insert_create_opening-Safe :
      (c : CreateOpeningSession)
      → get c.operation_id s.active_create_operations ≡ none
      → get c.operation_id s.create_openings ≡ none
      → get (path_of c) s.create_openings_by_path ≡ none
      → ((o' : CreateFileOperationId) (c' : CreateOpeningSession)
          → get o' s.create_openings ≡ some c'
          → c'.opening_id < c.opening_id)
      → c.opening_id < s.next_opening_id
      → Safe (λ s'. WellFormed s' × (s' ≡ create_inserted c s)) (insert_create_opening c s)
  unfolding insert_create_opening
  insert_create_opening-Safe c apart new path fresh issued =
      let (id, expiry) = id_free c fresh in
      let w' = create_inserted-WellFormed c apart new path id expiry issued in
      rw (path, expiry, id, new)
        (record { result = create_inserted c s; runs = session_gauges-Safe w'; holds = (w', refl) })

  module _ (o : CreateFileOperationId) (c : CreateOpeningSession)
      (old : get o s.create_openings ≡ some c) where
    same_id :
        (o' : CreateFileOperationId) (c' : CreateOpeningSession)
        → get o' s.create_openings ≡ some c'
        → c'.opening_id ≡ c.opening_id
        → o ≡ o'
    same_id o' c' found at = ground (
      arith,
      w.create_operations.complete o c c.opening_id old refl,
      w.create_operations.complete o' c' c.opening_id found (ap (λ (x : ℕ). some x) at),
    )

    create_removed-WellFormed :
        (activity : Map InodeId (Map ℕ ℕ)) (occupied : Map ClientId ℕ)
        → Activity activity
            (λ a t. activity_of s a t - share c.parent_ancestor_inode_ids c.expires_at_ms a t)
        → Counts occupied (λ j. client_slots s j - at_key c.open_client_id j)
        → WellFormed (create_removed o c activity occupied s)
    create_removed-WellFormed activity occupied act occ = record {
      entries_unique = w.entries_unique;
      creates_unique = remove-Unique o s.create_openings w.creates_unique;
      entry_key = w.entry_key;
      create_key = λ j x g.
          w.create_key j x (ground (arith, get-remove o j s.create_openings w.creates_unique));
      by_expiry = w.by_expiry;
      operations = w.operations;
      by_path =
          Indexes-remove (λ o. o) create_path_key o c (path_of c) w.creates_unique old refl
            (λ o' c' found at. ground (
              arith,
              w.by_path.complete o c (path_of c) old refl,
              w.by_path.complete o' c' (path_of c) found at,
            ))
            w.by_path;
      create_by_expiry =
          Indexes-remove (λ _. tt) create_expiry_key o c (expiry_of c) w.creates_unique old refl
            (λ o' c' found at. same_id o' c' found (ground (arith, at))) w.create_by_expiry;
      create_operations =
          Indexes-remove (λ o. o) create_opening_key o c c.opening_id w.creates_unique old refl
            (λ o' c' found at. same_id o' c' found (ground (arith, at))) w.create_operations;
      occupied =
          Counts-ext (λ j. omega (arith, shrinks_create (create_slots j) o c s.create_openings old))
            occ;
      activity =
          Activity-ext
            (λ a t. omega (arith, shrinks_create (create_share a t) o c s.create_openings old)) act;
      opening_count = w.opening_count;
      outstanding = w.outstanding;
      pending = w.pending;
      apart =
          λ j x g. w.apart j x (ground (arith, get-remove o j s.create_openings w.creates_unique));
      issued_ids = λ j x g.
          w.issued_ids j x (ground (arith, get-remove o j s.create_openings w.creates_unique));
    }

    create_slot : 0 < client_slots s c.open_client_id
    create_slot = ground (
      arith,
      within_create (create_slots c.open_client_id) o c s.create_openings old,
      eqb_iff c.open_client_id c.open_client_id,
    )

    -- An opening of the registry is removed without a panic.
    pub remove_create_found-Safe :
        Safe
          (λ s'.
            WellFormed s'
            × ((activity : Map InodeId (Map ℕ ℕ)) × (occupied : Map ClientId ℕ) × (s'
                  ≡ create_removed o c activity occupied s)))
          (remove_create_found o c s)
    unfolding remove_create_found
    remove_create_found-Safe =
        rw
          (
            w.by_path.complete o c (path_of c) old refl,
            w.create_by_expiry.complete o c (expiry_of c) old refl,
            w.create_operations.complete o c c.opening_id old refl,
            test_refl (some o),
          )
          (Safe-bind
            (drop_activities c.parent_ancestor_inode_ids c.expires_at_ms s.ancestor_activity) _
            (drop_activities-Activity c.parent_ancestor_inode_ids c.expires_at_ms w.activity
              (λ a t. omega (arith, within_create (create_share a t) o c s.create_openings old)))
            (λ activity act.
              let (occupied, dropped, occ) =
                decrement-Counts c.open_client_id w.occupied create_slot in
              rw dropped (
                let w' = create_removed-WellFormed activity occupied act occ in
                record {
                  result = create_removed o c activity occupied s;
                  runs = session_gauges-Safe w';
                  holds = (w', (activity, occupied, refl));
                })))
