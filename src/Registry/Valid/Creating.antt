-- ===== src/Registry/Valid/Creating.antt =====
-- Reserving and binding a CreateFile session keeps the registry valid
-- (beryl-metadata/src/session_registry.rs).
use vecton.Prelude.{
  ℕ, ◌+◌, ◌<◌, ◌≡◌, ◌≢◌, refl, ap, sym, ◌∙◌, subst, Option, some, none, arith, inl, inr, eqb,
  eqb_iff, nat_eq, string_eq, pair_eq, option_eq, Bool-cases, Option-cases, checked_add, leb, ◌||◌,
  test_refl,
}
use vecton.Prelude.Maps.{get}
use vecton.Prelude.Counts.{total, size, Counts-or_zero}
use vecton.Prelude.Result.{ok, panic}
use vecton.Prelude.Checked.{is_some, Safe, Safe-some, Safe-bind}
use vecton.Types.Layout.{FileLayout}
use vecton.Types.Values.{InodeId, LeaseEpoch, ContentGeneration, block_id_eq}
use vecton.Registry.{
  SessionRegistryState, WriteSessionEntry, opening, active, CreateOpeningSession, Limits,
  CreateFileOperationId, operation_eq, WriteOpeningId, operation_of, CreateSessionReplay,
}
use vecton.Registry.Entries.{insert_entry}
use vecton.Registry.Creates.{insert_create_opening, remove_create_opening}
use vecton.Registry.Retire.{retire_expired_entries, retire_expired_create_opening_for_operation}
use vecton.Registry.Checks.{
  BeginCreateSessionInput, BeginCreateSessionError, admit_create, session_capacity, active_replay,
}
use vecton.Registry.Creating.{
  begin_create_session_at, create_admitted, new_create, check_create_input, activate_create_opening,
  bind_create, created_session, current_create, cancel_create_opening,
}
use vecton.Registry.WellFormed.{WellFormed, client_slots, entry_slots, create_slots}
use vecton.Registry.WellFormed.Entries.{insert_entry-Safe}
use vecton.Registry.WellFormed.Creates.{insert_create_opening-Safe, create_inserted, grows_create}
use vecton.Registry.WellFormed.Sweep.{
  retire_expired_entries-Kept, retire_expired_create_opening_for_operation-Kept,
  remove_create_opening-found, remove_create_opening-Kept,
}
use vecton.Registry.Valid.{Valid, Upholds, IsSession, Valid-Kept, attempt-Safe, inserted-Valid}
use vecton.Registry.Valid.Opening.{Valid-next, chain-ne-panic, parent_chain-ne-panic, Admits}

check_create_input-ne-panic : (input : BeginCreateSessionInput) → check_create_input input ≢ panic
check_create_input-ne-panic input h = ground (
  arith,
  parent_chain-ne-panic BeginCreateSessionError.invalid_ancestor_chain
      input.parent_ancestor_inode_ids,
)

-- What an admission without a replay says of the state.
admit_create-Admits :
    (r : Limits) (input : BeginCreateSessionInput) (s : SessionRegistryState)
    → admit_create r input s ≡ ok none
    → (get input.operation_id s.active_create_operations ≡ none)
      × (get input.operation_id s.create_openings ≡ none)
      × (get (input.mount_id, input.normalized_path) s.create_openings_by_path ≡ none)
      × Admits r input.open_client_id s
unfolding admit_create session_capacity
admit_create-Admits r input s h =
    (ground arith, ground arith, ground arith, record { room = ground arith; slot = ground arith })

module _ {r : Limits} {s : SessionRegistryState} (v : Valid r s) where
  -- The index of active operations leads to a session of the operation.
  active_replay-found :
      (o : CreateFileOperationId) (k : InodeId)
      → get o s.active_create_operations ≡ some k
      → active_replay o (get k s.entries) ≢ panic
  unfolding active_replay
  active_replay-found o k listed =
      let (k', e, found, at, same) = v.well_formed.operations.sound o k listed in
      let here : get k s.entries ≡ some e = ap (λ (j : ℕ). get j s.entries) (sym same) ∙ found in
      subst (λ x. active_replay o x ≢ panic) (sym here) (go e at)
    where
      go : (e : WriteSessionEntry) → operation_of e ≡ some o → active_replay o (some e) ≢ panic
      go (opening x) at = absurd (cc)
      go (active x) at = λ h. ground (arith, h, at, test_refl o)

  admit_create-ne-panic : (input : BeginCreateSessionInput) → admit_create r input s ≢ panic
  unfolding admit_create session_capacity
  admit_create-ne-panic input h =
      elim (Option-cases (get input.operation_id s.active_create_operations)) [
        | inl free ↦ ground arith
        | inr (k, listed) ↦ ground (arith, active_replay-found input.operation_id k listed)
      ]

  create_inserted-Valid :
      (c : CreateOpeningSession)
      → WellFormed (create_inserted c s)
      → get c.operation_id s.create_openings ≡ none
      → size s.entries + size s.create_openings < r.max_sessions
      → client_slots s c.open_client_id < r.max_sessions_per_client
      → Valid r (create_inserted c s)
  unfolding size
  create_inserted-Valid c w new room slot =
      let o : CreateFileOperationId = c.operation_id in
      record {
        well_formed = w;
        sessions_bounded = omega (arith, room, grows_create (λ _ _. 1) o c s.create_openings new);
        clients_bounded = λ client. elim (Bool-cases (eqb c.open_client_id client)) [
          | inl hit ↦ ground (
            arith,
            grows_create (create_slots client) o c s.create_openings new,
            slot,
            ap (λ (x : ℕ). client_slots s x) ((eqb_iff c.open_client_id client).0 hit),
          )
          | inr miss ↦ ground (
            arith,
            grows_create (create_slots client) o c s.create_openings new,
            v.clients_bounded client,
          )
        ];
        targets_bounded = v.targets_bounded;
        session = v.session;
      }

module _ {r : Limits} {s : SessionRegistryState} (v : Valid r s) where
  create_admitted-Safe :
      (input : BeginCreateSessionInput) (now : ℕ) (response : Option CreateSessionReplay)
      → admit_create r input s ≡ ok response
      → Safe (Upholds r) (create_admitted r input now s response)
  unfolding create_admitted
  create_admitted-Safe input now (some response) admitted = Safe-some _ v
  create_admitted-Safe input now none admitted =
      let (idle, new, path, admits) = admit_create-Admits r input s admitted in
      elim (Option-cases (checked_add s.next_opening_id 1)) [
        | inl exhausted ↦ rw (create_admitted, exhausted) (Safe-some _ v)
        | inr (next, advanced) ↦
            let v' = Valid-next next v (ground arith) in
            let c : CreateOpeningSession = new_create r input now s.next_opening_id in
            rw (create_admitted, advanced)
              (Safe-bind (insert_create_opening c (record s { next_opening_id = next })) _
                (insert_create_opening-Safe v'.well_formed c idle new path v.well_formed.issued_ids
                  (ground arith))
                (λ s' p.
                  let (w', is) = p in
                  Safe-some _ (
                    subst (Valid r) (sym is) (
                      create_inserted-Valid v' c (subst WellFormed is w') new admits.room (
                        omega (
                          arith,
                          admits.slot,
                          Counts-or_zero v.well_formed.occupied input.open_client_id,
                        ))))))
      ]

module _ {r : Limits} {s : SessionRegistryState} (v : Valid r s) where
  -- begin_create_session
  pub begin_create_session_at-Safe :
      (input : BeginCreateSessionInput) (now : ℕ)
      → Safe (Upholds r) (begin_create_session_at r input now s)
  unfolding begin_create_session_at
  begin_create_session_at-Safe input now =
      attempt-Safe v (check_create_input input) _ (check_create_input-ne-panic input) (λ _ _.
        Safe-bind (retire_expired_create_opening_for_operation input.operation_id now s) _
          (retire_expired_create_opening_for_operation-Kept input.operation_id now v.well_formed)
          (λ x p.
            Safe-bind (retire_expired_entries now x.0) _ (retire_expired_entries-Kept now p.0.0)
              (λ y q.
                let v' : Valid r y.0 = Valid-Kept (Valid-Kept v p.0) q.0 in
                attempt-Safe v' (admit_create r input y.0) _ (admit_create-ne-panic v' input)
                  (λ response admitted. create_admitted-Safe v' input now response admitted))))

created-IsSession :
    {r : Limits} (c : CreateOpeningSession) (k : InodeId) (e : LeaseEpoch) (t : ℕ) (l : FileLayout)
    (g : ContentGeneration)
    → IsSession r (created_session c k e t l g)
unfolding get
created-IsSession c k e t l g = record {
  targets = omega arith;
  steps = λ p n g. absurd (cc);
  steps_unique = tt;
  step_new = λ p e. refl;
  exclusive = λ p e. refl;
}

current_create-get :
    (o : CreateFileOperationId) (id : WriteOpeningId) (s : SessionRegistryState)
    (c : CreateOpeningSession)
    → current_create o id s ≡ some c
    → get o s.create_openings ≡ some c
unfolding current_create
current_create-get o id s c h = ground arith

module _ {r : Limits} {s : SessionRegistryState} (v : Valid r s) (o : CreateFileOperationId)
    (c : CreateOpeningSession) (old : get o s.create_openings ≡ some c) where
  -- Once its opening is gone, the operation is in no index.
  operation_free :
      (s' : SessionRegistryState)
      → WellFormed s'
      → s'.entries ≡ s.entries
      → get o s'.active_create_operations ≡ none
  operation_free s' w' same = elim (Option-cases (get o s'.active_create_operations)) [
    | inl free ↦ free
    | inr (j, taken) ↦
        let (k, e, found, at, _) = w'.operations.sound o j taken in
        let was : get k s.entries ≡ some e = ap (get k) (sym same) ∙ found in
        absurd (
          ground
            (arith, v.well_formed.operations.complete k e o was at, v.well_formed.apart o c old))
  ]

  bind_create-Safe :
      (k : InodeId) (lease_epoch : LeaseEpoch) (expires : ℕ) (layout : FileLayout)
      (generation : ContentGeneration)
      → Safe (Upholds r) (bind_create o c k lease_epoch expires layout generation s)
  unfolding bind_create size
  bind_create-Safe k lease_epoch expires layout generation =
      elim (Bool-cases (eqb lease_epoch 0 || is_some (get k s.entries))) [
        | inl taken ↦ rw (bind_create, taken) (Safe-some _ v)
        | inr free ↦
            rw (bind_create, free)
              (attempt-Safe v _ _ (chain-ne-panic _ k _) (λ _ _.
                Safe-bind (remove_create_opening o s) _
                  (remove_create_opening-found o c v.well_formed old)
                  (λ x p.
                    let e : WriteSessionEntry =
                      active (created_session c k lease_epoch expires layout generation) in
                    let v' : Valid r x.0 = Valid-Kept v p.0 in
                    let new : get k x.0.entries ≡ none = ground (arith, ap (get k) p.2, free) in
                    let w' : WellFormed x.0 = p.0.0 in
                    rw (p.3) (
                      Safe-bind (insert_entry e x.0) _
                        (insert_entry-Safe w' e new refl refl (λ y at.
                          let same : c.operation_id ≡ y = ground (arith, at) in
                          let named : o ≡ y = sym (v.well_formed.create_key o c old) ∙ same in
                          (
                            subst (λ z. get z x.0.active_create_operations ≡ none) named
                                (operation_free x.0 w' p.2),
                            subst (λ z. get z x.0.create_openings ≡ none) named p.1,
                          )))
                        (λ s'' q.
                          let (w'', (operations, is)) = q in
                          Safe-some _ (
                            subst (Valid r) (sym is) (
                              inserted-Valid v' e operations (subst WellFormed is w'') new
                                (omega (arith, v.sessions_bounded, p.4 (λ _ _. 1), ap size p.2))
                                (ground (
                                  arith,
                                  v.clients_bounded c.open_client_id,
                                  p.4 (create_slots c.open_client_id),
                                  ap (total (entry_slots c.open_client_id)) p.2,
                                  eqb_iff c.open_client_id c.open_client_id,
                                ))
                                (λ y at. subst (IsSession r) (ground (arith, at)) (
                                  created-IsSession c k lease_epoch expires layout
                                    generation)))))))))
      ]

module _ {r : Limits} {s : SessionRegistryState} (v : Valid r s) (o : CreateFileOperationId)
    (id : WriteOpeningId) where
  -- CreateOpening::activate
  pub activate_create_opening-Safe :
      (k : InodeId) (lease_epoch : LeaseEpoch) (expires : ℕ) (layout : FileLayout)
      (generation : ContentGeneration) (now : ℕ)
      → Safe
          (Upholds r)
          (activate_create_opening o id k lease_epoch expires layout generation now s)
  unfolding activate_create_opening
  activate_create_opening-Safe k lease_epoch expires layout generation now =
      elim (Option-cases (current_create o id s)) [
        | inl gone ↦ rw (activate_create_opening, gone) (Safe-some _ v)
        | inr (c, current) ↦ elim (Bool-cases (leb c.expires_at_ms now || leb expires now)) [
          | inl past ↦
              rw (activate_create_opening, current, past)
                (Safe-bind (remove_create_opening o s) _
                  (remove_create_opening-Kept o v.well_formed)
                  (λ x p. Safe-some _ (Valid-Kept v p)))
          | inr live ↦
              rw (activate_create_opening, current, live)
                (bind_create-Safe v o c (current_create-get o id s c current) k lease_epoch expires
                  layout generation)
        ]
      ]

  -- CreateOpening::drop
  pub cancel_create_opening-Safe : Safe (Valid r) (cancel_create_opening o id s)
  unfolding cancel_create_opening
  cancel_create_opening-Safe = elim (Option-cases (current_create o id s)) [
    | inl gone ↦ rw (cancel_create_opening, gone) (Safe-some s v)
    | inr (c, current) ↦
        rw (cancel_create_opening, current)
          (Safe-bind (remove_create_opening o s) _ (remove_create_opening-Kept o v.well_formed)
            (λ x p. Safe-some x.0 (Valid-Kept v p)))
  ]
