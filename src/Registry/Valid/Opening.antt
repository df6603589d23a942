-- ===== src/Registry/Valid/Opening.antt =====
-- Opening a session keeps the registry valid (beryl-metadata/src/session_registry.rs).
use vecton.Prelude.{
  ℕ, ◌+◌, ◌≤◌, ◌<◌, ◌≡◌, ◌≢◌, refl, sym, subst, none, arith, inl, inr, nat_eq, string_eq, pair_eq,
  option_eq, Option-cases, checked_add, List,
}
use vecton.Prelude.Maps.{get}
use vecton.Prelude.Counts.{size, Counts-or_zero, or_zero}
use vecton.Prelude.Result.{ok, panic, map_err}
use vecton.Prelude.Checked.{Safe, Safe-some, Safe-bind}
use vecton.Types.Values.{InodeId, ClientId, LeaseEpoch, block_id_eq}
use vecton.Registry.{SessionRegistryState, WriteSessionEntry, opening, Limits, operation_eq}
use vecton.Registry.Entries.{insert_entry}
use vecton.Registry.Checks.{
  BeginSessionInput, validate_ancestor_chain, validate_parent_ancestor_chain, admit_session,
  session_capacity,
}
use vecton.Registry.Opening.{begin_session_at, open_admitted, new_opening}
use vecton.Registry.Calls.{sweep}
use vecton.Registry.WellFormed.{WellFormed}
use vecton.Registry.WellFormed.Entries.{insert_entry-Safe}
use vecton.Registry.Valid.{Valid, Upholds, sweep-Valid, attempt-Safe, inserted-Valid}

pub WellFormed-next :
    {s : SessionRegistryState} (n : ℕ)
    → WellFormed s
    → s.next_opening_id ≤ n
    → WellFormed (record s { next_opening_id = n })
WellFormed-next n w le = record {
  entries_unique = w.entries_unique;
  creates_unique = w.creates_unique;
  entry_key = w.entry_key;
  create_key = w.create_key;
  by_expiry = w.by_expiry;
  operations = w.operations;
  by_path = w.by_path;
  create_by_expiry = w.create_by_expiry;
  create_operations = w.create_operations;
  occupied = w.occupied;
  activity = w.activity;
  opening_count = w.opening_count;
  outstanding = w.outstanding;
  pending = w.pending;
  apart = w.apart;
  issued_ids = λ o c g. omega (arith, w.issued_ids o c g, le);
}

pub Valid-next :
    {r : Limits} {s : SessionRegistryState} (n : ℕ)
    → Valid r s
    → s.next_opening_id ≤ n
    → Valid r (record s { next_opening_id = n })
Valid-next n v le = record {
  well_formed = WellFormed-next n v.well_formed le;
  sessions_bounded = v.sessions_bounded;
  clients_bounded = v.clients_bounded;
  targets_bounded = v.targets_bounded;
  session = v.session;
}

-- The tests on chains and capacities never panic.
pub chain-ne-panic :
    {E : Type 0} (e : E) (k : InodeId) (ancestors : List InodeId)
    → map_err (λ _. e) (validate_ancestor_chain k ancestors) ≢ panic
unfolding validate_ancestor_chain
chain-ne-panic e k ancestors h = ground arith

pub parent_chain-ne-panic :
    {E : Type 0} (e : E) (ancestors : List InodeId)
    → map_err (λ _. e) (validate_parent_ancestor_chain ancestors) ≢ panic
unfolding validate_parent_ancestor_chain
parent_chain-ne-panic e ancestors h = ground arith

admit_session-ne-panic :
    (r : Limits) (input : BeginSessionInput) (s : SessionRegistryState)
    → admit_session r input s ≢ panic
unfolding admit_session session_capacity
admit_session-ne-panic r input s h = ground arith

-- What an admission says of the state.
pub record Admits (r : Limits) (client : ClientId) (s : SessionRegistryState) : Type 0 where
  pub room : size s.entries + size s.create_openings < r.max_sessions
  pub slot : or_zero (get client s.occupied_sessions_by_client) < r.max_sessions_per_client

pub session_capacity-Admits :
    (r : Limits) (client : ClientId) (s : SessionRegistryState)
    → session_capacity r s client ≡ ok tt
    → Admits r client s
unfolding session_capacity
session_capacity-Admits r client s h = record { room = ground arith; slot = ground arith }

admit_session-Admits :
    (r : Limits) (input : BeginSessionInput) (s : SessionRegistryState) (proposed : LeaseEpoch)
    → admit_session r input s ≡ ok proposed
    → (get input.inode_id s.entries ≡ none) × Admits r input.open_client_id s
unfolding admit_session session_capacity
admit_session-Admits r input s proposed h =
    (ground arith, record { room = ground arith; slot = ground arith })

module _ {r : Limits} {s : SessionRegistryState} (v : Valid r s) where
  open_admitted-Safe :
      (input : BeginSessionInput) (now : ℕ) (proposed : LeaseEpoch)
      → admit_session r input s ≡ ok proposed
      → Safe (Upholds r) (open_admitted r input now s proposed)
  unfolding open_admitted
  open_admitted-Safe input now proposed admitted =
      let (new, admits) = admit_session-Admits r input s proposed admitted in
      elim (Option-cases (checked_add s.next_opening_id 1)) [
        | inl exhausted ↦ rw (open_admitted, exhausted) (Safe-some _ v)
        | inr (next, advanced) ↦
            let v' = Valid-next next v (ground arith) in
            let e : WriteSessionEntry =
              opening (new_opening r input now proposed s.next_opening_id) in
            rw (open_admitted, advanced)
              (Safe-bind (insert_entry e (record s { next_opening_id = next })) _
                (insert_entry-Safe v'.well_formed e new refl refl (λ x at. absurd (cc)))
                (λ s' p.
                  let (w', (operations, is)) = p in
                  Safe-some _ (
                    subst (Valid r) (sym is) (
                      inserted-Valid v' e operations (subst WellFormed is w') new admits.room
                        (omega (
                          arith,
                          admits.slot,
                          Counts-or_zero v.well_formed.occupied input.open_client_id,
                        ))
                        (λ x at. absurd (cc))))))
      ]

module _ {r : Limits} {s : SessionRegistryState} (v : Valid r s) where
  -- begin_session
  pub begin_session_at-Safe :
      (input : BeginSessionInput) (now : ℕ) → Safe (Upholds r) (begin_session_at r input now s)
  unfolding begin_session_at
  begin_session_at-Safe input now =
      attempt-Safe v _ _ (chain-ne-panic _ input.inode_id input.ancestor_inode_ids) (λ _ _.
        Safe-bind (sweep input.inode_id now s) _ (sweep-Valid input.inode_id now v) (λ s' v'.
          attempt-Safe v' (admit_session r input s') _ (admit_session-ne-panic r input s')
            (λ proposed admitted. open_admitted-Safe v' input now proposed admitted)))
