-- ===== src/Registry/Exclusion.antt =====
-- What an accepted `begin_session` means (beryl-metadata/src/session_registry.rs).
use vecton.Prelude.{
  ℕ, ◌+◌, ◌≤◌, ◌≡◌, refl, ap, ◌∙◌, some, none, arith, inl, inr, nat_eq, Option-cases, Bool-cases,
  leb, checked_add, string_eq, pair_eq,
}
use vecton.Prelude.Maps.{get, get-insert_self}
use vecton.Prelude.Result.{Result, ok, err, panic, map_err}
use vecton.Prelude.Checked.{◌>>=◌}
use vecton.Types.Values.{LeaseEpoch}
use vecton.Registry.{
  SessionRegistryState, WriteSessionEntry, opening, OpeningSession, Limits, retirement_at_ms,
}
use vecton.Registry.Checks.{
  BeginSessionInput, BeginSessionError, validate_ancestor_chain, admit_session, session_capacity,
}
use vecton.Registry.Opening.{begin_session_at, open_admitted, new_opening, WriteOpening}
use vecton.Registry.Calls.{Call, attempt, sweep}
use vecton.Registry.WellFormed.{WellFormed}
use vecton.Registry.WellFormed.Entries.{insert_entry-Safe, inserted}
use vecton.Registry.WellFormed.Live.{sweep-Swept}
use vecton.Registry.Valid.Opening.{WellFormed-next}

-- An `Ok` of a chain comes from an `Ok` of its test.
attempt-ok :
    {E A B : Type 0} (s s' : SessionRegistryState) (m : Result E A) (next : A → Call E B) (b : B)
    → attempt s m next ≡ some (s', ok b)
    → (a : A) × (m ≡ ok a) × (next a ≡ some (s', ok b))
attempt-ok s s' (ok a) next b h = (a, refl, h)
attempt-ok s s' (err e) next b h = absurd (ground (arith, h))
attempt-ok s s' panic next b h = absurd (ground (arith, h))

-- The granted opening, as the registry holds it.
pub record Grants (input : BeginSessionInput) (s' : SessionRegistryState) (o : WriteOpening)
    : Type 0 where
  pub entry : OpeningSession
  pub stored : get input.inode_id s'.entries ≡ some (opening entry)
  pub identity : entry.opening_id ≡ o.opening_id
  pub client : entry.open_client_id ≡ input.open_client_id
  pub proposed : entry.proposed_lease_epoch ≡ o.proposed_lease_epoch
  pub epoch : o.proposed_lease_epoch ≡ input.current_lease_epoch + 1

admit_session-free :
    (r : Limits) (input : BeginSessionInput) (s : SessionRegistryState) (proposed : LeaseEpoch)
    → admit_session r input s ≡ ok proposed
    → (get input.inode_id s.entries ≡ none) × (proposed ≡ input.current_lease_epoch + 1)
unfolding admit_session session_capacity
admit_session-free r input s proposed h = (ground arith, ground arith)

open_admitted-Grants :
    (r : Limits) (input : BeginSessionInput) (now : ℕ) {s s' : SessionRegistryState}
    (proposed : LeaseEpoch) (o : WriteOpening)
    → WellFormed s
    → get input.inode_id s.entries ≡ none
    → proposed ≡ input.current_lease_epoch + 1
    → open_admitted r input now s proposed ≡ some (s', ok o)
    → Grants input s' o
unfolding open_admitted
open_admitted-Grants r input now {s} {s'} proposed o w free epoch h =
    elim (Option-cases (checked_add s.next_opening_id 1)) [
      | inl exhausted ↦ absurd (ground (arith, rw (open_admitted, exhausted) at h))
      | inr (next, advanced) ↦
          let x : OpeningSession = new_opening r input now proposed s.next_opening_id in
          let p =
            insert_entry-Safe (WellFormed-next next w (ground (arith, advanced))) (opening x) free
              refl refl (λ y at. absurd (cc)) in
          let (_, (operations, is)) = p.holds in
          let at = rw (open_admitted, advanced, p.runs) at h in
          let left : s' ≡ inserted (opening x) operations (record s { next_opening_id = next }) =
            ground (arith, at) ∙ is in
          record {
            entry = x;
            stored =
                ap (λ (t : SessionRegistryState). get input.inode_id t.entries) left
                ∙ get-insert_self input.inode_id (opening x) s.entries;
            identity = ground (arith, at);
            client = refl;
            proposed = ground (arith, at);
            epoch = ground (arith, at, epoch);
          }
    ]

-- In a well-formed registry an accepted `begin_session` means that no entry of the inode was still in
-- its time, and it leaves the inode with exactly the granted opening, of this client and with the
-- next lease epoch.
pub begin_session_at-Grants :
    (r : Limits) (input : BeginSessionInput) (now : ℕ) (s s' : SessionRegistryState)
    (o : WriteOpening)
    → WellFormed s
    → begin_session_at r input now s ≡ some (s', ok o)
    → ((e : WriteSessionEntry) → get input.inode_id s.entries ≡ some e → retirement_at_ms e ≤ now)
      × Grants input s' o
unfolding begin_session_at
begin_session_at-Grants r input now s s' o w h =
    let (_, _, h1) =
      attempt-ok s s'
        (map_err (λ _. BeginSessionError.invalid_ancestor_chain)
          (validate_ancestor_chain input.inode_id input.ancestor_inode_ids))
        (λ _. sweep input.inode_id now s >>= λ t.
          attempt t (admit_session r input t) (open_admitted r input now t))
        o h in
    let p = sweep-Swept input.inode_id now w in
    let t : SessionRegistryState = p.result in
    let h2 : attempt t (admit_session r input t) (open_admitted r input now t) ≡ some (s', ok o) =
      rw p.runs at h1 in
    let (proposed, admitted, h3) = attempt-ok t s' (admit_session r input t) _ o h2 in
    let (free, epoch) = admit_session-free r input t proposed admitted in
    (
      λ e old. elim (Bool-cases (leb (retirement_at_ms e) now)) [
        | inl past ↦ ground (arith, past)
        | inr later ↦
            absurd (ground (arith, p.holds.live input.inode_id e old (ground (arith, later)), free))
      ],
      open_admitted-Grants r input now proposed o p.holds.kept.0 free epoch h3,
    )
