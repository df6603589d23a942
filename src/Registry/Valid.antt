-- ===== src/Registry/Valid.antt =====
-- The whole invariant of the registry with its limits (beryl-metadata/src/session_registry.rs), and
-- how the parts of a call keep it.
pub mod Opening
pub mod Activation
pub mod Creating
pub mod Targets
pub mod Completion
pub mod Publishing
pub mod Syncing
pub mod Release
pub mod Lookup
use vecton.Prelude.{
  ℕ, ◌+◌, ◌≤◌, ◌<◌, ◌≡◌, ◌≢◌, refl, ap, sym, ◌∙◌, subst, Option, some, none, arith, inl, inr, eqb,
  eqb_iff, nat_eq, if◌then◌else◌, option_eq, Map, length, Unique, Bool-cases, [], test_refl,
}
use vecton.Prelude.Maps.{get, insert, get-insert}
use vecton.Prelude.Counts.{total, size}
use vecton.Prelude.Result.{Result, ok, err, panic}
use vecton.Prelude.Checked.{◌>>=◌, Safe, Safe-some, Safe-bind, Safe-map}
use vecton.Types.Values.{InodeId, ClientId, BlockId, block_id_eq}
use vecton.Registry.{
  SessionRegistryState, WriteSessionEntry, opening, active, WriteSession, PendingAllocateBlock,
  Limits, CreateFileOperationId, CreateOpeningSession, operation_eq, one_if_some, entry_inode_id,
  client_id_of, operation_of,
}
use vecton.Registry.Retire.{retire_expired_entries, retire_expired_entry_for_inode}
use vecton.Registry.Calls.{Call, attempt, sweep}
use vecton.Registry.WellFormed.{WellFormed, client_slots, entry_slots, create_slots, entry_targets}
use vecton.Registry.WellFormed.Entries.{inserted, grows}
use vecton.Registry.WellFormed.Replacement.{changes}
use vecton.Registry.WellFormed.Retirement.{Kept, Less, Less-trans}
use vecton.Registry.WellFormed.Sweep.{
  retire_expired_entries-Kept, retire_expired_entry_for_inode-Kept,
}

-- The state of one active session: its targets stay within the limit, its issued steps point to
-- targets, and a pending step is new and excludes a publication.
pub record IsSession (r : Limits) (x : WriteSession) : Type 0 where
  pub targets :
      length x.issued_targets + one_if_some x.pending_allocate_block
      ≤ r.max_write_targets_per_session
  pub steps :
      (p : Option BlockId) (n : ℕ) → get p x.issued_steps ≡ some n → n < length x.issued_targets
  pub steps_unique : Unique x.issued_steps
  pub step_new :
      (p : PendingAllocateBlock)
      → x.pending_allocate_block ≡ some p
      → get p.previous_block_id x.issued_steps ≡ none
  pub exclusive :
      (p : PendingAllocateBlock) → x.pending_allocate_block ≡ some p → x.active_publication ≡ none

pub record Valid (r : Limits) (s : SessionRegistryState) : Type 0 where
  pub well_formed : WellFormed s
  pub sessions_bounded : size s.entries + size s.create_openings ≤ r.max_sessions
  pub clients_bounded : (client : ClientId) → client_slots s client ≤ r.max_sessions_per_client
  pub targets_bounded : s.outstanding_write_targets ≤ r.max_write_targets
  pub session : (k : InodeId) (x : WriteSession) → get k s.entries ≡ some (active x) → IsSession r x

-- What the constructor of the registry asserts of its limits.
pub record AreLimits (r : Limits) : Type 0 where
  pub sessions : 0 < r.max_sessions
  pub per_client : 0 < r.max_sessions_per_client
  pub per_client_within : r.max_sessions_per_client ≤ r.max_sessions
  pub targets : 0 < r.max_write_targets
  pub per_session : 0 < r.max_write_targets_per_session
  pub per_session_within : r.max_write_targets_per_session ≤ r.max_write_targets

-- The state after a call, whatever its answer.
abbrev pub Upholds : {E A : Type 0} → Limits → SessionRegistryState × Result E A → Type 0
Upholds r x = Valid r x.0

pub Valid-Kept : {r : Limits} {s s' : SessionRegistryState} → Valid r s → Kept s s' → Valid r s'
unfolding size
Valid-Kept {r} {s} {s'} v (w, less) = record {
  well_formed = w;
  sessions_bounded =
      omega (arith, v.sessions_bounded, less.entry_total (λ _ _. 1), less.create_total (λ _ _. 1));
  clients_bounded = λ client. omega (
    arith,
    v.clients_bounded client,
    less.entry_total (entry_slots client),
    less.create_total (create_slots client),
  );
  targets_bounded = omega (
    arith,
    v.targets_bounded,
    v.well_formed.outstanding,
    w.outstanding,
    less.entry_total entry_targets,
  );
  session = λ k x g. v.session k x (less.entries k (active x) g);
}

pub sweep-Kept :
    (k : InodeId) (now : ℕ) {s : SessionRegistryState}
    → WellFormed s
    → Safe (Kept s) (sweep k now s)
unfolding sweep
sweep-Kept k now {s} w =
    Safe-bind (retire_expired_entry_for_inode k now s) _
      (retire_expired_entry_for_inode-Kept k now w)
      (λ x p.
        Safe-bind (retire_expired_entries now x.0) _ (retire_expired_entries-Kept now p.0.0)
          (λ y q. Safe-some y.0 (q.0.0, Less-trans p.0.1 q.0.1)))

pub sweep-Valid :
    (k : InodeId) (now : ℕ) {r : Limits} {s : SessionRegistryState}
    → Valid r s
    → Safe (Valid r) (sweep k now s)
sweep-Valid k now v = Safe-map (sweep-Kept k now v.well_formed) (λ s' p. Valid-Kept v p)

slot_for : ClientId → ClientId → ℕ
slot_for c client = if eqb client c then 1 else 0

module _ {r : Limits} {s : SessionRegistryState} (v : Valid r s) where
  pub attempt-Safe :
      {E A B : Type 0} (m : Result E A) (next : A → Call E B)
      → m ≢ panic
      → ((a : A) → m ≡ ok a → Safe (Upholds r) (next a))
      → Safe (Upholds r) (attempt s m next)
  attempt-Safe (ok a) next calm go = go a refl
  attempt-Safe (err e) next calm go = Safe-some (s, err e) v
  attempt-Safe panic next calm go = absurd (calm refl)

  -- A new entry within the limits.
  pub inserted-Valid :
      (e : WriteSessionEntry) (operations : Map CreateFileOperationId InodeId)
      → WellFormed (inserted e operations s)
      → get (entry_inode_id e) s.entries ≡ none
      → size s.entries + size s.create_openings < r.max_sessions
      → client_slots s (client_id_of e) < r.max_sessions_per_client
      → ((x : WriteSession) → e ≡ active x → IsSession r x)
      → Valid r (inserted e operations s)
  unfolding size
  inserted-Valid e operations w new room slot is =
      let k : InodeId = entry_inode_id e in
      record {
        well_formed = w;
        sessions_bounded = omega (arith, room, grows (λ _ _. 1) k e s.entries new);
        clients_bounded = λ client. elim (Bool-cases (eqb (client_id_of e) client)) [
          | inl hit ↦ ground (
            arith,
            grows (entry_slots client) k e s.entries new,
            slot,
            ap (λ (x : ℕ). client_slots s x) ((eqb_iff (client_id_of e) client).0 hit),
          )
          | inr miss ↦
              ground (arith, grows (entry_slots client) k e s.entries new, v.clients_bounded client)
        ];
        targets_bounded = v.targets_bounded;
        session = λ j x g. elim (Bool-cases (eqb k j)) [
          | inl hit ↦ is x (ground (arith, get-insert k j e s.entries))
          | inr miss ↦ v.session j x (ground (arith, get-insert k j e s.entries))
        ];
      }

  -- A session is written again within the limits.
  pub rewritten-Valid :
      (s' : SessionRegistryState) (k : InodeId) (e : WriteSessionEntry) (x : WriteSession)
      → WellFormed s'
      → s'.entries ≡ insert k (active x) s.entries
      → s'.create_openings ≡ s.create_openings
      → get k s.entries ≡ some e
      → x.open_client_id ≡ client_id_of e
      → s'.outstanding_write_targets ≤ r.max_write_targets
      → IsSession r x
      → Valid r s'
  unfolding size slot_for
  rewritten-Valid s' k e x w entries creates old client room is = record {
    well_formed = w;
    sessions_bounded = omega (
      arith,
      v.sessions_bounded,
      changes (λ _ _. 1) k e (active x) s.entries old,
      ap size entries,
      ap size creates,
    );
    clients_bounded = λ c. omega (
      arith,
      v.clients_bounded c,
      changes (entry_slots c) k e (active x) s.entries old,
      ap (slot_for c) client,
      ap (total (entry_slots c)) entries,
      ap (total (create_slots c)) creates,
    );
    targets_bounded = room;
    session = λ j y g. elim (Bool-cases (eqb k j)) [
      | inl hit ↦
          let same : x ≡ y =
            ground (arith, ap (get j) entries, get-insert k j (active x) s.entries) in
          subst (IsSession r) same is
      | inr miss ↦
          v.session j y (ground (arith, ap (get j) entries, get-insert k j (active x) s.entries))
    ];
  }
