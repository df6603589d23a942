-- ===== src/Registry/Retire.antt =====
-- Retirement of expired openings and sessions (beryl-metadata/src/session_registry.rs).
use vecton.Prelude.{
  ℕ, zero, suc, ◌+◌, Bool, true, false, ◌&&◌, ◌||◌, Option, none, some, [], ◌∷◌, nat_eq, pair_eq,
  ltb, leb, eqb, if◌then◌else◌, Map,
}
use vecton.Prelude.Maps.{get, remove}
use vecton.Prelude.Checked.{◌>>=◌, ◌>>◌, assert, is_some}
use vecton.Types.Values.{InodeId}
use vecton.Registry.{
  SessionRegistryState, CreateFileOperationId, operation_eq, WriteOpeningId, retirement_at_ms,
  WriteSessionEntry, CreateOpeningSession,
}
use vecton.Registry.Entries.{remove_entry}
use vecton.Registry.Creates.{remove_create_opening}

-- MAX_EXPIRED_SESSION_RETIREMENTS_PER_CALL
abbrev pub max_expired_session_retirements_per_call : ℕ
max_expired_session_retirements_per_call = 64

-- The order of the pairs of a BTreeSet.
abbrev pub pair_le : ℕ × ℕ → ℕ × ℕ → Bool
pair_le (a, b) (c, d) = ltb a c || (eqb a c && leb b d)

-- first()
unfoldable pub first_pair : Map (ℕ × ℕ) Unit → Option (ℕ × ℕ)
first_pair [] = none
first_pair ((p, _) ∷ m) = elim (first_pair m) [
  | none ↦ some p
  | some q ↦ some (if pair_le p q then p else q)
]

-- What expires next: nothing, an entry or a create opening, with its time.
pub data Expiry : Type 0 where
  nothing : Expiry
  next_entry : ℕ → InodeId → Expiry
  next_create : ℕ → WriteOpeningId → Expiry

abbrev pub next_expiry : Option (ℕ × InodeId) → Option (ℕ × WriteOpeningId) → Expiry
next_expiry none none = nothing
next_expiry none (some (t, id)) = next_create t id
next_expiry (some (t, k)) none = next_entry t k
next_expiry (some (t, k)) (some (u, id)) = if ltb u t then next_create u id else next_entry t k

-- The body of the sweep where the next expiry has passed.
unfoldable pub retire_create : WriteOpeningId → SessionRegistryState → Option SessionRegistryState
retire_create opening_id s = do
  operation_id ← get opening_id s.create_opening_operations
  (s', removed) ← remove_create_opening operation_id s
  assert (is_some removed)
  some s'

unfoldable pub retire_entry : ℕ → InodeId → SessionRegistryState → Option SessionRegistryState
retire_entry expires_at_ms inode_id s = do
  (s', removed) ← remove_entry inode_id s
  elim removed [
    | some _ ↦ some s'
    | none ↦
        some
          (record s' { entries_by_expiry = remove (expires_at_ms, inode_id) s'.entries_by_expiry })
  ]

-- The loop of `retire_expired_entries`, with the rounds that the budget leaves and those done.
unfoldable pub retire_rounds : ℕ → ℕ → ℕ → SessionRegistryState → Option (SessionRegistryState × ℕ)
retire_rounds zero now_ms retired s = some (s, retired)
retire_rounds (suc budget) now_ms retired s =
    elim (next_expiry (first_pair s.entries_by_expiry) (first_pair s.create_openings_by_expiry)) [
      | nothing ↦ some (s, retired)
      | next_create t id ↦ elim (ltb now_ms t) [
        | true ↦ some (s, retired)
        | false ↦ do s' ← retire_create id s; retire_rounds budget now_ms (retired + 1) s'
      ]
      | next_entry t k ↦ elim (ltb now_ms t) [
        | true ↦ some (s, retired)
        | false ↦ do s' ← retire_entry t k s; retire_rounds budget now_ms (retired + 1) s'
      ]
    ]

unfoldable pub retire_expired_entries : ℕ → SessionRegistryState → Option (SessionRegistryState × ℕ)
retire_expired_entries now_ms s = retire_rounds max_expired_session_retirements_per_call now_ms 0 s

abbrev pub create_expired : ℕ → Option CreateOpeningSession → Bool
create_expired now_ms none = false
create_expired now_ms (some c) = leb c.expires_at_ms now_ms

unfoldable pub retire_expired_create_opening_for_operation :
    CreateFileOperationId → ℕ → SessionRegistryState → Option (SessionRegistryState × Bool)
retire_expired_create_opening_for_operation operation_id now_ms s =
    elim (create_expired now_ms (get operation_id s.create_openings)) [
      | false ↦ some (s, false)
      | true ↦ do (s', removed) ← remove_create_opening operation_id s; some (s', is_some removed)
    ]

abbrev pub entry_retires : ℕ → Option WriteSessionEntry → Bool
entry_retires now_ms none = false
entry_retires now_ms (some e) = leb (retirement_at_ms e) now_ms

unfoldable pub retire_expired_entry_for_inode :
    InodeId → ℕ → SessionRegistryState → Option (SessionRegistryState × Bool)
retire_expired_entry_for_inode inode_id now_ms s =
    elim (entry_retires now_ms (get inode_id s.entries)) [
      | false ↦ some (s, false)
      | true ↦ do (s', removed) ← remove_entry inode_id s; some (s', is_some removed)
    ]
