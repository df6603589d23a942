-- ===== src/Registry/Lookup.antt =====
-- The calls that look a session up, renew it or end it (beryl-metadata/src/session_registry.rs).
use vecton.Prelude.{
  ℕ, Bool, true, false, Option, none, some, [], ◌∷◌, eqb, leb, ltb, nat_eq, max, saturating_add,
  Map,
}
use vecton.Prelude.Maps.{get}
use vecton.Prelude.Result.{ok, err}
use vecton.Prelude.Checked.{◌>>=◌}
use vecton.Types.Values.{InodeId, MountId, ClientId, LeaseEpoch}
use vecton.Registry.{
  SessionRegistryState, WriteSessionEntry, opening, active, WriteSession, Limits, expires_at_of,
}
use vecton.Registry.Entries.{put_session, move_expiry_indexes, remove_entry}
use vecton.Registry.Retire.{retire_expired_entries, retire_expired_entry_for_inode}
use vecton.Registry.SessionChecks.{WriteSessionError, expired, owned_session, renewable_session}
use vecton.Registry.Calls.{Call, attempt, sweep}

abbrev pub session_of : Option WriteSessionEntry → Option WriteSession
session_of (some (active x)) = some x
session_of (some (opening o)) = none
session_of none = none

unfoldable pub get_session :
    InodeId → ℕ → SessionRegistryState → Option (SessionRegistryState × Option WriteSession)
get_session inode_id now_ms s = do
  s' ← sweep inode_id now_ms s
  some (s', session_of (get inode_id s'.entries))

pub record WriteSessionIdentity : Type 0 where
  pub mount_id : MountId
  pub lease_epoch : LeaseEpoch
  pub open_client_id : ClientId

abbrev pub identity_of : Option WriteSession → Option WriteSessionIdentity
identity_of none = none
identity_of (some x) = some (record {
  mount_id = x.mount_id;
  lease_epoch = x.lease_epoch;
  open_client_id = x.open_client_id;
})

unfoldable pub get_session_identity :
    InodeId → ℕ → SessionRegistryState → Option (SessionRegistryState × Option WriteSessionIdentity)
get_session_identity inode_id now_ms s = do
  s' ← sweep inode_id now_ms s
  some (s', identity_of (session_of (get inode_id s'.entries)))

abbrev pub has_epoch : LeaseEpoch → Option WriteSession → Bool
has_epoch lease_epoch none = false
has_epoch lease_epoch (some x) = eqb x.lease_epoch lease_epoch

unfoldable pub remove_session_if_epoch :
    InodeId
    → LeaseEpoch
    → SessionRegistryState
    → Option (SessionRegistryState × Option WriteSession)
remove_session_if_epoch inode_id lease_epoch s =
    elim (has_epoch lease_epoch (session_of (get inode_id s.entries))) [
      | false ↦ some (s, none)
      | true ↦ do (s', removed) ← remove_entry inode_id s; x ← session_of removed; some (s', some x)
    ]

abbrev pub entry_expired : ℕ → Option WriteSessionEntry → Bool
entry_expired now_ms none = false
entry_expired now_ms (some e) = leb (expires_at_of e) now_ms

unfoldable pub validate_session :
    InodeId → LeaseEpoch → ℕ → SessionRegistryState → Call WriteSessionError Unit
validate_session inode_id lease_epoch now_ms s =
    elim (entry_expired now_ms (get inode_id s.entries)) [
      | true ↦ do (s', _) ← retire_expired_entry_for_inode inode_id now_ms s; some (s', err expired)
      | false ↦ do
        (s', _) ← retire_expired_entries now_ms s
        attempt s' (owned_session s' inode_id lease_epoch) (λ _. some (s', ok tt))
    ]

-- The renewed expiry of a session.
abbrev pub renewed : Limits → ℕ → WriteSession → ℕ
renewed r now_ms x = max (saturating_add now_ms r.session_ttl_ms) x.expires_at_ms

unfoldable pub renew_found :
    Limits → InodeId → ℕ → WriteSession → SessionRegistryState → Call WriteSessionError ℕ
renew_found r inode_id now_ms x s = elim x.publication_submitted [
  | true ↦ some (
    put_session inode_id (record x { expires_at_ms = renewed r now_ms x }) s,
    ok (renewed r now_ms x),
  )
  | false ↦ do
    s' ← move_expiry_indexes inode_id x.ancestor_inode_ids x.expires_at_ms (renewed r now_ms x) s
    some (
      put_session inode_id (record x { expires_at_ms = renewed r now_ms x }) s',
      ok (renewed r now_ms x),
    )
]

unfoldable pub renew_session_at :
    Limits → InodeId → LeaseEpoch → ClientId → ℕ → SessionRegistryState → Call WriteSessionError ℕ
renew_session_at r inode_id lease_epoch client_id now_ms s =
    elim (entry_expired now_ms (get inode_id s.entries)) [
      | true ↦ do (s', _) ← retire_expired_entry_for_inode inode_id now_ms s; some (s', err expired)
      | false ↦ do
        (s', _) ← retire_expired_entries now_ms s
        attempt s' (renewable_session s' inode_id lease_epoch client_id)
            (λ x. renew_found r inode_id now_ms x s')
    ]

unfoldable pub retire_expired_batch : ℕ → SessionRegistryState → Option (SessionRegistryState × ℕ)
retire_expired_batch now_ms s = retire_expired_entries now_ms s

-- last_key_value() of a BTreeMap: its greatest key.
unfoldable pub last_key : Map ℕ ℕ → Option ℕ
last_key [] = none
last_key ((t, _) ∷ m) = elim (last_key m) [ none ↦ some t | some u ↦ some (max t u) ]

abbrev pub active_at : ℕ → Option (Map ℕ ℕ) → Bool
active_at now_ms none = false
active_at now_ms (some activity) = elim (last_key activity) [ none ↦ false | some t ↦ ltb now_ms t ]

unfoldable pub has_active_write_under_at :
    InodeId → ℕ → SessionRegistryState → Option (SessionRegistryState × Bool)
has_active_write_under_at inode_id now_ms s = do
  (s', _) ← retire_expired_entries now_ms s
  some (s', active_at now_ms (get inode_id s'.ancestor_activity))
