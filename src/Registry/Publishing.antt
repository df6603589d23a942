-- ===== src/Registry/Publishing.antt =====
-- The calls by which a publication owns its session (beryl-metadata/src/session_registry.rs).
use vecton.Prelude.{
  ℕ, suc, ◌-◌, Bool, true, false, not, ◌&&◌, ◌||◌, Option, none, some, List, [], ◌∷◌, String, eqb,
  leb, ltb, if◌then◌else◌, nat_eq, option_eq, ◌==◌, checked_add, checked_sub, length, take, Map,
  u64_max,
}
use vecton.Prelude.Result.{ok, err, map_err}
use vecton.Prelude.Checked.{◌>>=◌, is_none}
use vecton.Types.Values.{
  InodeId, LeaseEpoch, ContentGeneration, BlockId, LocatedBlock, checked_next, append,
}
use vecton.Registry.{SessionRegistryState, opening, active, WriteSession, WritePublicationId}
use vecton.Registry.Entries.{
  put_session, move_expiry_indexes, remove_entry, record_write_target_gauges,
}
use vecton.Registry.SessionChecks.{
  active_session, check_publication, BeginWritePublicationError, publication_id_exhausted,
  check_owner, check_sync,
}
use vecton.Registry.Calls.{Call, attempt, sweep}
use vecton.Prelude.Maps.{get}

-- The owner that `begin_publication` returns.
pub record WritePublication : Type 0 where
  pub session : WriteSession
  pub publication_id : WritePublicationId
  pub armed : Bool
  pub submitted : Bool

unfoldable pub publish_swept :
    InodeId → LeaseEpoch → SessionRegistryState → Call BeginWritePublicationError WritePublication
publish_swept inode_id lease_epoch s =
    attempt s (map_err BeginWritePublicationError.session (active_session s inode_id)) (λ x.
      attempt s (check_publication x lease_epoch) (λ _. elim (checked_add s.next_publication_id 1) [
        | none ↦ some (s, err publication_id_exhausted)
        | some next ↦
            let x' : WriteSession = record x { active_publication = some s.next_publication_id } in
            some (
              put_session inode_id x' (record s { next_publication_id = next }),
              ok (record {
                session = x';
                publication_id = s.next_publication_id;
                armed = true;
                submitted = false;
              }),
            )
      ]))

unfoldable pub begin_publication :
    InodeId
    → LeaseEpoch
    → ℕ
    → SessionRegistryState
    → Call BeginWritePublicationError WritePublication
begin_publication inode_id lease_epoch now_ms s = do
  s' ← sweep inode_id now_ms s
  publish_swept inode_id lease_epoch s'

-- WritePublication::mark_submitted, with the owner after the call.
unfoldable pub mark_submitted :
    WritePublication → ℕ → SessionRegistryState → Call String WritePublication
mark_submitted p now_ms s =
    if p.submitted
    then some (s, ok p)
    else if is_none (checked_next p.session.lease_epoch)
    then some (s, err "file publication write lease epoch exhausted")
    else attempt s (active_session s p.session.inode_id) (λ x.
      if not (eqb x.lease_epoch p.session.lease_epoch)
        || not (x.active_publication == some p.publication_id)
        || leb x.expires_at_ms now_ms
      then some (s, err "file publication session changed or expired before submission")
      else do
        s' ←
            move_expiry_indexes p.session.inode_id x.ancestor_inode_ids x.expires_at_ms u64_max
              (put_session p.session.inode_id (record x { publication_submitted = true }) s)
        some (s', ok (record p { submitted = true })))

unfoldable pub revalidate_publication :
    InodeId → LeaseEpoch → WritePublicationId → ℕ → SessionRegistryState → Call String WriteSession
revalidate_publication inode_id lease_epoch publication_id now_ms s = do
  s' ← sweep inode_id now_ms s
  attempt s' (active_session s' inode_id)
      (λ x. attempt s' (check_owner x lease_epoch publication_id) (λ _. some (s', ok x)))

-- partition_point(|target| target.file_offset < file_size), on targets in the order of their offsets.
unfoldable pub partition_point : ℕ → List LocatedBlock → ℕ
partition_point file_size [] = 0
partition_point file_size (t ∷ ts) =
    let rest = partition_point file_size ts in if ltb t.file_offset file_size then suc rest else 0

-- retain(|_, target_index| *target_index < count)
unfoldable pub retain_below : ℕ → Map (Option BlockId) ℕ → Map (Option BlockId) ℕ
retain_below count [] = []
retain_below count ((p, n) ∷ m) =
    let rest = retain_below count m in if ltb n count then (p, n) ∷ rest else rest

-- release_sync_publication, on the session as it was last assigned.
unfoldable pub release_sync_publication :
    InodeId → WriteSession → SessionRegistryState → Option SessionRegistryState
release_sync_publication inode_id x s = elim x.publication_submitted [
  | false ↦ some (put_session inode_id (record x { active_publication = none }) s)
  | true ↦ move_expiry_indexes inode_id x.ancestor_inode_ids u64_max x.expires_at_ms (
      put_session inode_id (record x { active_publication = none; publication_submitted = false })
        s)
]

-- The session with the new generation and the targets before the new end.
abbrev pub synced_session : WriteSession → ContentGeneration → ℕ → WriteSession
synced_session x generation file_size = record x {
  issued_targets = take (partition_point file_size x.issued_targets) x.issued_targets;
  issued_steps = retain_below (partition_point file_size x.issued_targets) x.issued_steps;
  generation = generation;
  base_size = file_size;
  mode = append;
  active_publication = none;
}

unfoldable pub install_sync :
    InodeId → WriteSession → ContentGeneration → ℕ → SessionRegistryState → Call String Unit
install_sync inode_id x generation file_size s = do
  outstanding ←
      checked_sub s.outstanding_write_targets
        (length x.issued_targets - partition_point file_size x.issued_targets)
  s' ←
      release_sync_publication inode_id (synced_session x generation file_size)
        (record s { outstanding_write_targets = outstanding })
  s'' ← record_write_target_gauges s'
  some (s'', ok tt)

unfoldable pub sync_swept :
    InodeId
    → LeaseEpoch
    → WritePublicationId
    → ContentGeneration
    → ℕ
    → SessionRegistryState
    → Call String Unit
sync_swept inode_id lease_epoch publication_id generation file_size s =
    attempt s (active_session s inode_id) (λ x.
      attempt s (check_owner x lease_epoch publication_id) (λ _.
        attempt s (check_sync x generation file_size) (λ repeated. elim repeated [
          | true ↦ do
            s' ← release_sync_publication inode_id (record x { mode = append }) s
            some (s', ok tt)
          | false ↦ install_sync inode_id x generation file_size s
        ])))

unfoldable pub complete_sync_publication :
    InodeId
    → LeaseEpoch
    → WritePublicationId
    → ContentGeneration
    → ℕ
    → ℕ
    → SessionRegistryState
    → Call String Unit
complete_sync_publication inode_id lease_epoch publication_id generation file_size now_ms s = do
  s' ← sweep inode_id now_ms s
  sync_swept inode_id lease_epoch publication_id generation file_size s'

-- The session that the publication still owns.
unfoldable pub publishing_session :
    InodeId → LeaseEpoch → WritePublicationId → SessionRegistryState → Option WriteSession
publishing_session inode_id lease_epoch publication_id s = elim (get inode_id s.entries) [
  | some (active x) ↦
      if eqb x.lease_epoch lease_epoch && x.active_publication == some publication_id
      then some x
      else none
  | some (opening o) ↦ none
  | none ↦ none
]

unfoldable pub complete_commit_publication :
    InodeId → LeaseEpoch → WritePublicationId → SessionRegistryState → Option SessionRegistryState
complete_commit_publication inode_id lease_epoch publication_id s =
    elim (publishing_session inode_id lease_epoch publication_id s) [
      | none ↦ some s
      | some x ↦ do (s', _) ← remove_entry inode_id s; some s'
    ]

unfoldable pub cancel_publication :
    InodeId → LeaseEpoch → WritePublicationId → SessionRegistryState → SessionRegistryState
cancel_publication inode_id lease_epoch publication_id s =
    elim (publishing_session inode_id lease_epoch publication_id s) [
      | none ↦ s
      | some x ↦ put_session inode_id (record x { active_publication = none }) s
    ]

-- The drop of a WritePublication.
unfoldable pub drop_publication : WritePublication → SessionRegistryState → SessionRegistryState
drop_publication p s =
    if p.armed && not p.submitted
    then cancel_publication p.session.inode_id p.session.lease_epoch p.publication_id s
    else s
