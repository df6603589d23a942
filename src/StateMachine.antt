-- ===== src/StateMachine.antt =====
-- beryl-metadata/src/raft/state_machine/mod.rs: the committed commands on the namespace and on files,
-- and the outcome that each of them leaves. Namespace and Apply hold the commands themselves.
pub mod Changes
pub mod Bootstrap
pub mod Invariant
pub mod Guarantees
pub mod Fencing
pub mod Answers
use vecton.Prelude.{ℕ, Bool, true, false, not, Option, none, some, String, List, [], ◌∷◌, ◌≡◌, eqb}
use vecton.Prelude.Result.{Result, ok, err, panic, ◌>>=◌, ◌>>◌}
use vecton.Types.Values.{InodeId, MountId, LeaseEpoch, ContentGeneration}
use vecton.Types.Watermark.{GroupName}
use vecton.Types.Layout.{FileLayout}
use vecton.MetadataError.{MetadataError, invalid_argument}
use vecton.Inode.{InodeAttrs}
use vecton.Storage.{Store, MountEntry}
use vecton.Storage.Batches.{commit_applied_state}
use vecton.Apply.{ApplyRejection, FatalApplyError, from_metadata_error}
use vecton.Apply.Command as FileCommand
use vecton.Namespace.{apply_bootstrap_namespace, apply_mkdir, apply_create_directory}
use vecton.Namespace.Create.{CreateFileRequest, apply_create}
use vecton.Namespace.Delete.{apply_delete}
use vecton.Namespace.Rename.{RenameRequest, apply_rename}

-- What a Delete command carries beside its time.
pub record DeleteRequest : Type 0 where
  pub mount_id : MountId
  pub expected_mount_epoch : ℕ
  pub mount_root_inode_id : InodeId
  pub relative_components : List String
  pub expected_inode_id : InodeId
  pub expected_file_lease_epoch : Option LeaseEpoch
  pub recursive : Bool

-- Each command begins with proposed_at_ms; `on_file` holds those of Apply.Command.
pub data Command : Type 0 where
  bootstrap_namespace : ℕ → GroupName → Command
  create_directory : ℕ → InodeId → List String → InodeAttrs → Bool → Command
  create_file : ℕ → CreateFileRequest → Command
  delete : ℕ → DeleteRequest → Command
  rename : ℕ → RenameRequest → Command
  on_file : FileCommand.Command → Command

pub data ApplySuccess : Type 0 where
  mount_upserted : MountEntry → ApplySuccess
  directory_ensured : InodeId → InodeAttrs → ApplySuccess
  file_created : InodeId → FileLayout → LeaseEpoch → ℕ → ContentGeneration → ApplySuccess
  delete_applied rename_applied : ApplySuccess
  file_changed : FileCommand.ApplySuccess → ApplySuccess

-- The arm of CreateDirectory.
unfoldable pub apply_directory :
    Store
    → InodeId
    → List String
    → InodeAttrs
    → Bool
    → ℕ
    → ℕ
    → Result MetadataError (Store × InodeId × InodeAttrs)
apply_directory s root components attrs true proposed_at_ms raft_state =
    apply_create_directory s root components attrs proposed_at_ms raft_state
apply_directory s root (name ∷ []) attrs false proposed_at_ms raft_state =
    apply_mkdir s root name attrs proposed_at_ms raft_state
apply_directory s root _ attrs false proposed_at_ms raft_state =
    err (invalid_argument "non-recursive CreateDirectory requires exactly one path component")

-- The `match command` of `apply_committed`.
unfoldable pub apply_command : Store → Command → ℕ → Result MetadataError (Store × ApplySuccess)
unfolding apply_directory
apply_command s (bootstrap_namespace now group_name) raft_state = do
  (s', entry) ← apply_bootstrap_namespace s group_name now raft_state
  ok (s', mount_upserted entry)
apply_command s (create_directory now root components attrs recursive) raft_state = do
  (s', inode_id, attrs') ← apply_directory s root components attrs recursive now raft_state
  ok (s', directory_ensured inode_id attrs')
apply_command s (create_file now q) raft_state = do
  (s', r) ← apply_create s q now raft_state
  ok (s', file_created r.inode_id r.layout r.lease_epoch r.expires_at_ms r.generation)
apply_command s (delete now q) raft_state = do
  s' ←
      apply_delete s q.mount_id q.expected_mount_epoch q.mount_root_inode_id q.relative_components
        q.expected_inode_id q.expected_file_lease_epoch q.recursive now raft_state
  ok (s', delete_applied)
apply_command s (rename now q) raft_state = do
  s' ← apply_rename s q now raft_state
  ok (s', rename_applied)
apply_command s (on_file c) raft_state = do
  (s', a) ← FileCommand.apply_command s c raft_state
  ok (s', file_changed a)

pub data RoutingIntent : Type 0 where
  keep upsert : RoutingIntent

-- RoutingIntent::from
abbrev pub routing_intent : Command → RoutingIntent
routing_intent (bootstrap_namespace _ _) = upsert
routing_intent _ = keep

pub data RoutingDelta : Type 0 where
  unchanged : RoutingDelta
  upserted : MountEntry → RoutingDelta

pub data Response : Type 0 where
  success : ApplySuccess → Response
  rejection : ApplyRejection → Response

pub record CommittedApply : Type 0 where
  pub response : Response
  pub routing_delta : RoutingDelta

-- The `match` of CommittedApply::new.
unfoldable pub delta : RoutingIntent → Response → RoutingDelta
delta upsert (success (mount_upserted entry)) = upserted entry
delta _ _ = unchanged

-- CommittedApply::new
abbrev pub committed : RoutingIntent → Response → CommittedApply
committed intent response = record { response = response; routing_delta = delta intent response }

unfoldable pub respond :
    Store
    → Command
    → ℕ
    → Result MetadataError (Store × ApplySuccess)
    → Result FatalApplyError (Store × CommittedApply)
respond s c raft_state (ok (s', a)) = ok (s', committed (routing_intent c) (success a))
respond s c raft_state (err e) = do
  r ← from_metadata_error e
  ok (commit_applied_state s raft_state, committed (routing_intent c) (rejection r))
respond s c raft_state panic = panic

unfoldable pub apply_committed :
    Store → Command → ℕ → Result FatalApplyError (Store × CommittedApply)
unfolding respond
apply_committed s c raft_state = respond s c raft_state (apply_command s c raft_state)
