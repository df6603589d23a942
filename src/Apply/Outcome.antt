-- ===== src/Apply/Outcome.antt =====
-- beryl-metadata/src/raft/response.rs: which errors of a command are rejections, which are fatal.
use vecton.Prelude.{ℕ, String, ◌≡◌, arith}
use vecton.Prelude.Result.{Result, ok, err}
use vecton.MetadataError.{MetadataError}

pub data ApplyRejectionKind : Type 0 where
  not_found already_exists invalid_argument not_dir is_dir : ApplyRejectionKind
  directory_not_empty cross_mount_rename permission_denied not_supported : ApplyRejectionKind
  busy active_worker_conflict again resource_exhausted : ApplyRejectionKind
  lease_fenced : ℕ → ℕ → ApplyRejectionKind

pub record ApplyRejection : Type 0 where
  pub kind : ApplyRejectionKind
  pub message : String

pub record FatalApplyError : Type 0 where
  pub inner : MetadataError

abbrev reject : ApplyRejectionKind → String → Result FatalApplyError ApplyRejection
reject kind message = ok (record { kind = kind; message = message })

-- The first clauses are the rejections; every other error is fatal.
unfoldable pub from_metadata_error : MetadataError → Result FatalApplyError ApplyRejection
from_metadata_error (MetadataError.not_found m) = reject not_found m
from_metadata_error (MetadataError.already_exists m) = reject already_exists m
from_metadata_error (MetadataError.invalid_argument m) = reject invalid_argument m
from_metadata_error (MetadataError.not_dir m) = reject not_dir m
from_metadata_error (MetadataError.is_dir m) = reject is_dir m
from_metadata_error (MetadataError.directory_not_empty m) = reject directory_not_empty m
from_metadata_error (MetadataError.cross_mount_rename m) = reject cross_mount_rename m
from_metadata_error (MetadataError.permission_denied m) = reject permission_denied m
from_metadata_error (MetadataError.not_supported m) = reject not_supported m
from_metadata_error (MetadataError.busy m) = reject busy m
from_metadata_error (MetadataError.active_worker_conflict m) = reject active_worker_conflict m
from_metadata_error (MetadataError.again m) = reject again m
from_metadata_error (MetadataError.resource_exhausted m) = reject resource_exhausted m
from_metadata_error (MetadataError.lease_fenced expected got) =
    reject (lease_fenced expected got) "lease fenced"
from_metadata_error fatal = err (record { inner = fatal })

unfoldable pub into_metadata_error : ApplyRejection → MetadataError
into_metadata_error r = elim r.kind [
  | not_found ↦ MetadataError.not_found r.message
  | already_exists ↦ MetadataError.already_exists r.message
  | invalid_argument ↦ MetadataError.invalid_argument r.message
  | not_dir ↦ MetadataError.not_dir r.message
  | is_dir ↦ MetadataError.is_dir r.message
  | directory_not_empty ↦ MetadataError.directory_not_empty r.message
  | cross_mount_rename ↦ MetadataError.cross_mount_rename r.message
  | permission_denied ↦ MetadataError.permission_denied r.message
  | not_supported ↦ MetadataError.not_supported r.message
  | busy ↦ MetadataError.busy r.message
  | active_worker_conflict ↦ MetadataError.active_worker_conflict r.message
  | again ↦ MetadataError.again r.message
  | resource_exhausted ↦ MetadataError.resource_exhausted r.message
  | lease_fenced expected got ↦ MetadataError.lease_fenced expected got
]

-- A rejection that reaches the proposer is the error that the command ended in.
pub into-from_metadata_error :
    (e : MetadataError) (r : ApplyRejection)
    → from_metadata_error e ≡ ok r
    → into_metadata_error r ≡ e
unfolding from_metadata_error into_metadata_error
into-from_metadata_error (MetadataError.not_found m) r h = ground arith
into-from_metadata_error _ r h = ground arith
