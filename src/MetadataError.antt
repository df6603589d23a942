-- ===== src/MetadataError.antt =====
-- MetadataError of beryl-metadata/src/error.rs. A message is its text, without the values that a
-- `format!` writes into it.
use vecton.Prelude.{ℕ, String, Option}

pub data MetadataError : Type 0 where
  not_found already_exists invalid_argument not_dir is_dir : String → MetadataError
  directory_not_empty cross_mount_rename permission_denied : String → MetadataError
  not_supported busy active_worker_conflict again : String → MetadataError
  resource_exhausted write_session_limit_exceeded : String → MetadataError
  global_write_target_limit_exceeded : String → MetadataError
  lease_fenced : ℕ → ℕ → MetadataError
  leader_changed : String → MetadataError
  epoch_mismatch : ℕ → ℕ → MetadataError
  mount_epoch_mismatch : ℕ → ℕ → Option ℕ → MetadataError
  routing_stale stale_state full_report_required : String → MetadataError
  internal service_unavailable : String → MetadataError
