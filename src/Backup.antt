-- ===== src/Backup.antt =====
-- internal/backup: the record of one backup run (model.go). The children model its table, its
-- service and what the service promises.
pub mod Repo
pub mod Service
pub mod Start
pub mod Run
pub mod Verify
pub mod Manage
pub mod Dump
pub mod Handler
pub mod Reports
pub mod Engines
pub mod Slots
pub mod Credentials
use backupeer.Prelude.{ℕ, String, Bool, List, Option}

-- A pointer field is an `Option`; a time is a number of milliseconds; sizes are not negative.
pub record Backup : Type 0 where
  pub id : String
  pub connection_id : String
  pub database_id : String
  pub schedule_id : Option String
  pub backup_type : String
  pub status : String
  pub storage_path : String
  pub storage_provider_id : Option String
  pub size_bytes : Option ℕ
  pub encrypted_size_bytes : Option ℕ
  pub encryption_algo : String
  pub encryption_key_id : Option String
  pub checksum : String
  pub encrypted_checksum : String
  pub verified_at : Option ℕ
  pub verify_status : String
  pub duration_ms : Option ℕ
  pub log_output : String
  pub started_at : Option ℕ
  pub completed_at : Option ℕ
  pub notif_target_ids : List String
  pub notify_on_success : Bool
  pub notify_on_failure : Bool
  pub created_at : ℕ
