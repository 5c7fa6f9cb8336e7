-- ===== src/Schedule.antt =====
-- internal/schedule: the record of one backup schedule (model.go). The children model its table, its
-- service, the scheduler, and the HTTP handlers that join them.
pub mod Repo
pub mod Scheduler
pub mod Handler
pub mod Sync
pub mod Retention
use backupeer.Prelude.{ℕ, String, Bool, List}

-- A retention limit that is not positive is 0.
pub record Schedule : Type 0 where
  pub id : String
  pub connection_id : String
  pub database_id : String
  pub backup_type : String
  pub cron_expr : String
  pub storage_provider_id : String
  pub encryption_enabled : Bool
  pub encryption_key_id : String
  pub verify_enabled : Bool
  pub retention_full : ℕ
  pub retention_incr : ℕ
  pub notif_target_ids : List String
  pub notify_on_success : Bool
  pub notify_on_failure : Bool
  pub enabled : Bool
  pub created_at : ℕ
