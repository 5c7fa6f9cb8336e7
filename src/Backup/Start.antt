-- ===== src/Backup/Start.antt =====
-- internal/backup/service.go: StartBackup, up to the goroutine that it starts.
use backupeer.Prelude.{ℕ, String, Bool, Option, none, some, List, Result, ok, err, ◌<>◌}
use backupeer.Connection as Connection
use backupeer.Connection.{Connection, ConnectionDatabase}
use backupeer.Storage.{ProviderService}
use backupeer.Backup.{Backup}
use backupeer.Backup.Repo as Repo
use backupeer.Backup.Service.{World}

-- The arguments of StartBackup.
pub record Order : Type 0 where
  pub connection_id : String
  pub database_id : String
  pub backup_type : String
  pub schedule_id : Option String
  pub storage_provider_id : Option String
  pub notif_target_ids : List String
  pub notify_on_success : Bool
  pub notify_on_failure : Bool

abbrev pub fresh_backup : Order → Backup
fresh_backup o = record {
  id = "";
  connection_id = o.connection_id;
  database_id = o.database_id;
  schedule_id = o.schedule_id;
  backup_type = o.backup_type;
  status = "running";
  storage_path = "";
  storage_provider_id = o.storage_provider_id;
  size_bytes = none;
  encrypted_size_bytes = none;
  encryption_algo = "";
  encryption_key_id = none;
  checksum = "";
  encrypted_checksum = "";
  verified_at = none;
  verify_status = "pending";
  duration_ms = none;
  log_output = "";
  started_at = none;
  completed_at = none;
  notif_target_ids = o.notif_target_ids;
  notify_on_success = o.notify_on_success;
  notify_on_failure = o.notify_on_failure;
  created_at = 0;
}

-- What StartBackup hands to its goroutine.
pub record Job : Type 0 where
  pub backup : Backup
  pub conn : Connection
  pub db : ConnectionDatabase

module _ {PS : ProviderService} where
  create_record :
      String → ℕ → Order → Connection → ConnectionDatabase → World PS → Result Job × World PS
  create_record id now o conn db w =
      let done = Repo.create id now (fresh_backup o) w.backups in
      (
        elim done.0 [
          | err e ↦ err ("create backup record: " <> e)
          | ok b ↦ ok (record { backup = b; conn = conn; db = db })
        ],
        record w { backups = done.1 },
      )

  with_database : String → ℕ → Order → Connection → World PS → Result Job × World PS
  unfolding create_record
  with_database id now o conn w =
      let found = Connection.get_database o.database_id w.dbs in
      let w' = record w { dbs = found.1 } in
      elim found.0 [
        | err e ↦ (err ("get database: " <> e), w')
        | ok none ↦ (err "database not found", w')
        | ok (some db) ↦ create_record id now o conn db w'
      ]

  -- StartBackup: on success the job is started in the background (`Run.run_backup`).
  unfoldable pub start_backup : String → ℕ → Order → World PS → Result Job × World PS
  unfolding with_database
  start_backup id now o w =
      let found = Connection.get_by_id o.connection_id w.conns in
      let w' = record w { conns = found.1 } in
      elim found.0 [
        | err e ↦ (err ("get connection: " <> e), w')
        | ok none ↦ (err "connection not found", w')
        | ok (some conn) ↦ with_database id now o conn w'
      ]
