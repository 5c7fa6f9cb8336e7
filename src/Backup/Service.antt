-- ===== src/Backup/Service.antt =====
-- internal/backup/service.go: the service, what it shares with the rest of the program, and how a
-- run ends (StartBackup, resolveProvider, completeBackup, failBackup).
use backupeer.Prelude.{
  ℕ, ◌-◌, String, Bool, Option, none, some, List, [], ◌∷◌, ◌++◌, ◌&&◌, Result, ok, err, ◌<>◌, ◌==◌,
  wrap, if◌then◌else◌,
}
use backupeer.Table.{Table}
use backupeer.Connection as Connection
use backupeer.Connection.{Connection, ConnectionDatabase}
use backupeer.Storage.{Provider, ProviderService}
use backupeer.Backup.{Backup}
use backupeer.Backup.Repo as Repo

-- `IncrementalSchedule` of internal/backup/incremental.go
pub record IncrementalSchedule : Type 0 where
  pub id : String
  pub connection_id : String
  pub database_id : String
  pub backup_type : String
  pub storage_provider_id : String
  pub encryption_enabled : Bool

-- `map[string]string`
abbrev pub Metadata : Type 0
Metadata = List (String × String)

-- The interface `IncrementalEngine`: the tools themselves are not in the repository.
pub record IncrementalEngine : Type 0 where
  pub db_type : String
  pub backup_full : IncrementalSchedule → Connection → String → Result Metadata
  pub backup_incremental : IncrementalSchedule → Connection → String → Result Metadata

-- `NotifyBackupResult`, one call
pub record Notice : Type 0 where
  pub targets : List String
  pub backup_id : String
  pub db_name : String
  pub db_type : String
  pub status : String
  pub size_bytes : ℕ
  pub duration_ms : ℕ
  pub log_tail : String

-- The optional parts of `Service` that are set at start-up.
pub record Config : Type 0 where
  pub has_encryption : Bool
  pub has_notifier : Bool
  pub engines : Option (List IncrementalEngine)

-- What the service reads and changes: the tables, the providers' state, the notifications sent and
-- the objects whose deletion was asked of the object storage. `restored` lists the backups that rows of
-- `restores` refer to.
pub record World (PS : ProviderService) : Type 0 where
  pub backups : Table Backup
  pub conns : Table Connection
  pub dbs : Table ConnectionDatabase
  pub provs : PS.State
  pub sent : List Notice
  pub deleted : List (Provider × String)
  pub restored : List String

-- `int64PtrToInt64`
abbrev pub int64_or_zero : Option ℕ → ℕ
int64_or_zero none = 0
int64_or_zero (some n) = n

-- `err == nil && x != nil`
abbrev pub name_of {ℓ} : {A : Type ℓ} → (A → String) → Result (Option A) → String
name_of f (ok (some a)) = f a
name_of f _ = ""

abbrev pub provider_or : String → Result (Option Provider) → Result Provider
provider_or missing (err e) = err e
provider_or missing (ok none) = err missing
provider_or missing (ok (some p)) = ok p

-- An explicit provider that is missing is an error; only no provider falls back to the default.
abbrev pub explicit_id : Option String → String
explicit_id none = ""
explicit_id (some id) = id

abbrev pub success_notice : Backup → Connection → ConnectionDatabase → String → ℕ → Notice
success_notice b conn db log duration = record {
  targets = b.notif_target_ids;
  backup_id = b.id;
  db_name = db.db_name;
  db_type = conn.db_type;
  status = "success";
  size_bytes = int64_or_zero b.size_bytes;
  duration_ms = duration;
  log_tail = log;
}

module _ {PS : ProviderService} where
  abbrev pub failure_notice : Backup → String → World PS → Notice
  failure_notice b log w = record {
    targets = b.notif_target_ids;
    backup_id = b.id;
    db_name =
        if b.database_id == ""
        then ""
        else name_of ConnectionDatabase.db_name (Connection.get_database b.database_id w.dbs).0;
    db_type =
        if b.connection_id == ""
        then ""
        else name_of Connection.db_type (Connection.get_by_id b.connection_id w.conns).0;
    status = "failed";
    size_bytes = int64_or_zero b.size_bytes;
    duration_ms = int64_or_zero b.duration_ms;
    log_tail = log;
  }

  -- The two lookups of failBackup, made only for a failure that is notified.
  unfoldable pub notify_failure : Backup → String → World PS → World PS
  notify_failure b log w = record w {
    conns =
        if b.connection_id == "" then w.conns else (Connection.get_by_id b.connection_id w.conns).1;
    dbs = if b.database_id == "" then w.dbs else (Connection.get_database b.database_id w.dbs).1;
    sent = w.sent ++ (failure_notice b log w ∷ []);
  }

  -- An error of the Update is only printed.
  unfoldable pub fail_backup : Config → ℕ → Backup → String → World PS → Backup × World PS
  unfolding notify_failure
  fail_backup cfg now b log w =
      let b' = record b { completed_at = some now; status = "failed"; log_output = log } in
      let w' = record w { backups = (Repo.update b' w.backups).1 } in
      (b', if cfg.has_notifier && b.notify_on_failure then notify_failure b' log w' else w')

  unfoldable pub complete_backup :
      Config
      → ℕ
      → ℕ
      → Backup
      → Connection
      → ConnectionDatabase
      → String
      → String
      → World PS
      → Backup × World PS
  complete_backup cfg now start b conn db log provider_id w =
      let b' = record b {
        duration_ms = some (now - start);
        completed_at = some now;
        status = "success";
        log_output = log;
        storage_provider_id = some provider_id;
      } in
      let w' = record w { backups = (Repo.update b' w.backups).1 } in
      (
        b',
        if cfg.has_notifier && b.notify_on_success
            then record w' { sent = w.sent ++ (success_notice b conn db log (now - start) ∷ []) }
            else w',
      )

  unfoldable pub resolve_provider : Option String → World PS → Result Provider × World PS
  resolve_provider provider_id w =
      let id = explicit_id provider_id in
      let named = PS.get_decrypted id w.provs in
      let fallback = PS.get_default w.provs in
      if id == ""
      then (
        provider_or "no storage provider configured — add one in Settings > Storage"
            (wrap "get default provider: " fallback.0),
        record w { provs = fallback.1 },
      )
      else (
        provider_or ("storage provider " <> id <> " not found")
            (wrap ("get storage provider " <> id <> ": ") named.0),
        record w { provs = named.1 },
      )
