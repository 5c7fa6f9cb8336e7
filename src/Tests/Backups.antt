-- ===== src/Tests/Backups.antt =====
-- The theorems on the runs and verifications of internal/backup/service.go at concrete data.
use backupeer.Prelude.{
  ℕ, ◌≡◌, ◌≢◌, ◌↔◌, refl, String, true, none, some, List, [], map, ◌∷◌, ok, err,
}
use backupeer.Table.{Table}
use backupeer.Backup.{Backup}
use backupeer.Backup.Service.{Config, Metadata, IncrementalEngine, World, resolve_provider}
use backupeer.Backup.Start.{Job, fresh_backup, start_backup}
use backupeer.Backup.Run.{Pipeline, run_backup, run_full_backup, run_incremental_backup}
use backupeer.Backup.Run.Outcome.{Ends, AllStagesPass, run_backup-Ends, run_full_backup_success_iff}
use backupeer.Backup.Run.Incremental.{Method, with_incremental, run_incremental_backup_is_full}
use backupeer.Backup.Verify.{Check, run_verification, start_verification}
use backupeer.Backup.Verify.Start.{start_verification_refused}
use backupeer.Backup.Verify.Outcome.{IsVerified, run_verification_passed_iff}
use backupeer.Schedule.Scheduler.{order_of}
use backupeer.Tests.{one_provider, minio, conn, database, nightly, table}

abbrev pub config : Config
config = record { has_encryption = true; has_notifier = true; engines = none }

abbrev pub fresh : Backup
fresh = record (fresh_backup (order_of nightly)) { id = "b1"; created_at = 100 }

abbrev pub world : World one_provider
world = record {
  backups = table (fresh ∷ []);
  conns = table (conn ∷ []);
  dbs = table (database ∷ []);
  provs = some minio;
  sent = [];
  deleted = [];
  restored = [];
}

abbrev empty_world : World one_provider
empty_world = record world { backups = table [] }

abbrev pub job : Job
job = record { backup = fresh; conn = conn; db = database }

abbrev pub pipeline : Pipeline
pipeline = record {
  stdout_pipe = none;
  dump_start = none;
  encrypt_init = none;
  copy = none;
  upload = none;
  dump_wait = none;
  raw_size = 2000;
  digest = "abc";
  started = 110;
  stamp = "20260101-030000";
  finished = 150;
}

abbrev pub marshal : Metadata → String
marshal m = "{}"

abbrev pub scan_int : String → ℕ
scan_int s = 0

run_backup-Ends_example :
    Ends config "b1" 150 world (run_backup marshal scan_int config job pipeline world)
run_backup-Ends_example = run_backup-Ends marshal scan_int config job pipeline world

run_full_backup_success_iff_example :
    ((run_full_backup {PS = one_provider} config job minio pipeline world).0.status ≡ "success")
    ↔ AllStagesPass one_provider config minio pipeline
run_full_backup_success_iff_example =
    run_full_backup_success_iff one_provider config job minio pipeline world

abbrev engine : String → IncrementalEngine
engine db_type = record {
  db_type = db_type;
  backup_full = λ _ _ _. ok (("s3_key", "full") ∷ []);
  backup_incremental = λ _ _ _. ok (("s3_key", "incremental") ∷ []);
}

abbrev three_engines : List IncrementalEngine
three_engines = engine "postgresql" ∷ engine "mysql" ∷ engine "mariadb" ∷ []

abbrev refused : Method
refused = λ _ _ _ _. err "unused"

abbrev after_incremental : World one_provider
after_incremental = record world {
  backups =
      table ((record fresh { id = "b0"; backup_type = "incremental"; status = "success" }) ∷ []);
}

abbrev incremental_job : Job
incremental_job = record job { backup = record fresh { backup_type = "incremental" } }

run_incremental_backup_is_full_example :
    run_incremental_backup marshal scan_int
      (record config { engines = some three_engines })
      incremental_job
      minio
      pipeline
      after_incremental
    ≡ run_incremental_backup marshal scan_int
        (record config { engines = some (map (with_incremental refused) three_engines) })
        incremental_job
        minio
        pipeline
        after_incremental
run_incremental_backup_is_full_example =
    run_incremental_backup_is_full one_provider marshal scan_int config three_engines refused
      incremental_job minio pipeline after_incremental (refl, tt)

abbrev pub succeeded : Backup
succeeded = record fresh {
  status = "success";
  checksum = "abc";
  completed_at = some 150;
  storage_path = "backups/main/shop/b1-20260101-030000.gz";
}

abbrev pub later_world : World one_provider
later_world = record world { backups = table (succeeded ∷ []) }

start_verification_refused_example :
    ((start_verification "b1" later_world).0 ≢ ok succeeded)
    × ((start_verification "b1" later_world).1.backups.rows ≡ later_world.backups.rows)
start_verification_refused_example =
    start_verification_refused one_provider "b1" later_world succeeded

abbrev check : Check
check = record { download = none; decrypt_init = none; stream = none; digest = "abc"; now = 200 }

provider_found : (resolve_provider (some "p1") later_world).0 ≡ ok minio
unfolding resolve_provider
provider_found = refl

run_verification_passed_iff_example :
    ((run_verification config succeeded check later_world).0.verify_status ≡ "passed")
    ↔ IsVerified one_provider config minio succeeded check
run_verification_passed_iff_example =
    run_verification_passed_iff one_provider config succeeded check minio later_world refl
      provider_found

backup_started : (start_backup "b1" 100 (order_of nightly) empty_world).0 ≡ ok job
unfolding start_backup backupeer.Connection.get_by_id backupeer.Table.query
    backupeer.Connection.get_database backupeer.Backup.Repo.create backupeer.Table.exec
backup_started = refl
