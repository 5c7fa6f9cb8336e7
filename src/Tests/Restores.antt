-- ===== src/Tests/Restores.antt =====
-- The theorems on internal/restore/service.go at concrete data.
use backupeer.Prelude.{◌≡◌, refl, true, false, none, some, [], ◌∷◌, ok}
use backupeer.Backup.Run.{run_backup}
use backupeer.Restore.Service.{World, Job, Steps, fresh_restore, prepare, run_restore}
use backupeer.Restore.Outcome.{Ends, run_restore-Ends, prepare-run_backup}
use backupeer.Tests.{one_provider, minio, conn, table}
use backupeer.Tests.Backups.{config, job, marshal, scan_int, pipeline, world, succeeded}

abbrev restore_job : Job
restore_job = record {
  restore = record (fresh_restore "b1" "") { id = "r1"; created_at = 300 };
  backup = succeeded;
  conn = conn;
}

abbrev restore_world : World one_provider
restore_world = record {
  restores = table (restore_job.restore ∷ []);
  backups = table (succeeded ∷ []);
  conns = table (conn ∷ []);
  provs = some minio;
  restored = [];
}

abbrev steps : Steps
steps = record {
  started = 300;
  finished = 400;
  download = ok (1 ∷ 2 ∷ []);
  decrypt = λ bytes. ok bytes;
  decompress = λ bytes. ok (0 ∷ bytes);
  tool = λ _ _. none;
}

run_restore-Ends_example :
    Ends one_provider true steps restore_job restore_world
      (run_restore true steps restore_job restore_world).0
      (run_restore true steps restore_job restore_world).1
run_restore-Ends_example = run_restore-Ends true steps restore_job restore_world

prepare-run_backup_example :
    prepare true steps (run_backup marshal scan_int config job pipeline world).0
    ≡ prepare false steps (run_backup marshal scan_int config job pipeline world).0
prepare-run_backup_example =
    prepare-run_backup marshal scan_int config job pipeline world true steps refl refl
