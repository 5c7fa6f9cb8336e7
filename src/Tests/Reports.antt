-- ===== src/Tests/Reports.antt =====
-- The theorems on the reports of internal/repository/postgres/backup.go, the engines of
-- internal/backup and the handlers of internal/connection and the restore tools at concrete data.
use backupeer.Prelude.{
  ℕ, Option, ◌≡◌, ◌↔◌, ◌/◌, ◌+◌, ◌*◌, ltb, refl, String, true, false, none, some, List, [], ◌∷◌, ok,
  err, filter, length, number, ◌==◌,
}
use backupeer.Table.{find}
use backupeer.Connection.{Connection}
use backupeer.Connection.Service as Connections
use backupeer.Connection.Handler as Live
use backupeer.Connection.Handler.Passwords as Passwords
use backupeer.Connection.Handler.Health.{probe_of, translated, check_health-collect_health}
use backupeer.Monitoring.{collect_health}
use backupeer.Backup.{Backup}
use backupeer.Backup.Reports.{BackupTrend, null_error, list_trends, list_stale_connections}
use backupeer.Backup.Reports.Trends.{IsAscending, entry, aggregate, on_day, list_trends_calm}
use backupeer.Backup.Reports.Stale.{lacks_backup, list_stale_connections_fails_iff}
use backupeer.Backup.Service.{IncrementalSchedule}
use backupeer.Backup.Engines.{Stream}
use backupeer.Backup.Engines.XtraBackup.{Host, run_xtra_backup}
use backupeer.Backup.Engines.XtraBackup.Completed.{
  IsComplete, streamed_by, described, run_xtra_backup_success_iff,
}
use backupeer.Backup.Dump.{build_dump_cmd}
use backupeer.Restore.Tools.{pg_restore_command}
use backupeer.Restore.Tools.Database.{named_database, named_database-restore_iff}
use backupeer.Tests.{minio, conn, database, table}
use backupeer.Tests.Backups.{fresh, succeeded}

abbrev day_of : ℕ → ℕ
day_of t = t / 86400000

abbrev runs : List Backup
runs = succeeded ∷ record fresh { id = "b2"; status = "failed" } ∷ []

list_trends_calm_example :
    (ts : List BackupTrend) × ((list_trends day_of 500 30 (table runs)).0 ≡ ok ts)
    × IsAscending ts
    × ((d : ℕ)
        → let rows =
            filter (on_day day_of d) (filter (λ b. ltb 500 (b.created_at + 30 * 86400000)) runs) in
          (entry d ts ≡ aggregate d rows)
          × ((entry d ts).total_backups ≡ length rows)
          × ((entry d ts).success_count ≡ number (λ b. b.status == "success") rows)
          × ((entry d ts).failed_count ≡ number (λ b. b.status == "failed") rows))
list_trends_calm_example = list_trends_calm day_of 500 30 (table runs) refl

list_stale_connections_fails_iff_example :
    ((list_stale_connections 500 24 (conn ∷ []) (database ∷ []) (table [])).0 ≡ err null_error)
    ↔ (lacks_backup (conn ∷ []) (database ∷ []) [] ≡ true)
list_stale_connections_fails_iff_example =
    list_stale_connections_fails_iff 500 24 (conn ∷ []) (database ∷ []) (table []) refl

abbrev printed : String
printed = "The latest check point (for incremental): '2784560'\n"

abbrev good_stream : Stream
good_stream = record {
  stdout_pipe = none;
  start = none;
  upload = none;
  copy = none;
  wait = none;
  stderr = printed;
}

abbrev host : Host
host = record {
  get_decrypted = λ id. ok (some minio);
  new_s3_client = λ c. none;
  look_path = λ program. none;
  stream = λ program args config key. good_stream;
}

abbrev weekly : IncrementalSchedule
weekly = record {
  id = "s1";
  connection_id = "c1";
  database_id = "d1";
  backup_type = "full";
  storage_provider_id = "p1";
  encryption_enabled = false;
}

run_xtra_backup_success_iff_example :
    (run_xtra_backup host weekly conn "b1" "" ≡ ok (described host weekly conn "b1" "" minio)) ↔ (
      IsComplete (streamed_by host conn "b1" "" minio)
      × (described host weekly conn "b1" "" minio ≡ described host weekly conn "b1" "" minio))
run_xtra_backup_success_iff_example =
    run_xtra_backup_success_iff host weekly conn "b1" "" minio
      (described host weekly conn "b1" "" minio) refl refl

conn_row : find (Connections.has_id "c1") (conn ∷ []) ≡ some conn
conn_row = refl

handle_update-handle_get_example :
    ((Live.handle_get "c1" (table (conn ∷ []))).0.body ≡ ok (Live.without_password conn))
    × (find
          (Connections.has_id "c1")
          (Live.handle_update "c1" 900
            (some (Live.without_password conn))
            (table (conn ∷ []))).1.rows
        ≡ some (record conn { password = ""; updated_at = 900 }))
handle_update-handle_get_example =
    Passwords.handle_update-handle_get "c1" 900 conn (conn ∷ []) refl conn_row

abbrev live_server : Live.Server
live_server = record {
  opens = λ dsn. none;
  ping = none;
  elapsed = 1500;
  active = ok 4;
  processes = ok 4;
}

abbrev maria : Connection
maria = record conn { db_type = "mariadb"; ssl_mode = "prefer" }

check_health-collect_health_example :
    (Live.check_health 900 live_server (translated maria)).status
    ≡ (collect_health 900 "c1" (probe_of live_server 4 maria)).status
check_health-collect_health_example = check_health-collect_health 900 4 live_server maria

abbrev shop : String
shop = "shop"

abbrev shop_server : Connection
shop_server = record conn { db_type = "postgresql" }

abbrev no_program : String → Option String
no_program _ = some "not found"

named_database-restore_iff_example :
    (named_database (build_dump_cmd no_program shop_server shop).args ≡ some shop)
    × ((named_database (pg_restore_command shop_server).args
          ≡ named_database (build_dump_cmd no_program shop_server shop).args)
        ↔ (shop ≡ "postgres"))
named_database-restore_iff_example = named_database-restore_iff no_program shop_server shop refl
