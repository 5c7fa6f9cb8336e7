-- ===== src/Tests/Schedules.antt =====
-- The theorems on internal/schedule at concrete data.
use backupeer.Prelude.{ℕ, ◌≡◌, refl, true, some, [], ◌∷◌, ok, map_get, arith, eq_iff}
use backupeer.Table.{find}
use backupeer.Schedule.{Schedule}
use backupeer.Schedule.Repo as Repo
use backupeer.Schedule.Scheduler.{Scheduler, start, add_job, execute_backup}
use backupeer.Schedule.Sync.{InSync, Reachable, HasDistinctIds, Reachable-InSync}
use backupeer.Schedule.Handler.{Api, handle_update}
use backupeer.Schedule.Handler.Update.{handle_update-stored_and_run}
use backupeer.Backup.{Backup}
use backupeer.Backup.Service.{World}
use backupeer.Backup.Start.{Job}
use backupeer.Backup.Run.{run_backup}
use backupeer.Backup.Manage.Retention as Retention
use backupeer.Schedule.Retention.{kept, is_within, is_within-execute_backup}
use backupeer.Tests.Backups.{config, marshal, scan_int, pipeline, job, fresh, world, succeeded}
use backupeer.Tests.{one_provider, list_cron, list_cron-IsCron, nightly, table}

nightly_listed : (Repo.list (table (nightly ∷ []))).0 ≡ ok (nightly ∷ [])
unfolding Repo.list backupeer.Table.query Repo.newest_first
nightly_listed = refl

nightly-HasDistinctIds : HasDistinctIds (nightly ∷ [])
unfolding HasDistinctIds
nightly-HasDistinctIds = (refl, tt)

abbrev at_start : Scheduler list_cron
at_start = (start {C = list_cron} (table (nightly ∷ [])) (record { cron = []; entries = [] })).1.1

abbrev weekly : Schedule
weekly = record nightly { id = "s2"; cron_expr = "0 3 * * 0" }

Reachable-InSync_example : InSync (add_job weekly at_start).1
Reachable-InSync_example = Reachable-InSync list_cron-IsCron (add_job weekly at_start).1 (
    Reachable.added at_start weekly (
      Reachable.started (table (nightly ∷ [])) [] (nightly ∷ []) (λ k. refl) nightly_listed
        nightly-HasDistinctIds))

abbrev api : Api list_cron
api = record { schedules = table (nightly ∷ []); scheduler = record { cron = []; entries = [] } }

abbrev body : Schedule
body = record nightly { id = ""; database_id = "d2"; cron_expr = "30 4 * * *" }

updated_run : (handle_update "s1" (some body) api).0.status ≡ 200
unfolding handle_update backupeer.Schedule.Handler.update Repo.update backupeer.Table.exec add_job
updated_run = refl

handle_update-stored_and_run_example :
    (find (Repo.has_id "s1") (handle_update "s1" (some body) api).1.schedules.rows
      ≡ some (Repo.updated (record body { id = "s1" }) nightly))
    × ((i : ℕ) × (map_get "s1" (handle_update "s1" (some body) api).1.scheduler.entries ≡ some i)
        × (list_cron.job i (handle_update "s1" (some body) api).1.scheduler.cron
            ≡ some (record body { id = "s1" })))
handle_update-stored_and_run_example =
    handle_update-stored_and_run list_cron-IsCron "s1" body nightly api refl refl updated_run

abbrev second : Backup
second = record succeeded { id = "b2"; created_at = 200 }

-- A restore refers to the first of the two.
abbrev two_nights : World one_provider
two_nights = record world { backups = table (second ∷ succeeded ∷ []); restored = "b1" ∷ [] }

two_nights-HasDistinctIds : Retention.HasDistinctIds two_nights.backups.rows
unfolding Retention.HasDistinctIds
two_nights-HasDistinctIds id = ground (arith, eq_iff "b1" id, eq_iff "b2" id, eq_iff "b1" "b2")

abbrev last_only : Schedule
last_only = record nightly { retention_full = 1 }

abbrev third_job : Job
third_job = record job { backup = record fresh { id = "b3"; created_at = 300 } }

abbrev third_night : World one_provider
third_night = (execute_backup "b3" 300 last_only two_nights).1

is_within-execute_backup_example :
    (is_within 1 0 (kept "s1" "full" ("b1" ∷ []) third_night.backups.rows) ≡ true)
    × (is_within 30 0 (kept "s1" "incremental" ("b1" ∷ []) third_night.backups.rows) ≡ true)
    × (is_within 1 1 (
          kept "s1" "full"
            ("b1" ∷ [])
            (run_backup marshal scan_int config third_job pipeline third_night).1.backups.rows)
        ≡ true)
    × (is_within 30 1 (
          kept "s1" "incremental"
            ("b1" ∷ [])
            (run_backup marshal scan_int config third_job pipeline third_night).1.backups.rows)
        ≡ true)
is_within-execute_backup_example =
    is_within-execute_backup marshal scan_int config "b3" 300 last_only third_job pipeline
      two_nights refl two_nights-HasDistinctIds
