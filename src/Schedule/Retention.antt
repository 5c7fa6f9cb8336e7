-- ===== src/Schedule/Retention.antt =====
-- A scheduled run of internal/schedule/scheduler.go and the limits of its retention. The scheduler
-- enforces the retention as soon as StartBackup returns, while the backup itself runs beside it.
pub mod Counts
pub mod Started
use backupeer.Prelude.{
  ℕ, ◌+◌, ◌≤◌, ◌<◌, ◌≡◌, ◌∙◌, refl, ap, String, Bool, true, List, [], arith, Bool-cases, inl, inr,
  ltb, leb, if◌then◌else◌, number,
}
use backupeer.Storage.{ProviderService}
use backupeer.Backup.{Backup}
use backupeer.Backup.Repo as Repo
use backupeer.Backup.Service.{World, Config, Metadata}
use backupeer.Backup.Start.{Job, start_backup}
use backupeer.Backup.Run.{Pipeline, run_backup}
use backupeer.Backup.Manage.{retain, enforce_retention}
use backupeer.Backup.Manage.Retention.{retain_calm, HasDistinctIds}
use backupeer.Schedule.{Schedule}
use backupeer.Schedule.Scheduler.{order_of, execute_backup}
use backupeer.Schedule.Retention.Counts.{
  is_unrestored_copy, retain-HasDistinctIds, restored-retain, few-retain, few-retain_other,
  few-run_backup,
}
use backupeer.Schedule.Retention.Started.{
  start_backup-calm, start_backup-HasDistinctIds, restored-start_backup,
}

-- How many successful backups a schedule has of a type that no restore refers to.
abbrev pub kept : String → String → List String → List Backup → ℕ
kept schedule_id backup_type restored rows =
    number (is_unrestored_copy schedule_id backup_type restored) rows

-- No more than the limit and as many as the second number says, where a limit of 0 is none.
abbrev pub is_within : ℕ → ℕ → ℕ → Bool
is_within keep more n = if ltb 0 keep then leb n (keep + more) else true

-- A round leaves its type within its limit.
kept-retain :
    {PS : ProviderService} (schedule_id backup_type : String) (keep : ℕ) (w : World PS)
    (restored : List String)
    → w.restored ≡ restored
    → w.backups.faults ≡ []
    → is_within keep 0
        (kept schedule_id backup_type restored (retain schedule_id backup_type keep w).backups.rows)
      ≡ true
kept-retain schedule_id backup_type keep w restored same calm =
    rw⁻¹ same (elim (Bool-cases (ltb 0 keep)) [
      | inl limited ↦
          let pos : 0 < keep = ground arith in
          let few = few-retain schedule_id backup_type keep w calm pos in
          ground (arith, few, limited)
      | inr free ↦ rw free refl
    ])

-- What a scheduled run leaves, on a database that answers and whose backups have distinct
-- identifiers, of the successful backups of the schedule that no restore refers to. Once the
-- retention is over, whether the backup could be started or not: of the full ones no more than
-- their limit, and of the incremental ones no more than theirs. Once a job has run after that: of
-- each no more than one above the limit. A limit of 0 is none.
pub is_within-execute_backup :
    {PS : ProviderService} (marshal : Metadata → String) (scan_int : String → ℕ) (cfg : Config)
    (id : String) (now : ℕ) (sch : Schedule) (j : Job) (p : Pipeline) (w : World PS)
    → w.backups.faults ≡ []
    → HasDistinctIds w.backups.rows
    → (is_within sch.retention_full 0
          (kept sch.id "full" w.restored (execute_backup id now sch w).1.backups.rows)
        ≡ true)
      × (is_within sch.retention_incr 0
            (kept sch.id "incremental" w.restored (execute_backup id now sch w).1.backups.rows)
          ≡ true)
      × (is_within sch.retention_full 1 (
            kept sch.id "full" w.restored
              (run_backup marshal scan_int cfg j p (execute_backup id now sch w).1).1.backups.rows)
          ≡ true)
      × (is_within sch.retention_incr 1 (
            kept sch.id "incremental" w.restored
              (run_backup marshal scan_int cfg j p (execute_backup id now sch w).1).1.backups.rows)
          ≡ true)
unfolding execute_backup enforce_retention
is_within-execute_backup marshal scan_int cfg id now sch j p w calm distinct =
    let begun = (start_backup id now (order_of sch) w).1 in
    let first = retain sch.id "full" sch.retention_full begun in
    let last = retain sch.id "incremental" sch.retention_incr first in
    let ready = start_backup-calm id now (order_of sch) w calm in
    let still = (retain_calm sch.id "full" sch.retention_full begun ready).0 in
    let one = restored-start_backup id now (order_of sch) w in
    let two = restored-retain sch.id "full" sch.retention_full begun ∙ one in
    let unique = retain-HasDistinctIds sch.id "incremental" sch.retention_incr first still (
      retain-HasDistinctIds sch.id "full" sch.retention_full begun ready
        (start_backup-HasDistinctIds id now (order_of sch) w distinct)) in
    let full = kept-retain sch.id "full" sch.retention_full begun w.restored one ready in
    let fewer =
      few-retain_other sch.id "incremental" "full" w.restored sch.retention_incr first still in
    let incremental =
      kept-retain sch.id "incremental" sch.retention_incr first w.restored two still in
    let more_full =
      few-run_backup marshal scan_int cfg j p last (is_unrestored_copy sch.id "full" w.restored)
        unique in
    let more_incremental =
      few-run_backup marshal scan_int cfg j p last
        (is_unrestored_copy sch.id "incremental" w.restored) unique in
    (
      ground (arith, full, fewer),
      incremental,
      ground (arith, full, fewer, more_full),
      ground (arith, incremental, more_incremental),
    )
