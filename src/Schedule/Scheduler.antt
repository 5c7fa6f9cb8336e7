-- ===== src/Schedule/Scheduler.antt =====
-- internal/schedule/scheduler.go: the schedules that the cron engine runs.
use backupeer.Prelude.{
  ℕ, ◌≡◌, String, Option, none, some, List, [], ◌∷◌, Result, ok, err, ◌<>◌, ◌==◌, eqb, map_get,
  map_set, map_delete, length, if◌then◌else◌,
}
use backupeer.Table.{Table}
use backupeer.Storage.{ProviderService}
use backupeer.Backup.Service.{World}
use backupeer.Backup.Start.{Order, Job, start_backup}
use backupeer.Backup.Manage.{enforce_retention}
use backupeer.Schedule.{Schedule}
use backupeer.Schedule.Repo as Repo

-- `cron.Cron` of github.com/robfig/cron, as far as the scheduler calls it; `job` is what an entry
-- runs, where there is one.
pub record Cron : Type 1 where
  pub State : Type 0
  pub add_func : String → Schedule → State → Result ℕ × State
  pub remove : ℕ → State → State
  pub start : State → State
  pub job : ℕ → State → Option Schedule

-- What the documentation of the engine promises of its entries.
pub record IsCron (C : Cron) : Type 0 where
  pub add_fresh :
      (expr : String) (s : Schedule) (c : C.State) (i : ℕ)
      → (C.add_func expr s c).0 ≡ ok i
      → C.job i c ≡ none
  pub job-add_func :
      (expr : String) (s : Schedule) (c : C.State) (i k : ℕ)
      → (C.add_func expr s c).0 ≡ ok i
      → C.job k (C.add_func expr s c).1 ≡ (if eqb i k then some s else C.job k c)
  pub job-add_func_failed :
      (expr : String) (s : Schedule) (c : C.State) (e : String) (k : ℕ)
      → (C.add_func expr s c).0 ≡ err e
      → C.job k (C.add_func expr s c).1 ≡ C.job k c
  pub job-remove :
      (i k : ℕ) (c : C.State) → C.job k (C.remove i c) ≡ (if eqb i k then none else C.job k c)
  pub job-start : (k : ℕ) (c : C.State) → C.job k (C.start c) ≡ C.job k c

-- `Scheduler`: the engine and the entry of each schedule.
pub record Scheduler (C : Cron) : Type 0 where
  pub cron : C.State
  pub entries : List (String × ℕ)

module _ {C : Cron} where
  unfoldable pub remove_job : String → Scheduler C → Scheduler C
  remove_job id s = elim (map_get id s.entries) [
    | none ↦ s
    | some i ↦ record { cron = C.remove i s.cron; entries = map_delete id s.entries }
  ]

  -- `addJob`, which does not look for an entry of the schedule.
  unfoldable pub register : Schedule → Scheduler C → Option String × Scheduler C
  register sch s =
      let added = C.add_func sch.cron_expr sch s.cron in
      elim added.0 [
        | err e ↦ (some ("add cron job: " <> e), record s { cron = added.1 })
        | ok i ↦ (none, record { cron = added.1; entries = map_set sch.id i s.entries })
      ]

  -- `AddJob`
  unfoldable pub add_job : Schedule → Scheduler C → Option String × Scheduler C
  unfolding remove_job register
  add_job sch s =
      let s' = remove_job sch.id s in if sch.enabled then register sch s' else (none, s')

  -- The loop of Start: a schedule that cannot be registered is reported and left out.
  unfoldable pub register_all : List Schedule → Scheduler C → Scheduler C
  unfolding register
  register_all [] s = s
  register_all (sch ∷ rest) s = register_all rest (if sch.enabled then (register sch s).1 else s)

  unfoldable pub start :
      Table Schedule → Scheduler C → Option String × (Table Schedule × Scheduler C)
  unfolding register_all
  start t s =
      let answer = Repo.list t in
      elim answer.0 [
        | err e ↦ (some ("list schedules: " <> e), (answer.1, s))
        | ok schedules ↦
            let s' = register_all schedules s in
            (none, (answer.1, record s' { cron = C.start s'.cron }))
      ]

  unfoldable pub active_entries : Scheduler C → ℕ
  active_entries s = length s.entries

-- The call of StartBackup that a schedule makes.
abbrev pub order_of : Schedule → Order
order_of sch = record {
  connection_id = sch.connection_id;
  database_id = sch.database_id;
  backup_type = sch.backup_type;
  schedule_id = some sch.id;
  storage_provider_id =
      if sch.storage_provider_id == "" then none else some sch.storage_provider_id;
  notif_target_ids = sch.notif_target_ids;
  notify_on_success = sch.notify_on_success;
  notify_on_failure = sch.notify_on_failure;
}

-- `executeBackup`: the retention is enforced whether the backup could be started or not; the job
-- that StartBackup hands out runs beside it.
unfoldable pub execute_backup :
    {PS : ProviderService} → String → ℕ → Schedule → World PS → Result Job × World PS
execute_backup id now sch w =
    let started = start_backup id now (order_of sch) w in
    (started.0, enforce_retention sch.id sch.retention_full sch.retention_incr started.1)

-- `RunNow`: the schedule that is handed to `execute_backup` in the background.
unfoldable pub run_now : String → Table Schedule → Result Schedule × Table Schedule
run_now id t =
    let found = Repo.get_by_id id t in
    (
      elim found.0 [ err e ↦ err e | ok none ↦ err "schedule not found" | ok (some sch) ↦ ok sch ],
      found.1,
    )
