-- ===== src/Backup/Run/Incremental.antt =====
-- When the incremental path of internal/backup/service.go makes an incremental backup.
use backupeer.Prelude.{
  ℕ, ◌≡◌, refl, String, Option, none, some, map, Option-cases, List, [], ◌∷◌, false, Result, arith,
  All, filter, ◌==◌, Bool-cases, inl, inr,
}
use backupeer.Table.{Table, query}
use backupeer.Connection.{Connection}
use backupeer.Storage.{Provider, ProviderService}
use backupeer.Backup.{Backup}
use backupeer.Backup.Repo as Repo
use backupeer.Backup.Repo.{of_schedule, is_kept_copy, by_age, all_but}
use backupeer.Backup.Service.{
  Config, World, Metadata, IncrementalEngine, IncrementalSchedule, fail_backup, complete_backup,
}
use backupeer.Backup.Start.{Job}
use backupeer.Backup.Run.{
  Pipeline, run_incremental_backup, with_engine, with_registry, find_engine, some_backups,
}

-- No row belongs to a schedule whose identifier is the empty text: schedules get a UUID, and a
-- backup without one has NULL.
abbrev pub HasNoUnnamedSchedule : List Backup → Type 0
HasNoUnnamedSchedule = All (λ b. of_schedule "" b.schedule_id ≡ false)

no_kept_copies :
    (rows : List Backup)
    → HasNoUnnamedSchedule rows
    → filter (is_kept_copy "" "incremental") rows ≡ []
unfolding is_kept_copy
no_kept_copies [] h = refl
no_kept_copies (b ∷ rows) h = ground (arith, no_kept_copies rows h.1)

no_oldest :
    (rows : List Backup) → HasNoUnnamedSchedule rows → Repo.oldest "" "incremental" 1 rows ≡ []
unfolding Repo.oldest
no_oldest rows h = rw (no_kept_copies rows h)

no_previous :
    (t : Table Backup)
    → HasNoUnnamedSchedule t.rows
    → some_backups (Repo.list_oldest_by_backup_type "" "incremental" 1 t).0 ≡ false
unfolding Repo.list_oldest_by_backup_type query
no_previous t h = ground (arith, no_oldest t.rows h)

-- A BackupIncremental for each engine.
abbrev pub Method : Type 0
Method = IncrementalEngine → IncrementalSchedule → Connection → String → Result Metadata

-- The engine with another incremental method.
abbrev pub with_incremental : Method → IncrementalEngine → IncrementalEngine
with_incremental f e = record e { backup_incremental = f e }

abbrev replaced : Method → Option IncrementalEngine → Option IncrementalEngine
replaced f none = none
replaced f (some e) = some (with_incremental f e)

find_engine-map :
    (f : Method) (db_type : String) (engines : List IncrementalEngine)
    → find_engine db_type (map (with_incremental f) engines)
      ≡ replaced f (find_engine db_type engines)
unfolding find_engine
find_engine-map f db_type [] = refl
find_engine-map f db_type (e ∷ es) =
    let ih = find_engine-map f db_type es in
    elim (Option-cases (find_engine db_type es)) [
      | inr (later, found) ↦ rw (ih, found) refl
      | inl missing ↦
          rw (ih, missing)
            (elim (Bool-cases (e.db_type == db_type)) [
              | inl same ↦ rw same refl
              | inr other ↦ rw other refl
            ])
    ]

with_engine_is_full :
    (PS : ProviderService) (marshal : Metadata → String) (scan_int : String → ℕ) (cfg : Config)
    (engines others : Option (List IncrementalEngine)) (engine : IncrementalEngine) (f : Method)
    (j : Job) (prov : Provider) (p : Pipeline) (w : World PS)
    → HasNoUnnamedSchedule w.backups.rows
    → with_engine marshal scan_int (record cfg { engines = engines }) j prov p engine w
      ≡ with_engine marshal scan_int
          (record cfg { engines = others })
          j
          prov
          p
          (with_incremental f engine)
          w
unfolding with_engine fail_backup complete_backup
with_engine_is_full PS marshal scan_int cfg engines others engine f j prov p w h =
    rw (no_previous w.backups h)

-- A run of type "incremental", with any registry of engines, never calls BackupIncremental: it
-- looks for a previous backup under the empty schedule, so in a table without such rows the result
-- is the same when the method of every engine is replaced by any other.
pub run_incremental_backup_is_full :
    (PS : ProviderService) (marshal : Metadata → String) (scan_int : String → ℕ) (cfg : Config)
    (engines : List IncrementalEngine) (f : Method) (j : Job) (prov : Provider) (p : Pipeline)
    (w : World PS)
    → HasNoUnnamedSchedule w.backups.rows
    → run_incremental_backup marshal scan_int (record cfg { engines = some engines }) j prov p w
      ≡ run_incremental_backup marshal scan_int
          (record cfg { engines = some (map (with_incremental f) engines) })
          j
          prov
          p
          w
unfolding run_incremental_backup fail_backup complete_backup
run_incremental_backup_is_full PS marshal scan_int cfg engines f j prov p w h =
    let same = find_engine-map f j.conn.db_type engines in
    elim (Option-cases (find_engine j.conn.db_type engines)) [
      | inl missing ↦
          rw (missing, run_incremental_backup, with_registry)
            (rw (same, missing, run_incremental_backup, with_registry) refl)
      | inr (engine, found) ↦
          rw (found, run_incremental_backup, with_registry)
            (rw (same, found, run_incremental_backup, with_registry)
              (with_engine_is_full PS marshal scan_int cfg (some engines)
                (some (map (with_incremental f) engines)) engine f j prov p w h))
    ]
