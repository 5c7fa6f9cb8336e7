-- ===== src/Backup/Run/Outcome.antt =====
-- How a run of internal/backup/service.go ends.
use backupeer.Prelude.{
  ℕ, ◌-◌, ◌≡◌, ◌↔◌, ◌⊎◌, inl, inr, refl, sym, ap, ◌∙◌, String, Bool, true, false, Option, none,
  some, List, [], ◌∷◌, ◌++◌, ◌&&◌, Result, ok, err, ◌==◌, arith, if◌then◌else◌, Bool-cases,
  Option-cases, Result-cases, eq_iff,
}
use mathlib.Core.List.{append-nil}
use backupeer.Table.{Table}
use backupeer.Table.Laws.{rows-query}
use backupeer.Connection.{Connection, ConnectionDatabase}
use backupeer.Storage.{Provider, ProviderService}
use backupeer.Backup.{Backup}
use backupeer.Backup.Repo as Repo
use backupeer.Backup.Service.{
  Config, World, Notice, Metadata, IncrementalEngine, fail_backup, complete_backup,
  resolve_provider, failure_notice, success_notice,
}
use backupeer.Backup.Start.{Job}
use backupeer.Backup.Run.{
  Pipeline, full_failure, run_full_backup, run_incremental_backup, run_backup, with_registry,
  finish_incremental, find_engine,
}

-- Whether the result is to be notified.
abbrev pub wants : Config → Backup → Bool
wants cfg b =
    cfg.has_notifier && (if b.status == "success" then b.notify_on_success else b.notify_on_failure)

abbrev is_some : Option String → Bool
is_some none = false
is_some (some e) = true

list_oldest_rows :
    (id type : String) (keep : ℕ) (t : Table Backup)
    → (Repo.list_oldest_by_backup_type id type keep t).1.rows ≡ t.rows
unfolding Repo.list_oldest_by_backup_type
list_oldest_rows id type keep t = rows-query _ t

module _ {PS : ProviderService} where
  -- One run from the world `w`: it ends as a success or a failure at the time it is finished, sends
  -- one notice of that result or none, and writes its final record once, over the rows it found.
  pub record Ends (cfg : Config) (id : String) (finished : ℕ) (w : World PS) (r : Backup × World PS)
      : Type 0 where
    pub ended : (r.0.status ≡ "success") ⊎ (r.0.status ≡ "failed")
    pub completed : r.0.completed_at ≡ some finished
    pub same_id : r.0.id ≡ id
    pub notified :
        (n : Notice) × (r.1.sent ≡ w.sent ++ (if wants cfg r.0 then n ∷ [] else []))
        × (n.status ≡ r.0.status)
        × (n.targets ≡ r.0.notif_target_ids)
        × (n.backup_id ≡ id)
    pub persisted :
        (t : Table Backup) × (t.rows ≡ w.backups.rows) × (r.1.backups ≡ (Repo.update r.0 t).1)

  fail_backup-Ends :
      (cfg : Config) (now : ℕ) (b : Backup) (log : String) (w w' : World PS)
      → w'.sent ≡ w.sent
      → w'.backups.rows ≡ w.backups.rows
      → Ends cfg b.id now w (fail_backup cfg now b log w')
  unfolding fail_backup
  fail_backup-Ends cfg now b log w w' s r =
      let b' = record b { completed_at = some now; status = "failed"; log_output = log } in
      let u = record w' { backups = (Repo.update b' w'.backups).1 } in
      elim (Bool-cases (cfg.has_notifier && b.notify_on_failure)) [
        | inl e ↦ rw e (record {
          ended = inr refl;
          completed = refl;
          same_id = refl;
          notified = (failure_notice b' log u, rw (e, s), refl, refl, refl);
          persisted = (w'.backups, r, refl);
        })
        | inr e ↦ rw e (record {
          ended = inr refl;
          completed = refl;
          same_id = refl;
          notified =
              (failure_notice b' log u, rw (e, s) (sym (append-nil w.sent)), refl, refl, refl);
          persisted = (w'.backups, r, refl);
        })
      ]

  complete_backup-Ends :
      (cfg : Config) (now start : ℕ) (b : Backup) (conn : Connection) (db : ConnectionDatabase)
      (log prov : String) (w w' : World PS)
      → w'.sent ≡ w.sent
      → w'.backups.rows ≡ w.backups.rows
      → Ends cfg b.id now w (complete_backup cfg now start b conn db log prov w')
  unfolding complete_backup
  complete_backup-Ends cfg now start b conn db log prov w w' s r =
      let n = success_notice b conn db log (now - start) in
      elim (Bool-cases (cfg.has_notifier && b.notify_on_success)) [
        | inl e ↦ rw e (record {
          ended = inl refl;
          completed = refl;
          same_id = refl;
          notified = (n, rw (e, s), refl, refl, refl);
          persisted = (w'.backups, r, refl);
        })
        | inr e ↦ rw e (record {
          ended = inl refl;
          completed = refl;
          same_id = refl;
          notified = (n, rw (e, s) (sym (append-nil w.sent)), refl, refl, refl);
          persisted = (w'.backups, r, refl);
        })
      ]

  run_full_backup-Ends :
      (cfg : Config) (j : Job) (prov : Provider) (p : Pipeline) (w w' : World PS)
      → w'.sent ≡ w.sent
      → w'.backups.rows ≡ w.backups.rows
      → Ends cfg j.backup.id p.finished w (run_full_backup cfg j prov p w')
  unfolding run_full_backup
  run_full_backup-Ends cfg j prov p w w' s r = elim (Option-cases (PS.create_client prov)) [
    | inr (e, h) ↦ rw (h, run_full_backup) (fail_backup-Ends cfg p.finished j.backup _ w w' s r)
    | inl h ↦ elim (Option-cases (full_failure cfg j p)) [
      | inr (log, k) ↦ rw (h, k, run_full_backup) (fail_backup-Ends cfg p.finished _ log w w' s r)
      | inl k ↦
          rw (h, k, run_full_backup)
            (complete_backup-Ends cfg p.finished p.started _ j.conn j.db _ prov.id w w' s r)
    ]
  ]

  finish_incremental-Ends :
      (marshal : Metadata → String) (scan_int : String → ℕ) (cfg : Config) (j : Job)
      (prov : Provider) (p : Pipeline) (engine : IncrementalEngine) (log : String)
      (answer : Result Metadata) (w w' : World PS)
      → w'.sent ≡ w.sent
      → w'.backups.rows ≡ w.backups.rows
      → Ends cfg j.backup.id p.finished w
          (finish_incremental marshal scan_int cfg j prov p engine log answer w')
  unfolding finish_incremental
  finish_incremental-Ends marshal scan_int cfg j prov p engine log (err e) w w' s r =
      fail_backup-Ends cfg p.finished j.backup _ w w' s r
  finish_incremental-Ends marshal scan_int cfg j prov p engine log (ok m) w w' s r =
      complete_backup-Ends cfg p.finished p.started _ j.conn j.db _ prov.id w w' s r

  with_registry-Ends :
      (marshal : Metadata → String) (scan_int : String → ℕ) (cfg : Config) (j : Job)
      (prov : Provider) (p : Pipeline) (registry : Option (List IncrementalEngine))
      (w w' : World PS)
      → w'.sent ≡ w.sent
      → w'.backups.rows ≡ w.backups.rows
      → Ends cfg j.backup.id p.finished w (with_registry marshal scan_int cfg j prov p registry w')
  unfolding with_registry
  with_registry-Ends marshal scan_int cfg j prov p none w w' s r =
      fail_backup-Ends cfg p.finished j.backup _ w w' s r
  with_registry-Ends marshal scan_int cfg j prov p (some engines) w w' s r =
      elim (Option-cases (find_engine j.conn.db_type engines)) [
        | inl k ↦ rw (k, with_registry) (fail_backup-Ends cfg p.finished j.backup _ w w' s r)
        | inr (engine, k) ↦
            rw (k, with_registry)
              (finish_incremental-Ends marshal scan_int cfg j prov p engine _ _ w _ s
                (list_oldest_rows "" "incremental" 1 w'.backups ∙ r))
      ]

  resolve_provider_sent :
      (id : Option String) (w : World PS)
      → ((resolve_provider id w).1.sent ≡ w.sent) × ((resolve_provider id w).1.backups ≡ w.backups)
  unfolding resolve_provider
  resolve_provider_sent id w = ground arith

  -- A run that holds its slot always ends: as a success or a failure, completed at the time that
  -- the pipeline finished; it sends exactly one notice of that result to the backup's targets if a
  -- notifier is set and the backup asks for this result, and none otherwise; and it writes its final
  -- record by one UPDATE over rows that it has not changed before.
  pub run_backup-Ends :
      (marshal : Metadata → String) (scan_int : String → ℕ) (cfg : Config) (j : Job) (p : Pipeline)
      (w : World PS)
      → Ends cfg j.backup.id p.finished w (run_backup marshal scan_int cfg j p w)
  unfolding run_backup run_incremental_backup
  run_backup-Ends marshal scan_int cfg j p w =
      let (s, r) = resolve_provider_sent j.backup.storage_provider_id w in
      let w' = (resolve_provider j.backup.storage_provider_id w).1 in
      let rows = ap (λ (t : Table Backup). t.rows) r in
      elim (Result-cases (resolve_provider j.backup.storage_provider_id w).0) [
        | inr (e, h) ↦ rw (h, run_backup) (fail_backup-Ends cfg p.finished _ _ w w' s rows)
        | inl (prov, h) ↦ elim (Bool-cases (j.backup.backup_type == "incremental")) [
          | inl k ↦
              rw (h, k, run_backup)
                (with_registry-Ends marshal scan_int cfg _ prov p cfg.engines w w' s rows)
          | inr k ↦ rw (h, k, run_backup) (run_full_backup-Ends cfg _ prov p w w' s rows)
        ]
      ]

module _ (PS : ProviderService) where
  -- Every stage of a full backup that can fail.
  pub record AllStagesPass (cfg : Config) (prov : Provider) (p : Pipeline) : Type 0 where
    pub client_made : PS.create_client prov ≡ none
    pub piped : p.stdout_pipe ≡ none
    pub started : p.dump_start ≡ none
    pub uploaded : p.upload ≡ none
    pub encrypted : (cfg.has_encryption && is_some p.encrypt_init) ≡ false
    pub copied : p.copy ≡ none
    pub dumped : p.dump_wait ≡ none

  -- A full backup is recorded as a success exactly when every stage passes: the client, the pipe,
  -- the dump's start, the upload, the encryption if it is on, the compression and the dump's end.
  pub run_full_backup_success_iff :
      (cfg : Config) (j : Job) (prov : Provider) (p : Pipeline) (w : World PS)
      → ((run_full_backup {PS = PS} cfg j prov p w).0.status ≡ "success") ↔ AllStagesPass cfg prov p
  unfolding run_full_backup fail_backup complete_backup
  run_full_backup_success_iff cfg j prov p w =
      (λ h. ground (arith, eq_iff "failed" "success"), λ a. ground arith)
