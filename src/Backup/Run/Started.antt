-- ===== src/Backup/Run/Started.antt =====
-- The start time of a run: runBackup of internal/backup/service.go against the columns of
-- internal/repository/postgres/backup.go.
use backupeer.Prelude.{ℕ, ◌≡◌, ◌∙◌, refl, ap, String, List, [], ◌∷◌, arith, map, subst}
use backupeer.Table.{Table, update_where}
use backupeer.Table.Laws.{exec_keeps}
use backupeer.Storage.{ProviderService}
use backupeer.Backup.{Backup}
use backupeer.Backup.Repo as Repo
use backupeer.Backup.Repo.{has_id, updated, update_row}
use backupeer.Backup.Service.{Config, World, Metadata}
use backupeer.Backup.Start.{Job}
use backupeer.Backup.Run.{Pipeline, run_backup}
use backupeer.Backup.Run.Outcome.{run_backup-Ends}

started_times :
    (b : Backup) (rows : List Backup)
    → map Backup.started_at (update_where (has_id b.id) (updated b) rows)
      ≡ map Backup.started_at rows
started_times b [] = refl
started_times b (r ∷ rows) = ground (arith, started_times b rows)

started_times-update :
    (b : Backup) (t : Table Backup)
    → map Backup.started_at (Repo.update b t).1.rows ≡ map Backup.started_at t.rows
unfolding Repo.update
started_times-update b t =
    exec_keeps (λ rows. map Backup.started_at rows ≡ map Backup.started_at t.rows) (update_row b) t
      refl
      λ rows e.
        let inverted : update_where (has_id b.id) (updated b) t.rows ≡ rows = ground arith in
        subst (λ (rs : List Backup). map Backup.started_at rs ≡ map Backup.started_at t.rows)
          inverted (started_times b t.rows)

-- A run sets StartedAt on the record in memory, but the table keeps the start times that it had:
-- the record was inserted before, and the UPDATE does not name the column.
pub started_at-run_backup :
    (PS : ProviderService) (marshal : Metadata → String) (scan_int : String → ℕ) (cfg : Config)
    (j : Job) (p : Pipeline) (w : World PS)
    → map Backup.started_at (run_backup marshal scan_int cfg j p w).1.backups.rows
      ≡ map Backup.started_at w.backups.rows
started_at-run_backup PS marshal scan_int cfg j p w =
    let ends = run_backup-Ends marshal scan_int cfg j p w in
    let (t, same, written) = ends.persisted in
    ap (λ (u : Table Backup). map Backup.started_at u.rows) written
    ∙ (started_times-update _ t ∙ ap (λ (rows : List Backup). map Backup.started_at rows) same)
