-- ===== src/Backup/Manage/Retention/Newest.antt =====
-- Which backups EnforceRetention of internal/backup/service.go keeps.
use backupeer.Prelude.{
  ℕ, ◌+◌, ◌≤◌, ◌<◌, ◌≡◌, ◌∙◌, refl, ap, String, Bool, not, ◌&&◌, is_one_of, List, [], arith, filter,
  filter-append, take, drop, take-append-drop, number, number-append, any-map,
}
use backupeer.Storage.{ProviderService}
use backupeer.Backup.{Backup}
use backupeer.Backup.Repo as Repo
use backupeer.Backup.Repo.Sorting.{number-by_age, by_age-IsOldestFirst, IsOldestFirst}
use backupeer.Backup.Service.{World}
use backupeer.Backup.Manage.{retain}
use backupeer.Backup.Manage.Retention.{
  survives, is_copy, is_restored, retain_calm, HasDistinctIds, copies, survives_rest, survives_self,
  filter_ext, filter_comm, number-filter-by_age, surplus, victims-copies, cut-IsDistinct,
}

-- The rows that a test finds among those that another test finds, after a round of retention.
pub retained :
    {PS : ProviderService} (schedule_id backup_type : String) (keep : ℕ) (w : World PS)
    (p q : Backup → Bool)
    → w.backups.faults ≡ []
    → 0 < keep
    → number p (filter q (retain schedule_id backup_type keep w).backups.rows)
      ≡ number p (
          filter
            (survives w.restored (
              take
                (surplus schedule_id backup_type keep w.backups.rows)
                (copies schedule_id backup_type w.backups.rows)))
            (filter q w.backups.rows))
retained schedule_id backup_type keep w p q calm pos =
    let rows = w.backups.rows in
    rw
      (
        (retain_calm schedule_id backup_type keep w calm).1,
        victims-copies schedule_id backup_type keep rows pos,
      )
      (ap (number p) (
        filter_comm q (survives w.restored _) rows
        ∙ filter_ext _ _ (filter q rows) (λ r.
          ap (λ a. not (a && not (is_one_of r.id w.restored)))
            (any-map (Repo.has_id r.id) Repo.scanned (λ b. refl) (take _ _)))))

-- Of a list whose first part is deleted the rest is left, and the restored ones of the first part.
cut_rest :
    (restored : List String) (k : ℕ) (cs : List Backup) (p : Backup → Bool)
    → ((id : String)
        → number (Repo.has_id id) (take k cs) + number (Repo.has_id id) (drop k cs) ≤ 1)
    → number p (filter (survives restored (take k cs)) cs)
      ≡ number p (filter (is_restored restored) (take k cs)) + number p (drop k cs)
cut_rest restored k cs p distinct =
    let live = survives restored (take k cs) in
    let whole = ap (λ r. number p (filter live r)) (take-append-drop k cs) in
    let parts = ap (number p) (filter-append live (take k cs) (drop k cs)) in
    let sum = number-append p (filter live (take k cs)) (filter live (drop k cs)) in
    let head = survives_self restored (take k cs) (take k cs) p (λ id e. e) in
    let tail = survives_rest restored (take k cs) (drop k cs) p distinct in
    omega (arith, whole, parts, sum, head, tail)

-- A round of retention with a positive limit, on a database that answers and whose backups have
-- distinct identifiers: let the copies be the rows with the schedule, the type and the status
-- success, oldest first, and the surplus as many of the first copies as there are more than the
-- limit. Afterwards every test finds as many of the copies as among those after the surplus and
-- those of the surplus that a restore refers to, which the database does not delete. Every test
-- finds as many of the other backups as before.
pub retain-keeps_newest :
    {PS : ProviderService} (schedule_id backup_type : String) (keep : ℕ) (w : World PS)
    → w.backups.faults ≡ []
    → HasDistinctIds w.backups.rows
    → 0 < keep
    → IsOldestFirst (copies schedule_id backup_type w.backups.rows)
      × ((p : Backup → Bool)
          → (number p (copies schedule_id backup_type w.backups.rows)
              ≡ number p (filter (is_copy schedule_id backup_type) w.backups.rows))
            × (number p (
                  filter
                    (is_copy schedule_id backup_type)
                    (retain schedule_id backup_type keep w).backups.rows)
                ≡ number p (
                    filter (is_restored w.restored) (
                      take
                        (surplus schedule_id backup_type keep w.backups.rows)
                        (copies schedule_id backup_type w.backups.rows)))
                  + number p (
                      drop
                        (surplus schedule_id backup_type keep w.backups.rows)
                        (copies schedule_id backup_type w.backups.rows)))
            × (number p (
                  filter
                    (λ b. not (is_copy schedule_id backup_type b))
                    (retain schedule_id backup_type keep w).backups.rows)
                ≡ number p (filter (λ b. not (is_copy schedule_id backup_type b)) w.backups.rows)))
retain-keeps_newest schedule_id backup_type keep w calm distinct pos =
    let rows = w.backups.rows in
    let kept = is_copy schedule_id backup_type in
    let k = surplus schedule_id backup_type keep rows in
    let cs = copies schedule_id backup_type rows in
    (
      by_age-IsOldestFirst (filter kept rows),
      (λ p. (
        number-by_age p (filter kept rows),
        retained schedule_id backup_type keep w p kept calm pos
            ∙ number-filter-by_age p (survives w.restored (take k cs)) (filter kept rows)
            ∙ cut_rest w.restored k cs p
                (λ id. (cut-IsDistinct schedule_id backup_type k rows id distinct).0),
        retained schedule_id backup_type keep w p (λ b. not (kept b)) calm pos
            ∙ survives_rest w.restored (take k cs) (filter (λ b. not (kept b)) rows) p
                (λ id. (cut-IsDistinct schedule_id backup_type k rows id distinct).1),
      )),
    )
