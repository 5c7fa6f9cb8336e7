-- ===== src/Schedule/Retention/Counts.antt =====
-- How many backups of a schedule the steps of a scheduled run leave: EnforceRetention and runBackup
-- of internal/backup/service.go.
use backupeer.Prelude.{
  ℕ, ◌+◌, ◌≤◌, ◌<◌, ◌≡◌, refl, sym, ap, String, Bool, not, List, [], ◌∷◌, ◌&&◌, arith, filter,
  filter-filter, filter-append, take, drop, take-append-drop, length, length-drop, number,
  number-append, number-filter, Result-cases, inl, inr, subst,
}
use backupeer.Table.{Table, update_where}
use backupeer.Table.Laws.{exec_keeps}
use backupeer.Storage.{ProviderService}
use backupeer.Backup.{Backup}
use backupeer.Backup.Repo as Repo
use backupeer.Backup.Service.{World, Config, Metadata}
use backupeer.Backup.Start.{Job}
use backupeer.Backup.Run.{Pipeline, run_backup}
use backupeer.Backup.Run.Outcome.{run_backup-Ends}
use backupeer.Backup.Manage.{retain}
use backupeer.Backup.Manage.Retention.{
  survives, victims, restored-delete_each, is_copy, is_restored, retain_calm, copies, surplus,
  survives_self, number-filter-by_age, HasDistinctIds,
}
use backupeer.Backup.Manage.Retention.Newest.{retained}

abbrev pub is_unrestored : List String → Backup → Bool
is_unrestored restored b = not (is_restored restored b)

abbrev pub is_unrestored_copy : String → String → List String → Backup → Bool
is_unrestored_copy schedule_id backup_type restored b =
    is_copy schedule_id backup_type b && is_unrestored restored b

-- EnforceRetention

pub restored-retain :
    {PS : ProviderService} (schedule_id backup_type : String) (keep : ℕ) (w : World PS)
    → (retain schedule_id backup_type keep w).restored ≡ w.restored
unfolding retain
restored-retain schedule_id backup_type keep w =
    let old = Repo.list_oldest_by_backup_type schedule_id backup_type keep w.backups in
    elim (Result-cases old.0) [
      | inl (bs, e) ↦
          let rest = restored-delete_each bs (record w { backups = old.1 }) in
          ground (arith, e, rest)
      | inr (x, e) ↦ ground (arith, e)
    ]

pub retain-HasDistinctIds :
    {PS : ProviderService} (schedule_id backup_type : String) (keep : ℕ) (w : World PS)
    → w.backups.faults ≡ []
    → HasDistinctIds w.backups.rows
    → HasDistinctIds (retain schedule_id backup_type keep w).backups.rows
unfolding HasDistinctIds
retain-HasDistinctIds schedule_id backup_type keep w calm distinct id =
    let live = survives w.restored (victims schedule_id backup_type keep w.backups.rows) in
    let fewer = number-filter (Repo.has_id id) live w.backups.rows in
    let one = distinct id in
    rw (retain_calm schedule_id backup_type keep w calm).1 (omega (arith, fewer, one))

none_unrestored :
    (restored : List String) (bs : List Backup)
    → number (is_unrestored restored) (filter (is_restored restored) bs) ≡ 0
none_unrestored restored [] = refl
none_unrestored restored (b ∷ bs) = let ih = none_unrestored restored bs in ground (arith, ih)

number-length : (p : Backup → Bool) (bs : List Backup) → number p bs ≤ length bs
number-length p [] = omega arith
number-length p (b ∷ bs) = let ih = number-length p bs in ground (arith, ih)

-- Of a list whose first part is deleted at most the rest is left, but for the restored.
cut_bound :
    (restored : List String) (k : ℕ) (cs : List Backup)
    → number (is_unrestored restored) (filter (survives restored (take k cs)) cs)
      ≤ length (drop k cs)
cut_bound restored k cs =
    let p = is_unrestored restored in
    let live = survives restored (take k cs) in
    let whole = ap (λ r. number p (filter live r)) (take-append-drop k cs) in
    let parts = ap (number p) (filter-append live (take k cs) (drop k cs)) in
    let sum = number-append p (filter live (take k cs)) (filter live (drop k cs)) in
    let head = survives_self restored (take k cs) (take k cs) p (λ id e. e) in
    let none = none_unrestored restored (take k cs) in
    let tail = number-filter p live (drop k cs) in
    let all = number-length p (drop k cs) in omega (arith, whole, parts, sum, head, none, tail, all)

count-filter :
    (schedule_id backup_type : String) (restored : List String) (rows : List Backup)
    → number (is_unrestored_copy schedule_id backup_type restored) rows
      ≡ number (is_unrestored restored) (filter (is_copy schedule_id backup_type) rows)
count-filter schedule_id backup_type restored rows =
    sym (ap length (filter-filter (is_unrestored restored) (is_copy schedule_id backup_type) rows))

-- A round leaves as many as its limit at most.
pub few-retain :
    {PS : ProviderService} (schedule_id backup_type : String) (keep : ℕ) (w : World PS)
    → w.backups.faults ≡ []
    → 0 < keep
    → number
        (is_unrestored_copy schedule_id backup_type w.restored)
        (retain schedule_id backup_type keep w).backups.rows
      ≤ keep
few-retain schedule_id backup_type keep w calm pos =
    let p = is_unrestored w.restored in
    let is_kept = is_copy schedule_id backup_type in
    let rows = w.backups.rows in
    let k = surplus schedule_id backup_type keep rows in
    let cs = copies schedule_id backup_type rows in
    let count =
      count-filter schedule_id backup_type w.restored
        (retain schedule_id backup_type keep w).backups.rows in
    let after = retained schedule_id backup_type keep w p is_kept calm pos in
    let sorted = number-filter-by_age p (survives w.restored (take k cs)) (filter is_kept rows) in
    let cut = cut_bound w.restored k cs in
    let size = length-drop k cs in omega (arith, count, after, sorted, cut, size)

-- A round adds no row.
pub few-retain_other :
    {PS : ProviderService} (schedule_id backup_type other : String) (restored : List String)
    (keep : ℕ) (w : World PS)
    → w.backups.faults ≡ []
    → number
        (is_unrestored_copy schedule_id other restored)
        (retain schedule_id backup_type keep w).backups.rows
      ≤ number (is_unrestored_copy schedule_id other restored) w.backups.rows
few-retain_other schedule_id backup_type other restored keep w calm =
    rw (retain_calm schedule_id backup_type keep w calm).1 (
      number-filter (is_unrestored_copy schedule_id other restored)
        (survives w.restored (victims schedule_id backup_type keep w.backups.rows)) w.backups.rows)

-- runBackup

number-update_where :
    (p : Backup → Bool) (b : Backup) (rows : List Backup)
    → number p (update_where (Repo.has_id b.id) (Repo.updated b) rows)
      ≤ number p rows + number (Repo.has_id b.id) rows
number-update_where p b [] = omega arith
number-update_where p b (r ∷ rs) = let ih = number-update_where p b rs in ground (arith, ih)

number-update :
    (p : Backup → Bool) (b : Backup) (t : Table Backup)
    → HasDistinctIds t.rows
    → number p (Repo.update b t).1.rows ≤ number p t.rows + 1
unfolding Repo.update Repo.update_row HasDistinctIds
number-update p b t distinct =
    exec_keeps (λ rows. number p rows ≤ number p t.rows + 1) (Repo.update_row b) t (omega arith)
      λ rows e.
        let same : update_where (Repo.has_id b.id) (Repo.updated b) t.rows ≡ rows = ground arith in
        let one = distinct b.id in
        let more = number-update_where p b t.rows in rw⁻¹ same (omega (arith, one, more))

-- A run adds one backup to those that a test finds at most.
pub few-run_backup :
    {PS : ProviderService} (marshal : Metadata → String) (scan_int : String → ℕ) (cfg : Config)
    (j : Job) (p : Pipeline) (w : World PS) (test : Backup → Bool)
    → HasDistinctIds w.backups.rows
    → number test (run_backup marshal scan_int cfg j p w).1.backups.rows
      ≤ number test w.backups.rows + 1
few-run_backup marshal scan_int cfg j p w test distinct =
    let ends = run_backup-Ends marshal scan_int cfg j p w in
    let (t, same, written) = ends.persisted in
    let more =
      number-update test (run_backup marshal scan_int cfg j p w).0 t
        (subst (λ (rows : List Backup). HasDistinctIds rows) (sym same) distinct) in
    let equal = ap (number test) same in
    let final = ap (λ (u : Table Backup). number test u.rows) written in
    omega (arith, more, equal, final)
