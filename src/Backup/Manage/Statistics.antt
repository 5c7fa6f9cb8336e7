-- ===== src/Backup/Manage/Statistics.antt =====
-- What the statistics of internal/backup/service.go count.
use backupeer.Prelude.{
  ℕ, suc, ◌+◌, ◌≡◌, ◌∙◌, ap, refl, sym, String, Bool, true, List, [], ◌∷◌, ok, arith, filter,
  length, map, number, number_all, number-map, take_all, length-map, ◌≤◌, ◌==◌, eq_iff,
  if◌then◌else◌,
}
use backupeer.Storage.{ProviderService}
use backupeer.Backup.{Backup}
use backupeer.Backup.Repo as Repo
use backupeer.Backup.Repo.Calm as Calm
use backupeer.Backup.Repo.Sorting.{number-newest_first}
use backupeer.Backup.Service.{World}
use backupeer.Backup.Manage.{Stats, count_one, count_of, add_backup, add_all, no_stats, stats}

-- Counting one key raises its count by one and leaves the others.
count_of-count_one :
    (k j : String) (m : List (String × ℕ))
    → count_of j (count_one k m) ≡ (if k == j then suc (count_of j m) else count_of j m)
unfolding count_of count_one
count_of-count_one k j [] = ground (arith, eq_iff k j)
count_of-count_one k j ((i, n) ∷ m) =
    let ih = count_of-count_one k j m in ground (arith, ih, eq_iff k j, eq_iff i k, eq_iff i j)

abbrev pub has_status : String → Backup → Bool
has_status k b = b.status == k

abbrev pub has_type : String → Backup → Bool
has_type k b = b.backup_type == k

status_count :
    (k : String) (bs : List Backup) (s : Stats)
    → count_of k (add_all bs s).by_status
      ≡ length (filter (has_status k) bs) + count_of k s.by_status
unfolding add_all add_backup
status_count k [] s = ground arith
status_count k (b ∷ bs) s =
    let ih = status_count k bs (add_backup b s) in
    let one = count_of-count_one b.status k s.by_status in ground (arith, ih, one)

type_count :
    (k : String) (bs : List Backup) (s : Stats)
    → count_of k (add_all bs s).by_type ≡ length (filter (has_type k) bs) + count_of k s.by_type
unfolding add_all add_backup
type_count k [] s = ground arith
type_count k (b ∷ bs) s =
    let ih = type_count k bs (add_backup b s) in
    let one = count_of-count_one b.backup_type k s.by_type in ground (arith, ih, one)

total_count :
    (bs : List Backup) (s : Stats) → (add_all bs s).total_backups ≡ length bs + s.total_backups
unfolding add_all add_backup
total_count [] s = ground arith
total_count (b ∷ bs) s = let ih = total_count bs (add_backup b s) in ground (arith, ih)

-- What `Stats` asks the repository for.
abbrev listing : List Backup → List Backup
listing rows = map Repo.scanned (Repo.newest_first rows)

length-newest_first : (rows : List Backup) → length (Repo.newest_first rows) ≡ length rows
length-newest_first rows =
    sym (number_all (Repo.newest_first rows))
    ∙ number-newest_first (λ _. true) rows
    ∙ number_all rows

selects_all : (rows : List Backup) → filter (Repo.selects "" "") rows ≡ rows
unfolding Repo.selects
selects_all [] = refl
selects_all (b ∷ bs) = ap (λ r. b ∷ r) (selects_all bs)

list_calm :
    {PS : ProviderService} (w : World PS)
    → w.backups.faults ≡ []
    → length w.backups.rows ≤ 10000
    → (stats w).0 ≡ ok (add_all (listing w.backups.rows) no_stats)
unfolding stats
list_calm w calm few =
    rw
      (
        Calm.list_calm "" "" 10000 0 w.backups calm,
        stats,
        selects_all w.backups.rows,
        take_all 10000 (Repo.newest_first w.backups.rows)
            (omega (arith, length-newest_first w.backups.rows)),
      )
      refl

number-listing :
    (p : Backup → Bool) (same : (b : Backup) → p (Repo.scanned b) ≡ p b) (rows : List Backup)
    → number p (listing rows) ≡ number p rows
number-listing p same rows =
    number-map p Repo.scanned same (Repo.newest_first rows) ∙ number-newest_first p rows

-- On a table of at most 10000 backups whose next SELECT does not fail, `Stats` answers, the total is
-- the number of rows, and each count by status or by type is the number of rows with that status or
-- type, 0 where there is none.
pub stats-counts :
    {PS : ProviderService} (w : World PS)
    → w.backups.faults ≡ []
    → length w.backups.rows ≤ 10000
    → (s : Stats) × ((stats w).0 ≡ ok s)
      × (s.total_backups ≡ length w.backups.rows)
      × ((k : String) → count_of k s.by_status ≡ number (has_status k) w.backups.rows)
      × ((k : String) → count_of k s.by_type ≡ number (has_type k) w.backups.rows)
unfolding count_of
stats-counts w calm few =
    let rows = w.backups.rows in
    (
      add_all (listing rows) no_stats,
      list_calm w calm few,
      omega (
        arith,
        total_count (listing rows) no_stats,
        length-map Repo.scanned (Repo.newest_first rows),
        length-newest_first rows,
      ),
      (λ k. omega (
        arith,
        status_count k (listing rows) no_stats,
        number-listing (has_status k) (λ b. refl) rows,
      )),
      (λ k. omega (
        arith,
        type_count k (listing rows) no_stats,
        number-listing (has_type k) (λ b. refl) rows,
      )),
    )
