-- ===== src/Backup/Repo/Calm.antt =====
-- The statements of internal/repository/postgres/backup.go on a database that answers them.
use backupeer.Prelude.{
  ◌≡◌, ◌&&◌, not, any, is_one_of, true, false, Bool, Bool-cases, inl, inr, arith, refl, ap, wrap, ℕ,
  String, some, err, List, [], ◌∷◌, ok, map, filter, take, drop, ◌<>◌,
}
use backupeer.Table.{Table, find, delete_where, exec, foreign_key_violation}
use backupeer.Table.Laws.{query_calm}
use backupeer.Backup.{Backup}
use backupeer.Backup.Repo.{
  get_by_id, delete, delete_row, list, selects, newest_first, scanned, scanned_row, has_id,
  list_oldest_by_backup_type, oldest,
}

pub get_by_id_calm :
    (id : String) (t : Table Backup)
    → t.faults ≡ []
    → get_by_id id t ≡ (ok (scanned_row (find (has_id id) t.rows)), t)
unfolding get_by_id
get_by_id_calm id t calm =
    ap (λ a. (wrap ("get backup " <> id <> ": ") a.0, a.1))
      (query_calm (λ rows. scanned_row (find (has_id id) rows)) t calm)

-- The row with the identifier, unless a restore refers to it.
abbrev pub freed : List String → String → Backup → Bool
freed restored id b = has_id id b && not (is_one_of id restored)

freed_kept :
    (restored : List String) (id : String) (rows : List Backup)
    → is_one_of id restored ≡ true
    → delete_where (freed restored id) rows ≡ rows
freed_kept restored id [] h = refl
freed_kept restored id (b ∷ bs) h = let ih = freed_kept restored id bs h in ground (arith, ih, h)

freed_gone :
    (restored : List String) (id : String) (rows : List Backup)
    → (is_one_of id restored && any (has_id id) rows) ≡ false
    → delete_where (freed restored id) rows ≡ delete_where (has_id id) rows
freed_gone restored id [] h = refl
freed_gone restored id (b ∷ bs) h = let ih = freed_gone restored id bs in ground (arith, ih, h)

pub delete_calm :
    (restored : List String) (id : String) (t : Table Backup)
    → t.faults ≡ []
    → (delete restored id t).1
      ≡ record { faults = []; rows = delete_where (freed restored id) t.rows }
unfolding delete delete_row exec
delete_calm restored id t calm =
    elim (Bool-cases (is_one_of id restored && any (has_id id) t.rows)) [
      | inl kept ↦
          let refers : is_one_of id restored ≡ true = ground (arith, kept) in
          rw (freed_kept restored id t.rows refers) (ground (arith, kept, calm))
      | inr gone ↦ rw (freed_gone restored id t.rows gone) (ground (arith, gone, calm))
    ]

any-find :
    (p : Backup → Bool) (b : Backup) (rows : List Backup) → find p rows ≡ some b → any p rows ≡ true
any-find p b [] h = cc
any-find p b (r ∷ rs) h = let ih = any-find p b rs in ground (arith, ih, h)

refused :
    (restored : List String) (id : String) (rows : List Backup) (b : Backup)
    → find (has_id id) rows ≡ some b
    → is_one_of id restored ≡ true
    → delete_row restored id rows ≡ err foreign_key_violation
unfolding delete_row
refused restored id rows b found refers =
    let there = any-find (has_id id) b rows found in rw (refers, there) refl

-- A row that a restore refers to stays.
pub delete_refused :
    (restored : List String) (id : String) (b : Backup) (t : Table Backup)
    → t.faults ≡ []
    → find (has_id id) t.rows ≡ some b
    → is_one_of id restored ≡ true
    → delete restored id t ≡ (some (("delete backup " <> id <> ": ") <> foreign_key_violation), t)
unfolding delete exec
delete_refused restored id b t calm found refers =
    let e = refused restored id t.rows b found refers in ground (arith, calm, e)

abbrev pub page : String → String → ℕ → ℕ → List Backup → List Backup
page connection_id database_id limit offset rows =
    map scanned
      (take limit (drop offset (newest_first (filter (selects connection_id database_id) rows))))

pub list_calm :
    (connection_id database_id : String) (limit offset : ℕ) (t : Table Backup)
    → t.faults ≡ []
    → list connection_id database_id limit offset t
      ≡ (ok (page connection_id database_id limit offset t.rows), t)
unfolding list
list_calm connection_id database_id limit offset t calm =
    ap (λ a. (wrap "list backups: " a.0, a.1))
      (query_calm (page connection_id database_id limit offset) t calm)

pub list_oldest_calm :
    (schedule_id backup_type : String) (keep : ℕ) (t : Table Backup)
    → t.faults ≡ []
    → list_oldest_by_backup_type schedule_id backup_type keep t
      ≡ (ok (oldest schedule_id backup_type keep t.rows), t)
unfolding list_oldest_by_backup_type
list_oldest_calm schedule_id backup_type keep t calm =
    ap (λ a. (wrap "list oldest backups: " a.0, a.1))
      (query_calm (oldest schedule_id backup_type keep) t calm)
