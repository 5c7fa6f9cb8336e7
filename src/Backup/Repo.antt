-- ===== src/Backup/Repo.antt =====
-- internal/repository/postgres/backup.go. The constraints are the schema's of db.go beside it.
pub mod Calm
pub mod Sorting
use backupeer.Prelude.{
  ℕ, zero, suc, ◌-◌, String, Bool, true, false, not, Option, none, some, List, [], ◌∷◌, ◌++◌, ◌&&◌,
  ◌||◌, Result, ok, err, ◌<>◌, ◌==◌, wrap, wrap_error, is_one_of, any, filter, map, length, take,
  drop, leb, if◌then◌else◌,
}
use backupeer.Table.{
  Table, query, exec, find, update_where, delete_where, check_violation, foreign_key_violation,
  unique_violation,
}
use backupeer.Backup.{Backup}

abbrev pub has_id : String → Backup → Bool
has_id id b = b.id == id

-- CHECK(status IN ...), CHECK(verify_status IN ...) and CHECK(backup_type IN ...)
abbrev pub statuses : List String
statuses = "running" ∷ "success" ∷ "failed" ∷ "verifying" ∷ []

abbrev pub verify_statuses : List String
verify_statuses = "pending" ∷ "passed" ∷ "failed" ∷ []

abbrev pub backup_types : List String
backup_types = "full" ∷ "incremental" ∷ []

unfoldable pub is_admissible : Backup → Bool
is_admissible b = is_one_of b.status statuses && is_one_of b.verify_status verify_statuses

-- `log_output` is no column of the SELECTs.
abbrev pub scanned : Backup → Backup
scanned b = record b { log_output = "" }

-- `verified_at` and `log_output` are no columns of the INSERT.
abbrev pub inserted : Backup → Backup
inserted b = record b { verified_at = none; log_output = "" }

unfoldable pub insert_row : Backup → List Backup → Result (List Backup)
unfolding is_admissible
insert_row b rows =
    if any (has_id b.id) rows
    then err unique_violation
    else if is_admissible b && is_one_of b.backup_type backup_types
    then ok (rows ++ (inserted b ∷ []))
    else err check_violation

-- The columns that the UPDATE names.
abbrev pub updated : Backup → Backup → Backup
updated b row = record row {
  status = b.status;
  storage_path = b.storage_path;
  storage_provider_id = b.storage_provider_id;
  size_bytes = b.size_bytes;
  encrypted_size_bytes = b.encrypted_size_bytes;
  checksum = b.checksum;
  encrypted_checksum = b.encrypted_checksum;
  verified_at = b.verified_at;
  verify_status = b.verify_status;
  duration_ms = b.duration_ms;
  log_output = b.log_output;
  completed_at = b.completed_at;
}

-- A constraint is checked on the rows that the WHERE selects.
unfoldable pub update_row : Backup → List Backup → Result (List Backup)
unfolding is_admissible
update_row b rows =
    if is_admissible b || not (any (has_id b.id) rows)
    then ok (update_where (has_id b.id) (updated b) rows)
    else err check_violation

-- ORDER BY created_at ASC, rows of one time in insertion order
unfoldable pub insert_by_age : Backup → List Backup → List Backup
insert_by_age b [] = b ∷ []
insert_by_age b (x ∷ xs) =
    if leb b.created_at x.created_at then b ∷ x ∷ xs else x ∷ insert_by_age b xs

unfoldable pub by_age : List Backup → List Backup
unfolding insert_by_age
by_age [] = []
by_age (x ∷ xs) = insert_by_age x (by_age xs)

-- ORDER BY created_at DESC
unfoldable pub insert_newest_first : Backup → List Backup → List Backup
insert_newest_first b [] = b ∷ []
insert_newest_first b (x ∷ xs) =
    if leb x.created_at b.created_at then b ∷ x ∷ xs else x ∷ insert_newest_first b xs

unfoldable pub newest_first : List Backup → List Backup
unfolding insert_newest_first
newest_first [] = []
newest_first (x ∷ xs) = insert_newest_first x (newest_first xs)

-- The optional conditions on the connection and the database.
unfoldable pub selects : String → String → Backup → Bool
selects connection_id database_id b =
    (if connection_id == "" then true else b.connection_id == connection_id)
    && (if database_id == "" then true else b.database_id == database_id)

unfoldable pub list : String → String → ℕ → ℕ → Table Backup → Result (List Backup) × Table Backup
unfolding newest_first selects
list connection_id database_id limit offset t =
    let answer =
      query
        (λ rows. map scanned (
          take limit
            (drop offset (newest_first (filter (selects connection_id database_id) rows)))))
        t in
    (wrap "list backups: " answer.0, answer.1)

unfoldable pub count : String → String → Table Backup → Result ℕ × Table Backup
unfolding selects
count connection_id database_id t =
    let answer = query (λ rows. length (filter (selects connection_id database_id) rows)) t in
    (wrap "count backups: " answer.0, answer.1)

abbrev pub scanned_row : Option Backup → Option Backup
scanned_row none = none
scanned_row (some b) = some (scanned b)

unfoldable pub get_by_id : String → Table Backup → Result (Option Backup) × Table Backup
get_by_id id t =
    let answer = query (λ rows. scanned_row (find (has_id id) rows)) t in
    (wrap ("get backup " <> id <> ": ") answer.0, answer.1)

-- The identifier is `uuid.New()` and the time `time.Now()`; both are stored in `*b` too.
unfoldable pub create : String → ℕ → Backup → Table Backup → Result Backup × Table Backup
unfolding insert_row
create id now b t =
    let b' = record b { id = id; created_at = now } in
    let done = exec (insert_row b') t in
    (elim done.0 [ none ↦ ok b' | some e ↦ err ("create backup: " <> e) ], done.1)

unfoldable pub update : Backup → Table Backup → Option String × Table Backup
unfolding update_row
update b t =
    let done = exec (update_row b) t in
    (wrap_error ("update backup " <> b.id <> ": ") done.0, done.1)

-- `restores.backup_id REFERENCES backups(id)`, without ON DELETE: the database keeps a row that a
-- restore refers to. The first argument lists the identifiers that the restores refer to.
unfoldable pub delete_row : List String → String → List Backup → Result (List Backup)
delete_row restored id rows =
    if is_one_of id restored && any (has_id id) rows
    then err foreign_key_violation
    else ok (delete_where (has_id id) rows)

unfoldable pub delete : List String → String → Table Backup → Option String × Table Backup
unfolding delete_row
delete restored id t =
    let done = exec (delete_row restored id) t in
    (wrap_error ("delete backup " <> id <> ": ") done.0, done.1)

-- `schedule_id = $1`: NULL equals nothing.
abbrev pub of_schedule : String → Option String → Bool
of_schedule id none = false
of_schedule id (some s) = s == id

unfoldable pub is_kept_copy : String → String → Backup → Bool
is_kept_copy schedule_id backup_type b =
    of_schedule schedule_id b.schedule_id && (b.backup_type == backup_type && b.status == "success")

unfoldable pub list_by_schedule : String → Table Backup → Result (List Backup) × Table Backup
unfolding by_age
list_by_schedule schedule_id t =
    let answer =
      query
        (λ rows. map scanned (
          by_age
            (filter (λ b. of_schedule schedule_id b.schedule_id && b.status == "success") rows)))
        t in
    (wrap "list backups by schedule: " answer.0, answer.1)

-- `bs[:len(bs)-keepCount]`, or nothing
unfoldable pub all_but : ℕ → List Backup → List Backup
all_but keep bs = if leb (length bs) keep then [] else take (length bs - keep) bs

unfoldable pub oldest : String → String → ℕ → List Backup → List Backup
unfolding by_age is_kept_copy all_but
oldest schedule_id backup_type keep rows =
    all_but keep (map scanned (by_age (filter (is_kept_copy schedule_id backup_type) rows)))

unfoldable pub list_oldest_by_backup_type :
    String → String → ℕ → Table Backup → Result (List Backup) × Table Backup
unfolding oldest
list_oldest_by_backup_type schedule_id backup_type keep t =
    let answer = query (oldest schedule_id backup_type keep) t in
    (wrap "list oldest backups: " answer.0, answer.1)
