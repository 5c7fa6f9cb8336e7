-- ===== src/Backup/Reports.antt =====
-- The reports of internal/repository/postgres/backup.go that internal/backup/service.go hands out:
-- ListTrends, ListSlowest and ListStaleConnections.
pub mod Trends
pub mod Stale
use backupeer.Prelude.{
  ℕ, zero, suc, ◌+◌, ◌-◌, ◌*◌, String, Bool, true, false, Option, none, some, List, [], ◌∷◌, ◌++◌,
  ◌&&◌, Result, ok, err, ◌<>◌, ◌==◌, wrap, map, filter, take, any, ltb, leb, eqb, if◌then◌else◌,
}
use backupeer.Table.{Table, query}
use backupeer.Connection.{Connection, ConnectionDatabase}
use backupeer.Backup.{Backup}
use backupeer.Backup.Repo.{scanned}

-- `BackupTrend`; the average is kept as its sum and its count.
pub record BackupTrend : Type 0 where
  pub day : ℕ
  pub total_backups : ℕ
  pub success_count : ℕ
  pub failed_count : ℕ
  pub duration_sum : ℕ
  pub duration_count : ℕ
  pub total_size_bytes : ℕ

abbrev pub day_length : ℕ
day_length = 86400000

abbrev pub or_zero : Option ℕ → ℕ
or_zero none = 0
or_zero (some n) = n

abbrev pub counted : Bool → ℕ
counted true = 1
counted false = 0

abbrev pub is_given : Option ℕ → Bool
is_given none = false
is_given (some n) = true

-- What a row adds to the aggregates of its day.
abbrev pub with_row : Backup → BackupTrend → BackupTrend
with_row b t = record t {
  total_backups = t.total_backups + 1;
  success_count = t.success_count + counted (b.status == "success");
  failed_count = t.failed_count + counted (b.status == "failed");
  duration_sum = t.duration_sum + or_zero b.duration_ms;
  duration_count = t.duration_count + counted (is_given b.duration_ms);
  total_size_bytes = t.total_size_bytes + or_zero b.size_bytes;
}

abbrev pub no_rows : ℕ → BackupTrend
no_rows day = record {
  day = day;
  total_backups = 0;
  success_count = 0;
  failed_count = 0;
  duration_sum = 0;
  duration_count = 0;
  total_size_bytes = 0;
}

-- GROUP BY day ORDER BY day ASC
unfoldable pub add_row : (BackupTrend → BackupTrend) → ℕ → List BackupTrend → List BackupTrend
add_row add day [] = add (no_rows day) ∷ []
add_row add day (t ∷ ts) =
    if eqb day t.day
    then add t ∷ ts
    else if ltb day t.day
    then add (no_rows day) ∷ t ∷ ts
    else t ∷ add_row add day ts

unfoldable pub trends_of : (ℕ → ℕ) → List Backup → List BackupTrend
unfolding add_row
trends_of day_of [] = []
trends_of day_of (b ∷ bs) = add_row (with_row b) (day_of b.created_at) (trends_of day_of bs)

-- created_at > NOW() - days
unfoldable pub is_recent : ℕ → ℕ → Backup → Bool
is_recent now days b = ltb now (b.created_at + days * day_length)

-- `day_of` is DATE, in the time zone of the database.
unfoldable pub list_trends :
    (ℕ → ℕ) → ℕ → ℕ → Table Backup → Result (List BackupTrend) × Table Backup
unfolding trends_of is_recent
list_trends day_of now days t =
    let answer = query (λ rows. trends_of day_of (filter (is_recent now days) rows)) t in
    (wrap "list trends: " answer.0, answer.1)

-- ORDER BY duration_ms DESC
unfoldable pub insert_slowest : Backup → List Backup → List Backup
insert_slowest b [] = b ∷ []
insert_slowest b (x ∷ xs) =
    if leb (or_zero x.duration_ms) (or_zero b.duration_ms)
    then b ∷ x ∷ xs
    else x ∷ insert_slowest b xs

unfoldable pub slowest_first : List Backup → List Backup
unfolding insert_slowest
slowest_first [] = []
slowest_first (x ∷ xs) = insert_slowest x (slowest_first xs)

abbrev pub is_timed_success : Backup → Bool
is_timed_success b = is_given b.duration_ms && b.status == "success"

unfoldable pub list_slowest : ℕ → Table Backup → Result (List Backup) × Table Backup
unfolding slowest_first
list_slowest limit t =
    let answer =
      query (λ rows. map scanned (take limit (slowest_first (filter is_timed_success rows)))) t in
    (wrap "list slowest: " answer.0, answer.1)

-- A row of the query for stale databases: MAX and the time since are NULL where there is no backup.
-- The time since is in milliseconds.
pub record StaleRow : Type 0 where
  pub conn : Connection
  pub db : ConnectionDatabase
  pub last : Option ℕ

abbrev pub hour : ℕ
hour = 3600000

abbrev pub later : Option ℕ → Option ℕ → Option ℕ
later none m = m
later (some t) none = some t
later (some t) (some u) = some (if leb t u then u else t)

-- The rows that the LEFT JOIN finds for a database.
abbrev pub is_success_of : Connection → ConnectionDatabase → Backup → Bool
is_success_of c d b = (b.connection_id == c.id && b.database_id == d.id) && b.status == "success"

-- MAX(b.completed_at)
unfoldable pub last_backup : List Backup → Option ℕ
last_backup [] = none
last_backup (b ∷ bs) = later b.completed_at (last_backup bs)

-- The two joins.
unfoldable pub rows_of_connection :
    Connection → List ConnectionDatabase → List Backup → List StaleRow
unfolding last_backup
rows_of_connection c [] bs = []
rows_of_connection c (d ∷ ds) bs =
    let rest = rows_of_connection c ds bs in
    if d.connection_id == c.id && d.is_selected
    then record { conn = c; db = d; last = last_backup (filter (is_success_of c d) bs) } ∷ rest
    else rest

unfoldable pub joined : List Connection → List ConnectionDatabase → List Backup → List StaleRow
unfolding rows_of_connection
joined [] ds bs = []
joined (c ∷ cs) ds bs = rows_of_connection c ds bs ++ joined cs ds bs

-- HAVING
unfoldable pub is_stale : ℕ → ℕ → StaleRow → Bool
is_stale now hours r = elim r.last [ none ↦ true | some t ↦ ltb (hours * hour) (now - t) ]

-- ORDER BY hours_since DESC NULLS FIRST
abbrev pub before_row : StaleRow → StaleRow → Bool
before_row a b = elim a.last [
  | none ↦ true
  | some t ↦ elim b.last [ none ↦ false | some u ↦ leb t u ]
]

unfoldable pub insert_stale : StaleRow → List StaleRow → List StaleRow
insert_stale r [] = r ∷ []
insert_stale r (x ∷ xs) = if before_row r x then r ∷ x ∷ xs else x ∷ insert_stale r xs

unfoldable pub stalest_first : List StaleRow → List StaleRow
unfolding insert_stale
stalest_first [] = []
stalest_first (x ∷ xs) = insert_stale x (stalest_first xs)

-- `StaleBackupAlert`: the time since is a float64 and not a pointer.
pub record StaleBackupAlert : Type 0 where
  pub connection_id : String
  pub connection_name : String
  pub db_type : String
  pub database_id : String
  pub database_name : String
  pub last_backup_at : ℕ
  pub since_backup : ℕ

abbrev pub null_error : String
null_error = "scan stale alert: converting NULL to float64 is unsupported"

abbrev pub alert_of : ℕ → StaleRow → ℕ → StaleBackupAlert
alert_of now r t = record {
  connection_id = r.conn.id;
  connection_name = r.conn.name;
  db_type = r.conn.db_type;
  database_id = r.db.id;
  database_name = r.db.db_name;
  last_backup_at = t;
  since_backup = now - t;
}

-- The loop of `Scan`, which cannot read NULL into `HoursSinceBackup`.
unfoldable pub scan_alerts : ℕ → List StaleRow → Result (List StaleBackupAlert)
scan_alerts now [] = ok []
scan_alerts now (r ∷ rs) = elim r.last [
  | none ↦ err null_error
  | some t ↦ elim (scan_alerts now rs) [
    | err e ↦ err e
    | ok alerts ↦ ok (alert_of now r t ∷ alerts)
  ]
]

unfoldable pub list_stale_connections :
    ℕ
    → ℕ
    → List Connection
    → List ConnectionDatabase
    → Table Backup
    → Result (List StaleBackupAlert) × Table Backup
unfolding joined is_stale stalest_first scan_alerts
list_stale_connections now hours conns dbs t =
    let answer =
      query (λ rows. stalest_first (filter (is_stale now hours) (joined conns dbs rows))) t in
    (
      elim answer.0 [
        | err e ↦ err ("list stale connections: " <> e)
        | ok rows ↦ scan_alerts now rows
      ],
      answer.1,
    )
