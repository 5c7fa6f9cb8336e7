-- ===== src/Backup/Reports/Stale.antt =====
-- When the report on stale databases of internal/repository/postgres/backup.go can be read.
use backupeer.Prelude.{
  ℕ, ◌≡◌, ◌↔◌, ◌∙◌, refl, Bool, true, false, none, some, List, [], ◌∷◌, ◌++◌, ◌&&◌, ◌==◌, not, ok,
  err, arith, any, filter, Option-cases, Bool-cases, inl, inr, if◌then◌else◌,
}
use backupeer.Table.{Table}
use backupeer.Table.Laws.{query_calm}
use backupeer.Connection.{Connection, ConnectionDatabase}
use backupeer.Backup.{Backup}
use backupeer.Backup.Reports.{
  StaleRow, StaleBackupAlert, is_success_of, last_backup, rows_of_connection, joined, is_stale,
  insert_stale, stalest_first, alert_of, scan_alerts, null_error, list_stale_connections,
}

abbrev has_time : Backup → Bool
has_time b = elim b.completed_at [ none ↦ false | some t ↦ true ]

-- Some successful backup of the database, through that connection, has a completion time.
abbrev pub is_backed_up : Connection → ConnectionDatabase → List Backup → Bool
is_backed_up c d rows =
    any
      (λ b.
        (b.connection_id == c.id && b.database_id == d.id) && (b.status == "success" && has_time b))
      rows

-- Some database of one of the connections is selected and not backed up.
abbrev pub lacks_backup : List Connection → List ConnectionDatabase → List Backup → Bool
lacks_backup conns dbs rows =
    any
      (λ c.
        any (λ d. (d.connection_id == c.id && d.is_selected) && not (is_backed_up c d rows)) dbs)
      conns

-- A row of the join whose time is NULL.
abbrev is_never : StaleRow → Bool
is_never r = elim r.last [ none ↦ true | some t ↦ false ]

is_never-last_backup :
    (c : Connection) (d : ConnectionDatabase) (rows : List Backup)
    → (elim (last_backup (filter (is_success_of c d) rows)) [ none ↦ true | some t ↦ false ])
      ≡ not (is_backed_up c d rows)
unfolding last_backup
is_never-last_backup c d [] = refl
is_never-last_backup c d (b ∷ bs) =
    let ih = is_never-last_backup c d bs in
    elim (Option-cases b.completed_at) [
      | inl e ↦ ground (arith, ih, e)
      | inr (t, e) ↦ elim (Option-cases (last_backup (filter (is_success_of c d) bs))) [
        | inl f ↦ ground (arith, ih, e, f)
        | inr (u, f) ↦ ground (arith, ih, e, f)
      ]
    ]

is_never-rows_of_connection :
    (c : Connection) (ds : List ConnectionDatabase) (rows : List Backup)
    → any is_never (rows_of_connection c ds rows)
      ≡ any (λ d. (d.connection_id == c.id && d.is_selected) && not (is_backed_up c d rows)) ds
unfolding rows_of_connection
is_never-rows_of_connection c [] rows = refl
is_never-rows_of_connection c (d ∷ ds) rows =
    let ih = is_never-rows_of_connection c ds rows in
    let last = is_never-last_backup c d rows in ground (arith, ih, last)

any-append :
    (xs ys : List StaleRow)
    → any is_never (xs ++ ys) ≡ (if any is_never xs then true else any is_never ys)
any-append [] ys = refl
any-append (x ∷ xs) ys = let ih = any-append xs ys in ground (arith, ih)

is_never-joined :
    (conns : List Connection) (dbs : List ConnectionDatabase) (rows : List Backup)
    → any is_never (joined conns dbs rows) ≡ lacks_backup conns dbs rows
unfolding joined
is_never-joined [] dbs rows = refl
is_never-joined (c ∷ cs) dbs rows =
    let ih = is_never-joined cs dbs rows in
    any-append (rows_of_connection c dbs rows) (joined cs dbs rows)
    ∙ rw (is_never-rows_of_connection c dbs rows, ih) refl

any-insert_stale :
    (r : StaleRow) (rows : List StaleRow)
    → any is_never (insert_stale r rows) ≡ (if is_never r then true else any is_never rows)
unfolding insert_stale
any-insert_stale r [] = refl
any-insert_stale r (x ∷ xs) = let ih = any-insert_stale r xs in ground (arith, ih)

any-stalest_first : (rows : List StaleRow) → any is_never (stalest_first rows) ≡ any is_never rows
unfolding stalest_first
any-stalest_first [] = refl
any-stalest_first (x ∷ xs) =
    let ih = any-stalest_first xs in
    let one = any-insert_stale x (stalest_first xs) in ground (arith, ih, one)

-- A database without a backup is stale whatever the threshold.
any-filter :
    (now hours : ℕ) (rows : List StaleRow)
    → any is_never (filter (is_stale now hours) rows) ≡ any is_never rows
unfolding is_stale
any-filter now hours [] = refl
any-filter now hours (r ∷ rs) = let ih = any-filter now hours rs in ground (arith, ih)

scan_alerts_null :
    (now : ℕ) (rows : List StaleRow)
    → any is_never rows ≡ true
    → scan_alerts now rows ≡ err null_error
unfolding scan_alerts
scan_alerts_null now [] h = cc
scan_alerts_null now (r ∷ rs) h = let ih = scan_alerts_null now rs in ground (arith, ih, h)

scan_alerts_ok :
    (now : ℕ) (rows : List StaleRow)
    → any is_never rows ≡ false
    → (alerts : List StaleBackupAlert) × (scan_alerts now rows ≡ ok alerts)
unfolding scan_alerts
scan_alerts_ok now [] h = ([], refl)
scan_alerts_ok now (r ∷ rs) h = elim (Option-cases r.last) [
  | inl e ↦ absurd (ground (arith, e, h))
  | inr (t, e) ↦
      let rest : any is_never rs ≡ false = ground (arith, e, h) in
      let (alerts, read) = scan_alerts_ok now rs rest in
      (alert_of now r t ∷ alerts, rw (e, read) refl)
]

-- On a database that answers, the report fails exactly when some connection has a database that is
-- selected and of which no backup of that connection with the status success has a completion time,
-- whatever the threshold.
pub list_stale_connections_fails_iff :
    (now hours : ℕ) (conns : List Connection) (dbs : List ConnectionDatabase) (t : Table Backup)
    → t.faults ≡ []
    → ((list_stale_connections now hours conns dbs t).0 ≡ err null_error)
      ↔ (lacks_backup conns dbs t.rows ≡ true)
unfolding list_stale_connections
list_stale_connections_fails_iff now hours conns dbs t calm =
    let stale = filter (is_stale now hours) (joined conns dbs t.rows) in
    let same =
      any-stalest_first stale
      ∙ any-filter now hours (joined conns dbs t.rows)
      ∙ is_never-joined conns dbs t.rows in
    let answered : (list_stale_connections now hours conns dbs t).0
        ≡ scan_alerts now (stalest_first stale) =
      rw
        (
          query_calm (λ rows. stalest_first (filter (is_stale now hours) (joined conns dbs rows))) t
              calm,
          list_stale_connections,
        )
        refl in
    (
      (λ failed. elim (Bool-cases (lacks_backup conns dbs t.rows)) [
        | inl never ↦ never
        | inr each ↦
            let (alerts, read) = scan_alerts_ok now (stalest_first stale) (same ∙ each) in
            absurd (ground (arith, failed, answered, read))
      ]),
      (λ never. answered ∙ scan_alerts_null now (stalest_first stale) (same ∙ never)),
    )
