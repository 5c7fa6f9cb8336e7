-- ===== src/Monitoring/Collect/Own.antt =====
-- Whose rows the collections of internal/monitoring/collector.go make.
use backupeer.Prelude.{
  ℕ, ◌≡◌, ◌∙◌, refl, ap, String, Bool, true, Option, none, some, List, [], ◌∷◌, Result, ok, err,
  map, filter, All, ◌==◌, eq_refl, if_both, ltb, Result-cases, inl, inr,
}
use backupeer.Connection.{Connection}
use backupeer.Monitoring.Samples.{
  Floats, DbMetric, PerformanceMetric, AutovacuumInfo, LockInfo, ReplicationLag, TableMetric,
}
use backupeer.Monitoring.Collect.Numbers.{Arithmetic}
use backupeer.Monitoring.Collect.Rows.{Answer, scanned_rows, answered_rows}
use backupeer.Monitoring.Collect.Metrics.{
  SlowQuery, is_mysql, collect_db_metrics, collect_performance, pg_metric, mysql_metric,
  performance_metric, listed_metrics, with_usage, collect_pg_performance, collect_mysql_performance,
}
use backupeer.Monitoring.Collect.Tables.{
  collect_autovacuum, collect_tables, vacuum_info, optimizer_info, pg_table, mysql_table,
}
use backupeer.Monitoring.Collect.Locks.{
  LockSource, collect_locks, mysql_locks, innodb_lock, long_running, pg_lock,
}
use backupeer.Monitoring.Collect.Lag.{
  StatusRow, LagSource, collect_lag, mysql_lags, replica_lag, set_column, set_columns, no_lag,
}
use backupeer.Monitoring.Collect.{Server, rows_or_none}

module _ {R : Floats} (A : Arithmetic R) where
  -- The rows that a collection makes are the connection's own.
  abbrev pub Own : {T : Type 0} → (T → String) → Connection → List T → Type 0
  Own connection_of c rows = All (λ r. (connection_of r == c.id) ≡ true) rows

  map-Own :
      {S T : Type 0} (connection_of : T → String) (c : Connection) (f : S → T) (rows : List S)
      → ((r : S) → (connection_of (f r) == c.id) ≡ true)
      → Own connection_of c (map f rows)
  map-Own connection_of c f [] each = tt
  map-Own connection_of c f (r ∷ rows) each = (each r, map-Own connection_of c f rows each)

  with_usage-own :
      (c : Connection) (m : DbMetric R)
      → m.connection_id ≡ c.id
      → ((with_usage A m).connection_id == c.id) ≡ true
  unfolding with_usage
  with_usage-own c m named =
      let own = ap (λ id. id == c.id) named ∙ eq_refl c.id in
      if_both (λ (x : DbMetric R). (x.connection_id == c.id) ≡ true) (ltb 0 m.max_connections) own
        own

  listed_metrics-Own :
      (c : Connection) (metric : String → DbMetric R) (a : Answer String)
      → ((name : String) → ((metric name).connection_id == c.id) ≡ true)
      → Own DbMetric.connection_id c (rows_or_none (listed_metrics A metric a))
  unfolding listed_metrics
  listed_metrics-Own c metric (err e) own = tt
  listed_metrics-Own c metric (ok rows) own =
      map-Own DbMetric.connection_id c metric (scanned_rows rows) own

  pub collect_db_metrics-Own :
      (opened : Option String) (s : Server R) (c : Connection) (now : ℕ)
      → Own DbMetric.connection_id c (rows_or_none (collect_db_metrics A opened s.metrics c now))
  unfolding collect_db_metrics listed_metrics pg_metric mysql_metric with_usage
  collect_db_metrics-Own (some e) s c now = tt
  collect_db_metrics-Own none s c now =
      let own : (m : DbMetric R)
          → m.connection_id ≡ c.id
          → ((with_usage A m).connection_id == c.id) ≡ true =
        λ m named. with_usage-own c m named in
      let P : Result (List (DbMetric R)) → Type 0 =
        λ a. Own DbMetric.connection_id c (rows_or_none a) in
      if_both P (c.db_type == "postgresql")
        (listed_metrics-Own c (pg_metric A s.metrics c now) s.metrics.databases
          (λ name. own _ refl))
        (if_both P (is_mysql c)
          (listed_metrics-Own c (mysql_metric A s.metrics c now) s.metrics.databases
            (λ name. own _ refl))
          tt)

  pub collect_performance-Own :
      (opened : Option String) (s : Server R) (c : Connection) (now : ℕ)
      → Own PerformanceMetric.connection_id c
          (rows_or_none (collect_performance A opened s.metrics c now))
  unfolding collect_performance collect_pg_performance collect_mysql_performance performance_metric
  collect_performance-Own (some e) s c now = tt
  collect_performance-Own none s c now =
      let P : Result (List (PerformanceMetric R)) → Type 0 =
        λ a. Own PerformanceMetric.connection_id c (rows_or_none a) in
      let made : (rows : List (Option (SlowQuery R)))
          → P (ok (map (performance_metric A c now) (scanned_rows rows))) =
        λ rows.
          map-Own PerformanceMetric.connection_id c (performance_metric A c now) (scanned_rows rows)
            (λ q. eq_refl c.id) in
      if_both P (c.db_type == "postgresql")
        (elim (Result-cases s.metrics.slow_queries) [
          | inl (rows, e) ↦ rw e (made rows)
          | inr (x, e) ↦ elim (Result-cases s.metrics.slow_queries_old) [
            | inl (rows, e') ↦ rw (e, e') (made rows)
            | inr (x', e') ↦ rw (e, e') tt
          ]
        ])
        (if_both P (c.db_type == "mysql")
          (elim (Result-cases s.metrics.slow_queries) [
            | inl (rows, e) ↦ rw e (made rows)
            | inr (x, e) ↦ rw e tt
          ])
          tt)

  pub collect_autovacuum-Own :
      (opened : Option String) (s : Server R) (c : Connection) (now : ℕ)
      → Own AutovacuumInfo.connection_id c (collect_autovacuum A opened s.tables c now)
  unfolding collect_autovacuum vacuum_info optimizer_info
  collect_autovacuum-Own (some e) s c now = tt
  collect_autovacuum-Own none s c now =
      if_both (Own AutovacuumInfo.connection_id c) (c.db_type == "postgresql")
        (map-Own AutovacuumInfo.connection_id c (vacuum_info A s.tables c now) _
          (λ r. eq_refl c.id))
        (if_both (Own AutovacuumInfo.connection_id c) (is_mysql c)
          (map-Own AutovacuumInfo.connection_id c (optimizer_info A c now) _ (λ r. eq_refl c.id))
          tt)

  filter-Own :
      {T : Type 0} (connection_of : T → String) (c : Connection) (p : T → Bool) (rows : List T)
      → Own connection_of c rows
      → Own connection_of c (filter p rows)
  filter-Own connection_of c p [] h = tt
  filter-Own connection_of c p (r ∷ rows) h =
      let ih = filter-Own connection_of c p rows h.1 in
      if_both (Own connection_of c) (p r) (h.0, ih) ih

  mysql_locks-Own :
      (s : LockSource R) (c : Connection) (now : ℕ)
      → Own LockInfo.connection_id c (mysql_locks A s c now)
  unfolding mysql_locks innodb_lock long_running
  mysql_locks-Own s c now = elim (Result-cases s.innodb_locks) [
    | inl (rows, e) ↦
        rw e (map-Own LockInfo.connection_id c (innodb_lock A c now) _ (λ r. eq_refl c.id))
    | inr (x, e) ↦ rw e (
        filter-Own LockInfo.connection_id c _ _ (
          map-Own LockInfo.connection_id c (long_running A c now) (answered_rows s.processes)
            (λ r. eq_refl c.id)))
  ]

  pub collect_locks-Own :
      (opened : Option String) (s : Server R) (c : Connection) (now : ℕ)
      → Own LockInfo.connection_id c (collect_locks A opened s.locks c now)
  unfolding collect_locks pg_lock
  collect_locks-Own (some e) s c now = tt
  collect_locks-Own none s c now =
      if_both (Own LockInfo.connection_id c) (c.db_type == "postgresql")
        (map-Own LockInfo.connection_id c (pg_lock A c now) _ (λ r. eq_refl c.id))
        (if_both (Own LockInfo.connection_id c) (is_mysql c) (mysql_locks-Own s.locks c now) tt)

  pub collect_tables-Own :
      (opened : Option String) (s : Server R) (c : Connection) (now : ℕ)
      → Own TableMetric.connection_id c (collect_tables A opened s.tables c now)
  unfolding collect_tables pg_table mysql_table
  collect_tables-Own (some e) s c now = tt
  collect_tables-Own none s c now =
      if_both (Own TableMetric.connection_id c) (c.db_type == "postgresql")
        (map-Own TableMetric.connection_id c (pg_table A c now) _ (λ r. eq_refl c.id))
        (if_both (Own TableMetric.connection_id c) (is_mysql c)
          (map-Own TableMetric.connection_id c (mysql_table A c now) _ (λ r. eq_refl c.id)) tt)

  connection_id-set_column :
      (col v : String) (r : ReplicationLag R)
      → (set_column A col v r).connection_id ≡ r.connection_id
  unfolding set_column
  connection_id-set_column col v r =
      let P : ReplicationLag R → Type 0 = λ r'. r'.connection_id ≡ r.connection_id in
      if_both P (col == "Slave_IO_State") refl (
        if_both P (col == "Slave_IO_Running") refl (
          if_both P (col == "Slave_SQL_Running") refl (
            if_both P (col == "Seconds_Behind_Master") refl (
              if_both P (col == "Read_Master_Log_Pos") refl (
                if_both P (col == "Exec_Master_Log_Pos") refl (
                  if_both P (col == "Relay_Master_Log_File") refl (
                    if_both P (col == "Last_Errno") refl
                      (if_both P (col == "Last_Error") refl refl))))))))

  connection_id-set_columns :
      (cols : StatusRow) (r : ReplicationLag R)
      → (set_columns A cols r).connection_id ≡ r.connection_id
  unfolding set_columns
  connection_id-set_columns [] r = refl
  connection_id-set_columns ((col, none) ∷ cols) r = connection_id-set_columns cols r
  connection_id-set_columns ((col, some v) ∷ cols) r =
      connection_id-set_columns cols (set_column A col v r) ∙ connection_id-set_column col v r

  mysql_lags-Own :
      (s : LagSource) (c : Connection) (now : ℕ)
      → Own ReplicationLag.connection_id c (mysql_lags A s c now)
  unfolding mysql_lags
  mysql_lags-Own s c now =
      let row : StatusRow → ReplicationLag R = λ cols. set_columns A cols (no_lag A c now) in
      let own : (cols : StatusRow) → ((row cols).connection_id == c.id) ≡ true = λ cols.
        ap (λ id. id == c.id) (connection_id-set_columns cols (no_lag A c now)) ∙ eq_refl c.id in
      elim (Result-cases s.replica_status) [
        | inl (rows, e) ↦ rw e (map-Own ReplicationLag.connection_id c row (scanned_rows rows) own)
        | inr (x, e) ↦
            rw e (map-Own ReplicationLag.connection_id c row (answered_rows s.slave_status) own)
      ]

  pub collect_lag-Own :
      (opened : Option String) (s : Server R) (c : Connection) (now : ℕ)
      → Own ReplicationLag.connection_id c (collect_lag A opened s.lag c now)
  unfolding collect_lag replica_lag
  collect_lag-Own (some e) s c now = tt
  collect_lag-Own none s c now =
      let P : List (ReplicationLag R) → Type 0 = Own ReplicationLag.connection_id c in
      if_both P (c.db_type == "postgresql")
        (if_both P s.lag.in_recovery tt (
          map-Own ReplicationLag.connection_id c (replica_lag A c now)
            (answered_rows s.lag.replicas) (λ r. eq_refl c.id)))
        (if_both P (is_mysql c) (mysql_lags-Own s.lag c now) tt)
