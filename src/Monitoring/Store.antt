-- ===== src/Monitoring/Store.antt =====
-- `PGStore` of internal/monitoring/store.go over its seven tables.
pub mod Laws
pub mod Others
pub mod Health
pub mod Start
use backupeer.Prelude.{
  ℕ, ◌^◌, String, Bool, true, false, Option, none, some, List, [], ◌∷◌, ◌++◌, Result, ok, err, map,
  map_get, is_one_of, all, ltb, leb, ◌==◌, if◌then◌else◌,
}
use backupeer.Table.{Table, query, exec}
use backupeer.Monitoring.{HealthCheck}
use backupeer.Monitoring.Samples.{
  Floats, DbMetric, PerformanceMetric, AutovacuumInfo, LockInfo, ReplicationLag, TableMetric,
}
use backupeer.Monitoring.Select.{build, run}
use backupeer.Monitoring.Catalog.{Catalog}

-- A row of health_checks: an empty message is stored as NULL.
pub record HealthRow : Type 0 where
  pub time : ℕ
  pub connection_id : String
  pub status : String
  pub response_time_ms : ℕ
  pub active_connections : ℕ
  pub error_message : Option String

-- `nullableStr`
unfoldable pub nullable_str : String → Option String
nullable_str s = if s == "" then none else some s

-- COALESCE(..., '')
abbrev pub coalesce : Option String → String
coalesce none = ""
coalesce (some s) = s

pub record Database (R : Floats) : Type 0 where
  pub catalog : Catalog
  pub health_checks : Table HealthRow
  pub db_metrics : Table (DbMetric R)
  pub performance_metrics : Table (PerformanceMetric R)
  pub autovacuum_info : Table (AutovacuumInfo R)
  pub lock_info : Table (LockInfo R)
  pub replication_lag : Table (ReplicationLag R)
  pub table_metrics : Table (TableMetric R)

abbrev pub undefined_column : String
undefined_column = "relation or column does not exist (SQLSTATE 42P01, 42703)"

abbrev pub out_of_range : String
out_of_range = "value out of range for an INTEGER column"

-- Whether a table exists with the columns that a statement names.
unfoldable pub has_columns : String → List String → Catalog → Bool
has_columns name columns cat = elim (map_get name cat) [
  | none ↦ false
  | some there ↦ all (λ c. is_one_of c there) columns
]

-- INSERT of a row, with the values for its INTEGER columns.
unfoldable pub insert_into :
    {A : Type 0} → Catalog → String → List String → List ℕ → A → Table A → Option String × Table A
unfolding has_columns
insert_into cat name columns integers row t =
    exec
      (λ rows.
        if has_columns name columns cat
        then if all (λ n. ltb n (2 ^ 31)) integers
          then ok (rows ++ (row ∷ []))
          else err out_of_range
        else err undefined_column)
      t

-- The common body of the queries: the SELECT names `columns`.
unfoldable pub select_from :
    {A : Type 0}
    → Catalog
    → String
    → List String
    → (A → String)
    → (A → ℕ)
    → (A → A → Bool)
    → String
    → Option ℕ
    → Option ℕ
    → ℕ
    → Table A
    → Result (List A) × Table A
unfolding has_columns
select_from cat name columns connection_of time_of before connection_id since until limit t =
    let answer =
      query (run connection_of time_of before (build connection_id since until limit)) t in
    (
      elim answer.0 [
        | err e ↦ err e
        | ok rows ↦ if has_columns name columns cat then rows else err undefined_column
      ],
      answer.1,
    )

abbrev pub health_columns : List String
health_columns =
    "time" ∷ "connection_id" ∷ "status" ∷ "response_time_ms" ∷ "active_connections"
    ∷ "error_message" ∷ []

abbrev pub metric_columns : List String
metric_columns =
    "time" ∷ "connection_id" ∷ "db_type" ∷ "db_size_bytes" ∷ "growth_bytes" ∷ "cache_hit_ratio"
    ∷ "qps" ∷ "connections_total" ∷ "max_connections" ∷ "conn_usage_percent" ∷ []

abbrev pub performance_columns : List String
performance_columns =
    "time" ∷ "connection_id" ∷ "db_type" ∷ "query_id" ∷ "query_text" ∷ "mean_time_ms"
    ∷ "total_time_ms" ∷ "calls" ∷ "rows_avg" ∷ []

abbrev pub autovacuum_columns : List String
autovacuum_columns =
    "time" ∷ "connection_id" ∷ "db_type" ∷ "table_name" ∷ "schema_name" ∷ "table_size_bytes"
    ∷ "index_size_bytes" ∷ "dead_tuples" ∷ "live_tuples" ∷ "dead_tuple_ratio" ∷ "last_autovacuum"
    ∷ "last_autoanalyze" ∷ "n_auto_vacuum" ∷ "n_auto_analyze" ∷ "vacuum_threshold"
    ∷ "mod_since_last_vacuum" ∷ "engine" ∷ "table_rows" ∷ "data_free_bytes" ∷ "table_collation" ∷ []

abbrev pub lock_columns : List String
lock_columns =
    "time" ∷ "connection_id" ∷ "db_type" ∷ "database_name" ∷ "relation_name" ∷ "lock_type"
    ∷ "lock_mode" ∷ "granted" ∷ "blocked_pid" ∷ "blocked_user" ∷ "blocked_query"
    ∷ "blocked_duration_seconds" ∷ "blocking_pid" ∷ "blocking_user" ∷ "blocking_query"
    ∷ "is_deadlock" ∷ []

abbrev pub replication_columns : List String
replication_columns =
    "time" ∷ "connection_id" ∷ "db_type" ∷ "application_name" ∷ "client_addr" ∷ "state"
    ∷ "sync_state" ∷ "write_lag_seconds" ∷ "flush_lag_seconds" ∷ "replay_lag_seconds"
    ∷ "slave_io_state" ∷ "slave_io_thread" ∷ "slave_sql_thread" ∷ "read_master_log_pos"
    ∷ "exec_master_log_pos" ∷ "relay_master_log_file" ∷ "seconds_behind_master" ∷ "last_errno"
    ∷ "last_error" ∷ []

abbrev pub table_columns : List String
table_columns =
    "time" ∷ "connection_id" ∷ "db_type" ∷ "database_name" ∷ "schema_name" ∷ "table_name"
    ∷ "table_size_bytes" ∷ "index_size_bytes" ∷ "total_size_bytes" ∷ "row_estimate" ∷ "fill_factor"
    ∷ "dead_tuple_ratio" ∷ "engine" ∷ "collation" ∷ []

-- The stored row of a health check, and the health check that is read from it.
abbrev pub stored_check : HealthCheck → HealthRow
stored_check h = record {
  time = h.time;
  connection_id = h.connection_id;
  status = h.status;
  response_time_ms = h.response_time_ms;
  active_connections = h.active_connections;
  error_message = nullable_str h.error_message;
}

abbrev pub scanned_check : HealthRow → HealthCheck
scanned_check r = record {
  time = r.time;
  connection_id = r.connection_id;
  status = r.status;
  response_time_ms = r.response_time_ms;
  active_connections = r.active_connections;
  error_message = coalesce r.error_message;
}

module _ {R : Floats} where
  open R use {to_real, at_most}

  -- The name of the database is not among the columns.
  abbrev pub stored_metric : DbMetric R → DbMetric R
  stored_metric m = record m {
    db_name = "";
    cache_hit_ratio = to_real m.cache_hit_ratio;
    conn_usage_percent = to_real m.conn_usage_percent;
  }

  unfoldable pub record_health_check : HealthCheck → Database R → Option String × Database R
  unfolding nullable_str
  record_health_check h db =
      let done =
        insert_into db.catalog "health_checks" health_columns
          (h.response_time_ms ∷ h.active_connections ∷ []) (stored_check h) db.health_checks in
      (done.0, record db { health_checks = done.1 })

  unfoldable pub record_db_metric : DbMetric R → Database R → Option String × Database R
  record_db_metric m db =
      let done =
        insert_into db.catalog "db_metrics" metric_columns
          (m.qps ∷ m.connections_total ∷ m.max_connections ∷ []) (stored_metric m) db.db_metrics in
      (done.0, record db { db_metrics = done.1 })

  unfoldable pub record_performance_metric :
      PerformanceMetric R → Database R → Option String × Database R
  record_performance_metric p db =
      let done =
        insert_into db.catalog "performance_metrics" performance_columns (p.calls ∷ [])
          (record p {
            mean_time_ms = to_real p.mean_time_ms;
            total_time_ms = to_real p.total_time_ms;
            rows_avg = to_real p.rows_avg;
          })
          db.performance_metrics in
      (done.0, record db { performance_metrics = done.1 })

  unfoldable pub record_autovacuum_info : AutovacuumInfo R → Database R → Option String × Database R
  record_autovacuum_info a db =
      let done =
        insert_into db.catalog "autovacuum_info" autovacuum_columns []
          (record a { dead_tuple_ratio = to_real a.dead_tuple_ratio }) db.autovacuum_info in
      (done.0, record db { autovacuum_info = done.1 })

  unfoldable pub record_lock_info : LockInfo R → Database R → Option String × Database R
  record_lock_info l db =
      let done =
        insert_into db.catalog "lock_info" lock_columns (l.blocked_pid ∷ l.blocking_pid ∷ [])
          (record l { blocked_duration = to_real l.blocked_duration }) db.lock_info in
      (done.0, record db { lock_info = done.1 })

  unfoldable pub record_replication_lag : ReplicationLag R → Database R → Option String × Database R
  record_replication_lag r db =
      let done =
        insert_into db.catalog "replication_lag" replication_columns
          (r.seconds_behind_master ∷ r.last_errno ∷ [])
          (record r {
            write_lag = to_real r.write_lag;
            flush_lag = to_real r.flush_lag;
            replay_lag = to_real r.replay_lag;
          })
          db.replication_lag in
      (done.0, record db { replication_lag = done.1 })

  unfoldable pub record_table_metric : TableMetric R → Database R → Option String × Database R
  record_table_metric t db =
      let done =
        insert_into db.catalog "table_metrics" table_columns (t.fill_factor ∷ [])
          (record t { dead_tuple_ratio = to_real t.dead_tuple_ratio }) db.table_metrics in
      (done.0, record db { table_metrics = done.1 })

  unfoldable pub query_health_checks :
      String → Option ℕ → Option ℕ → ℕ → Database R → Result (List HealthCheck) × Database R
  query_health_checks connection_id since until limit db =
      let answer =
        select_from db.catalog "health_checks" health_columns HealthRow.connection_id HealthRow.time
          (λ a b. leb b.time a.time) connection_id since until limit db.health_checks in
      (
        elim answer.0 [ err e ↦ err e | ok rows ↦ ok (map scanned_check rows) ],
        record db { health_checks = answer.1 },
      )

  unfoldable pub query_db_metrics :
      String → Option ℕ → Option ℕ → ℕ → Database R → Result (List (DbMetric R)) × Database R
  query_db_metrics connection_id since until limit db =
      let answer =
        select_from db.catalog "db_metrics" metric_columns DbMetric.connection_id DbMetric.time
          (λ a b. leb b.time a.time) connection_id since until limit db.db_metrics in
      (answer.0, record db { db_metrics = answer.1 })

  unfoldable pub query_performance_metrics :
      String
      → Option ℕ
      → Option ℕ
      → ℕ
      → Database R
      → Result (List (PerformanceMetric R)) × Database R
  query_performance_metrics connection_id since until limit db =
      let answer =
        select_from db.catalog "performance_metrics" performance_columns
          PerformanceMetric.connection_id PerformanceMetric.time
          (λ a b. at_most b.mean_time_ms a.mean_time_ms) connection_id since until limit
          db.performance_metrics in
      (answer.0, record db { performance_metrics = answer.1 })

  unfoldable pub query_autovacuum_info :
      String → Option ℕ → Option ℕ → ℕ → Database R → Result (List (AutovacuumInfo R)) × Database R
  query_autovacuum_info connection_id since until limit db =
      let answer =
        select_from db.catalog "autovacuum_info" autovacuum_columns AutovacuumInfo.connection_id
          AutovacuumInfo.time (λ a b. leb b.time a.time) connection_id since until limit
          db.autovacuum_info in
      (answer.0, record db { autovacuum_info = answer.1 })

  unfoldable pub query_lock_info :
      String → Option ℕ → Option ℕ → ℕ → Database R → Result (List (LockInfo R)) × Database R
  query_lock_info connection_id since until limit db =
      let answer =
        select_from db.catalog "lock_info" lock_columns LockInfo.connection_id LockInfo.time
          (λ a b. leb b.time a.time) connection_id since until limit db.lock_info in
      (answer.0, record db { lock_info = answer.1 })

  unfoldable pub query_replication_lag :
      String → Option ℕ → Option ℕ → ℕ → Database R → Result (List (ReplicationLag R)) × Database R
  query_replication_lag connection_id since until limit db =
      let answer =
        select_from db.catalog "replication_lag" replication_columns ReplicationLag.connection_id
          ReplicationLag.time (λ a b. leb b.time a.time) connection_id since until limit
          db.replication_lag in
      (answer.0, record db { replication_lag = answer.1 })

  unfoldable pub query_table_metrics :
      String → Option ℕ → Option ℕ → ℕ → Database R → Result (List (TableMetric R)) × Database R
  query_table_metrics connection_id since until limit db =
      let answer =
        select_from db.catalog "table_metrics" table_columns TableMetric.connection_id
          TableMetric.time (λ a b. leb b.total_size a.total_size) connection_id since until limit
          db.table_metrics in
      (answer.0, record db { table_metrics = answer.1 })
