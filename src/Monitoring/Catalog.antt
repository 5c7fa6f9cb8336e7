-- ===== src/Monitoring/Catalog.antt =====
-- The monitoring tables that internal/repository/postgres/db.go creates when the program starts: which
-- there are, and their columns.
use backupeer.Prelude.{
  String, Bool, true, false, Option, none, some, List, [], ◌∷◌, ◌++◌, Result, ok, err, ◌<>◌,
  is_one_of, map_get, map_set, if◌then◌else◌,
}

abbrev pub Catalog : Type 0
Catalog = List (String × List String)

-- CREATE TABLE IF NOT EXISTS
abbrev pub create_table : String → List String → Catalog → Catalog
create_table name columns cat = elim (map_get name cat) [
  | some _ ↦ cat
  | none ↦ map_set name columns cat
]

-- ALTER TABLE ... ADD COLUMN IF NOT EXISTS, which fails, unheard, where there is no table
abbrev pub add_column : String → String → Catalog → Catalog
add_column name column cat = elim (map_get name cat) [
  | none ↦ cat
  | some columns ↦
      if is_one_of column columns then cat else map_set name (columns ++ (column ∷ [])) cat
]

-- The statements on the monitoring tables in `migrate`. Their errors are passed over, and they are
-- taken to reach the server.
unfoldable pub migrated : Catalog → Catalog
migrated cat =
    create_table "table_metrics"
      ("time" ∷ "connection_id" ∷ "db_type" ∷ "database_name" ∷ "schema_name" ∷ "table_name"
        ∷ "table_size_bytes" ∷ "index_size_bytes" ∷ "total_size_bytes" ∷ "row_estimate"
        ∷ "fill_factor" ∷ "dead_tuple_ratio" ∷ "engine" ∷ "collation" ∷ [])
      (create_table "replication_lag"
        ("time" ∷ "connection_id" ∷ "db_type" ∷ "application_name" ∷ "client_addr" ∷ "state"
          ∷ "sync_state" ∷ "write_lag_seconds" ∷ "flush_lag_seconds" ∷ "replay_lag_seconds"
          ∷ "slave_io_state" ∷ "slave_io_thread" ∷ "slave_sql_thread" ∷ "read_master_log_pos"
          ∷ "exec_master_log_pos" ∷ "relay_master_log_file" ∷ "seconds_behind_master" ∷ "last_errno"
          ∷ "last_error" ∷ [])
        (create_table "lock_info"
          ("time" ∷ "connection_id" ∷ "db_type" ∷ "database_name" ∷ "relation_name" ∷ "lock_type"
            ∷ "lock_mode" ∷ "granted" ∷ "blocked_pid" ∷ "blocked_user" ∷ "blocked_query"
            ∷ "blocked_duration_seconds" ∷ "blocking_pid" ∷ "blocking_user" ∷ "blocking_query"
            ∷ "is_deadlock" ∷ [])
          (create_table "autovacuum_info"
            ("time" ∷ "connection_id" ∷ "db_type" ∷ "table_name" ∷ "schema_name"
              ∷ "table_size_bytes" ∷ "index_size_bytes" ∷ "dead_tuples" ∷ "live_tuples"
              ∷ "dead_tuple_ratio" ∷ "last_autovacuum" ∷ "last_autoanalyze" ∷ "n_auto_vacuum"
              ∷ "n_auto_analyze" ∷ "vacuum_threshold" ∷ "mod_since_last_vacuum" ∷ "engine"
              ∷ "table_rows" ∷ "data_free_bytes" ∷ "table_collation" ∷ [])
            (add_column "db_metrics" "conn_usage_percent"
              (add_column "db_metrics" "max_connections" cat)))))

-- The schema statement before them, whose error ends the start, is modelled with the tables of the
-- other parts.
unfoldable pub migrate : Option String → Catalog → Result Catalog
unfolding migrated
migrate (some e) cat = err e
migrate none cat = ok (migrated cat)

-- The columns of the one CREATE TABLE of `createHypertables`.
abbrev pub sample_columns : List String
sample_columns =
    "time" ∷ "connection_id" ∷ "status" ∷ "response_time_ms" ∷ "active_connections"
    ∷ "db_size_bytes" ∷ "growth_bytes" ∷ "cache_hit_ratio" ∷ "qps" ∷ "connections_total"
    ∷ "query_id" ∷ "query_text" ∷ "mean_time_ms" ∷ "total_time_ms" ∷ "calls" ∷ "rows_avg"
    ∷ "db_type" ∷ "error_message" ∷ "metadata" ∷ []

-- The loop: the error of each CREATE TABLE ends it. The conversion to a hypertable and its policies
-- change no column, and their errors are passed over.
unfoldable pub create_each :
    (String → Option String) → List String → Catalog → Option String × Catalog
create_each fault [] cat = (none, cat)
create_each fault (t ∷ ts) cat =
    let rest = create_each fault ts (create_table t sample_columns cat) in
    elim (fault t) [ some e ↦ (some ("create " <> t <> " table: " <> e), cat) | none ↦ rest ]

abbrev pub hypertables : List String
hypertables =
    "health_checks" ∷ "db_metrics" ∷ "performance_metrics" ∷ "autovacuum_info" ∷ "lock_info"
    ∷ "replication_lag" ∷ "table_metrics" ∷ []

-- `extension` is whether TimescaleDB is installed, or the error of asking.
unfoldable pub create_hypertables :
    Result Bool → (String → Option String) → Catalog → Option String × Catalog
unfolding create_each
create_hypertables (err _) fault cat = (none, cat)
create_hypertables (ok false) fault cat = (none, cat)
create_hypertables (ok true) fault cat = create_each fault hypertables cat

-- What the server answers at a start.
pub record Server : Type 0 where
  pub connect : Option String
  pub ping : Option String
  pub schema : Option String
  pub extension : Result Bool
  pub create_fault : String → Option String

-- `Open`: the error, and the catalogue afterwards.
unfoldable pub open_database : Server → Catalog → Option String × Catalog
unfolding migrate create_hypertables
open_database s cat = elim s.connect [
  | some e ↦ (some ("open postgres: " <> e), cat)
  | none ↦ elim s.ping [
    | some e ↦ (some ("ping postgres: " <> e), cat)
    | none ↦ elim (migrate s.schema cat) [
      | err e ↦ (some ("migrate: " <> e), cat)
      | ok cat' ↦
          let made = create_hypertables s.extension s.create_fault cat' in
          (elim made.0 [ some e ↦ some ("create hypertables: " <> e) | none ↦ none ], made.1)
    ]
  ]
]
