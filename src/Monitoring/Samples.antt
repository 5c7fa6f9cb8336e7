-- ===== src/Monitoring/Samples.antt =====
-- The rows of internal/monitoring/store.go and p2_models.go besides the health check. A time is in
-- microseconds; counts and sizes are not negative.
use backupeer.Prelude.{ℕ, String, Bool, Option}

-- The float64 of Go. A REAL column keeps a value of half the precision.
pub record Floats : Type 1 where
  pub F : Type 0
  pub to_real : F → F
  pub at_most : F → F → Bool

module _ (R : Floats) where
  open R use {F}

  pub record DbMetric : Type 0 where
    pub time : ℕ
    pub connection_id : String
    pub db_name : String
    pub db_type : String
    pub db_size_bytes : ℕ
    pub growth_bytes : ℕ
    pub cache_hit_ratio : F
    pub qps : ℕ
    pub connections_total : ℕ
    pub max_connections : ℕ
    pub conn_usage_percent : F

  pub record PerformanceMetric : Type 0 where
    pub time : ℕ
    pub connection_id : String
    pub db_type : String
    pub query_id : String
    pub query_text : String
    pub mean_time_ms : F
    pub total_time_ms : F
    pub calls : ℕ
    pub rows_avg : F

  pub record AutovacuumInfo : Type 0 where
    pub time : ℕ
    pub connection_id : String
    pub db_type : String
    pub table_name : String
    pub schema_name : String
    pub table_size : ℕ
    pub index_size : ℕ
    pub dead_tuples : ℕ
    pub live_tuples : ℕ
    pub dead_tuple_ratio : F
    pub last_autovacuum : Option ℕ
    pub last_autoanalyze : Option ℕ
    pub n_auto_vacuum : ℕ
    pub n_auto_analyze : ℕ
    pub vacuum_threshold : ℕ
    pub mod_since_last_vacuum : ℕ
    pub engine : String
    pub table_rows : ℕ
    pub data_free : ℕ
    pub table_collation : String

  pub record LockInfo : Type 0 where
    pub time : ℕ
    pub connection_id : String
    pub db_type : String
    pub database_name : String
    pub relation_name : String
    pub lock_type : String
    pub lock_mode : String
    pub granted : Bool
    pub blocked_pid : ℕ
    pub blocked_user : String
    pub blocked_query : String
    pub blocked_duration : F
    pub blocking_pid : ℕ
    pub blocking_user : String
    pub blocking_query : String
    pub is_deadlock : Bool

  pub record ReplicationLag : Type 0 where
    pub time : ℕ
    pub connection_id : String
    pub db_type : String
    pub application_name : String
    pub client_addr : String
    pub state : String
    pub sync_state : String
    pub write_lag : F
    pub flush_lag : F
    pub replay_lag : F
    pub slave_io_state : String
    pub slave_io_thread : String
    pub slave_sql_thread : String
    pub read_master_log_pos : ℕ
    pub exec_master_log_pos : ℕ
    pub relay_master_log_file : String
    pub seconds_behind_master : ℕ
    pub last_errno : ℕ
    pub last_error : String

  pub record TableMetric : Type 0 where
    pub time : ℕ
    pub connection_id : String
    pub db_type : String
    pub database_name : String
    pub schema_name : String
    pub table_name : String
    pub table_size : ℕ
    pub index_size : ℕ
    pub total_size : ℕ
    pub row_estimate : ℕ
    pub fill_factor : ℕ
    pub dead_tuple_ratio : F
    pub engine : String
    pub collation : String
