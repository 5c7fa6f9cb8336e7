-- ===== src/Monitoring/Handler.antt =====
-- internal/monitoring/handler.go. A list that is nil is written as an empty one.
pub mod Limits
use backupeer.Prelude.{
  ℕ, zero, suc, ◌+◌, String, Bool, true, false, Option, none, some, List, [], ◌∷◌, Result, ok, err,
  ◌<>◌, ◌==◌, ltb, ℤ, pos, negsuc, atoi, if◌then◌else◌,
}
use backupeer.Http.{Response, write_error, write_json}
use backupeer.Monitoring.{HealthCheck}
use backupeer.Monitoring.Samples.{
  Floats, DbMetric, PerformanceMetric, AutovacuumInfo, LockInfo, ReplicationLag, TableMetric,
}
use backupeer.Monitoring.Store.{
  Database, query_health_checks, query_db_metrics, query_performance_metrics, query_autovacuum_info,
  query_lock_info, query_replication_lag, query_table_metrics,
}

-- The query parameters of a request.
pub record Request : Type 0 where
  pub connection_id : String
  pub since : String
  pub until : String
  pub limit : String

-- `parseLimit`
unfoldable pub parse_limit : String → ℕ → ℕ
parse_limit s default_limit = if s == "" then default_limit else elim (atoi s) [
  | none ↦ default_limit
  | some (negsuc n) ↦ default_limit
  | some (pos zero) ↦ default_limit
  | some (pos (suc n)) ↦ if ltb 200 (suc n) then 200 else suc n
]

-- `rfc3339` is `time.Parse(time.RFC3339, ...)`; the zero time is `none`.
module _ (rfc3339 : String → Option ℕ) where
  -- `parseTime`
  unfoldable pub parse_time : String → Option ℕ
  parse_time s = if s == "" then none else rfc3339 s

  -- The common body of the handlers, over a query of the store.
  unfoldable pub list_rows :
      {A D : Type 0}
      → String
      → (String → Option ℕ → Option ℕ → ℕ → D → Result (List A) × D)
      → Request
      → D
      → Response (List A) × D
  unfolding parse_time
  list_rows label query r db =
      let answer =
        query r.connection_id (parse_time r.since) (parse_time r.until) (parse_limit r.limit 50)
          db in
      (
        elim answer.0 [ err e ↦ write_error 500 (label <> e) | ok rows ↦ write_json 200 rows ],
        answer.1,
      )

  module _ {R : Floats} where
    unfoldable pub list_health_checks :
        Request → Database R → Response (List HealthCheck) × Database R
    list_health_checks = list_rows "query health checks: " query_health_checks

    unfoldable pub list_db_metrics :
        Request → Database R → Response (List (DbMetric R)) × Database R
    list_db_metrics = list_rows "query db metrics: " query_db_metrics

    unfoldable pub list_performance_metrics :
        Request → Database R → Response (List (PerformanceMetric R)) × Database R
    list_performance_metrics = list_rows "query performance: " query_performance_metrics

    unfoldable pub list_autovacuum_info :
        Request → Database R → Response (List (AutovacuumInfo R)) × Database R
    list_autovacuum_info = list_rows "query autovacuum info: " query_autovacuum_info

    unfoldable pub list_lock_info : Request → Database R → Response (List (LockInfo R)) × Database R
    list_lock_info = list_rows "query lock info: " query_lock_info

    unfoldable pub list_replication_lag :
        Request → Database R → Response (List (ReplicationLag R)) × Database R
    list_replication_lag = list_rows "query replication lag: " query_replication_lag

    unfoldable pub list_table_metrics :
        Request → Database R → Response (List (TableMetric R)) × Database R
    list_table_metrics = list_rows "query table metrics: " query_table_metrics

-- `TriggerCollect`: with a collector, a cycle is started beside the request.
unfoldable pub trigger_collect : Bool → Response String × Bool
trigger_collect false = (write_error 503 "collector not initialized", false)
trigger_collect true = (write_json 202 "collection started", true)
