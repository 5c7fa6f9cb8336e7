-- ===== src/Monitoring/Collect.antt =====
-- internal/monitoring/collector.go: what one visit to a server records in the store
-- (collectConnection with all that it calls). The answers of the server are parameters.
pub mod Literal
pub mod Numbers
pub mod Rows
pub mod Metrics
pub mod Tables
pub mod Locks
pub mod Lag
pub mod Own
pub mod Others
pub mod Renamed
use backupeer.Prelude.{
  ℕ, String, Option, none, some, List, Result, ok, err, ◌<>◌, ◌==◌, if◌then◌else◌,
}
use backupeer.Connection.{Connection}
use backupeer.Monitoring.{Probe, collect_health}
use backupeer.Monitoring.Samples.{Floats}
use backupeer.Monitoring.Store.{
  Database, record_health_check, record_db_metric, record_performance_metric,
  record_autovacuum_info, record_lock_info, record_replication_lag, record_table_metric,
}
use backupeer.Monitoring.Collect.Numbers.{Arithmetic}
use backupeer.Monitoring.Collect.Rows.{record_each, open_error, or_zero}
use backupeer.Monitoring.Collect.Metrics.{
  MetricSource, status_schema, is_mysql, collect_db_metrics, collect_performance,
}
use backupeer.Monitoring.Collect.Tables.{TableSource, collect_autovacuum, collect_tables}
use backupeer.Monitoring.Collect.Locks.{LockSource, collect_locks}
use backupeer.Monitoring.Collect.Lag.{LagSource, collect_lag}

-- A monitored server: what the driver answers to the DSN, the ping and its time in milliseconds, the
-- counts of its connections, and the answers to the further queries.
pub record Server (R : Floats) : Type 0 where
  pub opens : String × String → Option String
  pub ping : Option String
  pub elapsed : ℕ
  pub active : Option ℕ
  pub threads : String → Option ℕ
  pub processes : Option ℕ
  pub metrics : MetricSource R
  pub tables : TableSource R
  pub locks : LockSource R
  pub lag : LagSource

-- The rows to record; an error was only logged.
abbrev pub rows_or_none {ℓ} : {A : Type ℓ} → Result (List A) → List A
rows_or_none (err e) = List.[]
rows_or_none (ok rows) = rows

module _ {R : Floats} where
  -- `queryActiveConnections`
  unfoldable pub query_active_connections : Server R → Connection → ℕ
  unfolding status_schema
  query_active_connections s c =
      if c.db_type == "postgresql"
      then or_zero 0 s.active
      else if is_mysql c
      then elim (s.threads (status_schema c)) [ some n ↦ n | none ↦ or_zero 0 s.processes ]
      else 0

  unfoldable pub probe_of : Server R → Connection → Probe
  unfolding query_active_connections open_error
  probe_of s c = record {
    connect = open_error s.opens c;
    ping = s.ping;
    elapsed = s.elapsed;
    active = query_active_connections s c;
  }

module _ {R : Floats} (A : Arithmetic R) where
  -- The six collections after the health check, each of which opens the server anew.
  unfoldable pub record_samples : Server R → Connection → ℕ → Database R → Database R
  unfolding record_each collect_db_metrics collect_performance collect_autovacuum collect_locks
      collect_lag collect_tables
  record_samples s c now db =
      let opened = open_error s.opens c in
      let db1 =
        record_each record_db_metric (rows_or_none (collect_db_metrics A opened s.metrics c now))
          db in
      let db2 =
        record_each record_performance_metric
          (rows_or_none (collect_performance A opened s.metrics c now)) db1 in
      let db3 =
        record_each record_autovacuum_info (collect_autovacuum A opened s.tables c now) db2 in
      let db4 = record_each record_lock_info (collect_locks A opened s.locks c now) db3 in
      let db5 = record_each record_replication_lag (collect_lag A opened s.lag c now) db4 in
      record_each record_table_metric (collect_tables A opened s.tables c now) db5

  -- `collectConnection`
  unfoldable pub collect_server :
      Server R → Connection → ℕ → Database R → Option String × Database R
  unfolding record_samples
  collect_server s c now db =
      let h = collect_health now c.id (probe_of s c) in
      let saved = record_health_check h db in
      elim saved.0 [
        | some e ↦ (some ("save health check: " <> e), saved.1)
        | none ↦
            if h.status == "down" then (none, saved.1) else (none, record_samples s c now saved.1)
      ]
