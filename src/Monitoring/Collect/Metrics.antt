-- ===== src/Monitoring/Collect/Metrics.antt =====
-- The metrics of the databases and the slow queries that internal/monitoring/collector.go asks a
-- server for.
use backupeer.Prelude.{
  ℕ, String, Bool, Option, none, some, List, [], map, Result, ok, err, ◌||◌, ◌<>◌, ◌==◌, ltb,
  if◌then◌else◌,
}
use backupeer.Connection.{Connection}
use backupeer.Monitoring.Samples.{Floats, DbMetric, PerformanceMetric}
use backupeer.Monitoring.Collect.Literal.{escape_pg_string}
use backupeer.Monitoring.Collect.Numbers.{Arithmetic}
use backupeer.Monitoring.Collect.Rows.{Answer, scanned_rows, or_zero}

abbrev pub is_mysql : Connection → Bool
is_mysql c = c.db_type == "mysql" || c.db_type == "mariadb"

-- Where the status variables of a server are.
unfoldable pub status_schema : Connection → String
status_schema c = if c.db_type == "mariadb" then "information_schema" else "performance_schema"

module _ (R : Floats) where
  open R use {F}

  -- The columns of a slow query.
  pub record SlowQuery : Type 0 where
    pub query_id : String
    pub query_text : String
    pub mean_time_ms : F
    pub total_time_ms : F
    pub calls : ℕ
    pub rows_avg : F

  -- What a server answers: `none` is a query that fails or has no row. `size` has the text of the
  -- query; the status variables have the schema they are asked of.
  pub record MetricSource : Type 0 where
    pub databases : Answer String
    pub pg_size : String → Option ℕ
    pub pg_stat : String → Option (F × ℕ × ℕ)
    pub mysql_size : String → Option ℕ
    pub threads_connected : String → Option ℕ
    pub max_connections : Option ℕ
    pub hit_rate : String → Option (Option F)
    pub slow_queries : Answer SlowQuery
    pub slow_queries_old : Answer SlowQuery

module _ {R : Floats} (A : Arithmetic R) where
  open R use {F}
  open A use {nought, percent}

  -- The usage of the connections is computed where their number is known.
  unfoldable pub with_usage : DbMetric R → DbMetric R
  with_usage m =
      if ltb 0 m.max_connections
      then record m { conn_usage_percent = percent m.connections_total m.max_connections }
      else m

  abbrev pub new_metric : Connection → ℕ → String → DbMetric R
  new_metric c now name = record {
    time = now;
    connection_id = c.id;
    db_name = name;
    db_type = c.db_type;
    db_size_bytes = 0;
    growth_bytes = 0;
    cache_hit_ratio = nought;
    qps = 0;
    connections_total = 0;
    max_connections = 0;
    conn_usage_percent = nought;
  }

  abbrev size_query : String → String
  size_query name = "SELECT pg_database_size('" <> escape_pg_string name <> "')"

  -- One turn of the loop of `collectPGMetrics`.
  unfoldable pub pg_metric : MetricSource R → Connection → ℕ → String → DbMetric R
  unfolding with_usage
  pg_metric s c now name =
      let (ratio, xacts, backends) = or_zero (nought, 0, 0) (s.pg_stat name) in
      with_usage (record (new_metric c now name) {
        db_size_bytes = or_zero 0 (s.pg_size (size_query name));
        cache_hit_ratio = ratio;
        qps = xacts;
        connections_total = backends;
        max_connections = or_zero 0 s.max_connections;
      })

  abbrev pub valid_or : F → Option (Option F) → F
  valid_or d (some (some x)) = x
  valid_or d _ = d

  -- One turn of the loop of `collectMySQLMetrics`.
  unfoldable pub mysql_metric : MetricSource R → Connection → ℕ → String → DbMetric R
  unfolding with_usage status_schema
  mysql_metric s c now name = with_usage (record (new_metric c now name) {
    db_size_bytes = or_zero 0 (s.mysql_size name);
    connections_total = or_zero 0 (s.threads_connected (status_schema c));
    max_connections = or_zero 0 s.max_connections;
    cache_hit_ratio = valid_or nought (s.hit_rate (status_schema c));
  })

  unfoldable pub listed_metrics : (String → DbMetric R) → Answer String → Result (List (DbMetric R))
  listed_metrics metric (err e) = err ("list databases: " <> e)
  listed_metrics metric (ok rows) = ok (map metric (scanned_rows rows))

  -- `collectDBMetrics`, given the error of opening the server.
  unfoldable pub collect_db_metrics :
      Option String → MetricSource R → Connection → ℕ → Result (List (DbMetric R))
  unfolding pg_metric mysql_metric listed_metrics
  collect_db_metrics (some e) s c now = err e
  collect_db_metrics none s c now =
      if c.db_type == "postgresql"
      then listed_metrics (pg_metric s c now) s.databases
      else if is_mysql c
      then listed_metrics (mysql_metric s c now) s.databases
      else err ("unsupported db type: " <> c.db_type)

  unfoldable pub performance_metric : Connection → ℕ → SlowQuery R → PerformanceMetric R
  performance_metric c now q = record {
    time = now;
    connection_id = c.id;
    db_type = c.db_type;
    query_id = q.query_id;
    query_text = q.query_text;
    mean_time_ms = q.mean_time_ms;
    total_time_ms = q.total_time_ms;
    calls = q.calls;
    rows_avg = q.rows_avg;
  }

  -- `collectPGPerformance`: the columns have other names on an older server.
  unfoldable pub collect_pg_performance :
      MetricSource R → Connection → ℕ → Result (List (PerformanceMetric R))
  unfolding performance_metric
  collect_pg_performance s c now = elim s.slow_queries [
    | ok rows ↦ ok (map (performance_metric c now) (scanned_rows rows))
    | err _ ↦ elim s.slow_queries_old [
      | ok rows ↦ ok (map (performance_metric c now) (scanned_rows rows))
      | err e ↦ err ("pg_stat_statements not available: " <> e)
    ]
  ]

  unfoldable pub collect_mysql_performance :
      MetricSource R → Connection → ℕ → Result (List (PerformanceMetric R))
  unfolding performance_metric
  collect_mysql_performance s c now = elim s.slow_queries [
    | ok rows ↦ ok (map (performance_metric c now) (scanned_rows rows))
    | err e ↦ err ("performance_schema not available: " <> e)
  ]

  -- `collectPerformance`: MariaDB is not asked.
  unfoldable pub collect_performance :
      Option String → MetricSource R → Connection → ℕ → Result (List (PerformanceMetric R))
  unfolding collect_pg_performance collect_mysql_performance
  collect_performance (some e) s c now = err e
  collect_performance none s c now =
      if c.db_type == "postgresql"
      then collect_pg_performance s c now
      else if c.db_type == "mysql"
      then collect_mysql_performance s c now
      else ok []
