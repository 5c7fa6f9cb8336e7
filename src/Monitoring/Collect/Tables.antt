-- ===== src/Monitoring/Collect/Tables.antt =====
-- The tables of a server, their vacuuming and their sizes, that internal/monitoring/collector.go
-- asks for.
use backupeer.Prelude.{ℕ, String, Option, none, some, List, [], map, ◌==◌, if◌then◌else◌}
use backupeer.Connection.{Connection}
use backupeer.Monitoring.Samples.{Floats, AutovacuumInfo, TableMetric}
use backupeer.Monitoring.Collect.Numbers.{Arithmetic}
use backupeer.Monitoring.Collect.Rows.{Answer, answered_rows, or_zero}
use backupeer.Monitoring.Collect.Metrics.{is_mysql}

module _ (R : Floats) where
  open R use {F}

  -- The columns of `pg_stat_user_tables`; the sizes and the ratio may be NULL.
  pub record VacuumRow : Type 0 where
    pub schema_name : String
    pub table_name : String
    pub live_tuples : ℕ
    pub dead_tuples : ℕ
    pub dead_ratio : Option F
    pub last_autovacuum : Option ℕ
    pub last_autoanalyze : Option ℕ
    pub mod_since_vacuum : ℕ
    pub n_auto_vacuum : ℕ
    pub n_auto_analyze : ℕ
    pub total_size : Option ℕ
    pub index_size : Option ℕ

  pub record PgTableRow : Type 0 where
    pub database_name : String
    pub schema_name : String
    pub table_name : String
    pub table_size : ℕ
    pub index_size : ℕ
    pub total_size : ℕ
    pub row_estimate : ℕ
    pub dead_tuple_ratio : F

-- The columns of `information_schema.tables`, most of which may be NULL.
pub record OptimizerRow : Type 0 where
  pub schema_name : String
  pub table_name : String
  pub engine : Option String
  pub table_rows : Option ℕ
  pub data_length : Option ℕ
  pub index_length : Option ℕ
  pub data_free : Option ℕ
  pub collation : Option String

-- A size that is NULL cannot be scanned here, so its row is left out.
pub record MysqlTableRow : Type 0 where
  pub database_name : String
  pub schema_name : String
  pub table_name : String
  pub table_size : ℕ
  pub index_size : ℕ
  pub total_size : ℕ
  pub table_rows : Option ℕ
  pub engine : Option String
  pub collation : Option String

module _ (R : Floats) where
  -- What a server answers. `threshold` is asked for with the live tuples of a table.
  pub record TableSource : Type 0 where
    pub vacuums : Answer (VacuumRow R)
    pub threshold : ℕ → Option ℕ
    pub optimizer : Answer OptimizerRow
    pub pg_tables : Answer (PgTableRow R)
    pub mysql_tables : Answer MysqlTableRow

module _ {R : Floats} (A : Arithmetic R) where
  open A use {nought}

  -- One turn of the loop of `collectPGAutovacuum`.
  unfoldable pub vacuum_info : TableSource R → Connection → ℕ → VacuumRow R → AutovacuumInfo R
  vacuum_info s c now r = record {
    time = now;
    connection_id = c.id;
    db_type = c.db_type;
    table_name = r.table_name;
    schema_name = r.schema_name;
    table_size = or_zero 0 r.total_size;
    index_size = or_zero 0 r.index_size;
    dead_tuples = r.dead_tuples;
    live_tuples = r.live_tuples;
    dead_tuple_ratio = or_zero nought r.dead_ratio;
    last_autovacuum = r.last_autovacuum;
    last_autoanalyze = r.last_autoanalyze;
    n_auto_vacuum = r.n_auto_vacuum;
    n_auto_analyze = r.n_auto_analyze;
    vacuum_threshold = or_zero 0 (s.threshold r.live_tuples);
    mod_since_last_vacuum = r.mod_since_vacuum;
    engine = "PostgreSQL";
    table_rows = 0;
    data_free = 0;
    table_collation = "";
  }

  -- One turn of the loop of `collectMySQLOptimizer`.
  unfoldable pub optimizer_info : Connection → ℕ → OptimizerRow → AutovacuumInfo R
  optimizer_info c now r = record {
    time = now;
    connection_id = c.id;
    db_type = c.db_type;
    table_name = r.table_name;
    schema_name = r.schema_name;
    table_size = or_zero 0 r.data_length;
    index_size = or_zero 0 r.index_length;
    dead_tuples = 0;
    live_tuples = or_zero 0 r.table_rows;
    dead_tuple_ratio = nought;
    last_autovacuum = none;
    last_autoanalyze = none;
    n_auto_vacuum = 0;
    n_auto_analyze = 0;
    vacuum_threshold = 0;
    mod_since_last_vacuum = 0;
    engine = or_zero "" r.engine;
    table_rows = or_zero 0 r.table_rows;
    data_free = or_zero 0 r.data_free;
    table_collation = or_zero "" r.collation;
  }

  -- `collectAutovacuumAsync`: what it records, given the error of opening the server.
  unfoldable pub collect_autovacuum :
      Option String → TableSource R → Connection → ℕ → List (AutovacuumInfo R)
  unfolding vacuum_info optimizer_info
  collect_autovacuum (some e) s c now = []
  collect_autovacuum none s c now =
      if c.db_type == "postgresql"
      then map (vacuum_info s c now) (answered_rows s.vacuums)
      else if is_mysql c
      then map (optimizer_info c now) (answered_rows s.optimizer)
      else []

  unfoldable pub pg_table : Connection → ℕ → PgTableRow R → TableMetric R
  pg_table c now r = record {
    time = now;
    connection_id = c.id;
    db_type = c.db_type;
    database_name = r.database_name;
    schema_name = r.schema_name;
    table_name = r.table_name;
    table_size = r.table_size;
    index_size = r.index_size;
    total_size = r.total_size;
    row_estimate = r.row_estimate;
    fill_factor = 0;
    dead_tuple_ratio = r.dead_tuple_ratio;
    engine = "PostgreSQL";
    collation = "";
  }

  unfoldable pub mysql_table : Connection → ℕ → MysqlTableRow → TableMetric R
  mysql_table c now r = record {
    time = now;
    connection_id = c.id;
    db_type = c.db_type;
    database_name = r.database_name;
    schema_name = r.schema_name;
    table_name = r.table_name;
    table_size = r.table_size;
    index_size = r.index_size;
    total_size = r.total_size;
    row_estimate = or_zero 0 r.table_rows;
    fill_factor = 0;
    dead_tuple_ratio = nought;
    engine = or_zero "" r.engine;
    collation = or_zero "" r.collation;
  }

  -- `collectTableMetricsAsync`
  unfoldable pub collect_tables :
      Option String → TableSource R → Connection → ℕ → List (TableMetric R)
  unfolding pg_table mysql_table
  collect_tables (some e) s c now = []
  collect_tables none s c now =
      if c.db_type == "postgresql"
      then map (pg_table c now) (answered_rows s.pg_tables)
      else if is_mysql c
      then map (mysql_table c now) (answered_rows s.mysql_tables)
      else []
