-- ===== src/Monitoring/Collect/Lag.antt =====
-- The replication lag that internal/monitoring/collector.go asks a server for.
use backupeer.Prelude.{
  ℕ, String, Bool, Option, none, some, List, [], ◌∷◌, map, ok, err, ◌==◌, if◌then◌else◌,
}
use backupeer.Connection.{Connection}
use backupeer.Monitoring.Samples.{Floats, ReplicationLag}
use backupeer.Monitoring.Collect.Numbers.{Arithmetic, parse_int, parse_interval_seconds}
use backupeer.Monitoring.Collect.Rows.{Answer, answered_rows, scanned_rows}
use backupeer.Monitoring.Collect.Metrics.{is_mysql}

-- A row of `pg_stat_replication`; the lags are intervals as text.
pub record Replica : Type 0 where
  pub application_name : String
  pub client_addr : String
  pub state : String
  pub sync_state : String
  pub write_lag : Option String
  pub flush_lag : Option String
  pub replay_lag : Option String

-- A row of the status of a replica: the columns with their names and values.
abbrev pub StatusRow : Type 0
StatusRow = List (String × Option String)

-- What a server answers. `in_recovery` is false where the query fails.
pub record LagSource : Type 0 where
  pub in_recovery : Bool
  pub replicas : Answer Replica
  pub replica_status : Answer StatusRow
  pub slave_status : Answer StatusRow

module _ {R : Floats} (A : Arithmetic R) where
  open R use {F}
  open A use {nought}

  abbrev pub no_lag : Connection → ℕ → ReplicationLag R
  no_lag c now = record {
    time = now;
    connection_id = c.id;
    db_type = c.db_type;
    application_name = "";
    client_addr = "";
    state = "";
    sync_state = "";
    write_lag = nought;
    flush_lag = nought;
    replay_lag = nought;
    slave_io_state = "";
    slave_io_thread = "";
    slave_sql_thread = "";
    read_master_log_pos = 0;
    exec_master_log_pos = 0;
    relay_master_log_file = "";
    seconds_behind_master = 0;
    last_errno = 0;
    last_error = "";
  }

  abbrev lag_of : Option String → F
  lag_of none = nought
  lag_of (some text) = parse_interval_seconds A text

  -- One turn of the loop of `collectPGReplicationLag`.
  unfoldable pub replica_lag : Connection → ℕ → Replica → ReplicationLag R
  unfolding parse_interval_seconds
  replica_lag c now r = record (no_lag c now) {
    application_name = r.application_name;
    client_addr = r.client_addr;
    state = r.state;
    sync_state = r.sync_state;
    write_lag = lag_of r.write_lag;
    flush_lag = lag_of r.flush_lag;
    replay_lag = lag_of r.replay_lag;
  }

  -- The cases of the switch over the name of a column.
  unfoldable pub set_column : String → String → ReplicationLag R → ReplicationLag R
  unfolding parse_int
  set_column col v r =
      if col == "Slave_IO_State"
      then record r { slave_io_state = v }
      else if col == "Slave_IO_Running"
      then record r { slave_io_thread = v }
      else if col == "Slave_SQL_Running"
      then record r { slave_sql_thread = v }
      else if col == "Seconds_Behind_Master"
      then record r { seconds_behind_master = parse_int v }
      else if col == "Read_Master_Log_Pos"
      then record r { read_master_log_pos = parse_int v }
      else if col == "Exec_Master_Log_Pos"
      then record r { exec_master_log_pos = parse_int v }
      else if col == "Relay_Master_Log_File"
      then record r { relay_master_log_file = v }
      else if col == "Last_Errno"
      then record r { last_errno = parse_int v }
      else if col == "Last_Error"
      then record r { last_error = v }
      else r

  -- The loop over the columns: a NULL is skipped.
  unfoldable pub set_columns : StatusRow → ReplicationLag R → ReplicationLag R
  unfolding set_column
  set_columns [] r = r
  set_columns ((col, none) ∷ cols) r = set_columns cols r
  set_columns ((col, some v) ∷ cols) r = set_columns cols (set_column col v r)

  -- `collectMySQLReplicationLag`: the older statement where the newer one fails.
  unfoldable pub mysql_lags : LagSource → Connection → ℕ → List (ReplicationLag R)
  unfolding set_columns
  mysql_lags s c now = elim s.replica_status [
    | ok rows ↦ map (λ row. set_columns row (no_lag c now)) (scanned_rows rows)
    | err _ ↦ map (λ row. set_columns row (no_lag c now)) (answered_rows s.slave_status)
  ]

  -- `collectReplicationLagAsync`: what it records, given the error of opening the server. A replica of
  -- PostgreSQL is not asked.
  unfoldable pub collect_lag : Option String → LagSource → Connection → ℕ → List (ReplicationLag R)
  unfolding replica_lag mysql_lags
  collect_lag (some e) s c now = []
  collect_lag none s c now =
      if c.db_type == "postgresql"
      then if s.in_recovery then [] else map (replica_lag c now) (answered_rows s.replicas)
      else if is_mysql c
      then mysql_lags s c now
      else []
