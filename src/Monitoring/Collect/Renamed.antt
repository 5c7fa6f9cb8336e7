-- ===== src/Monitoring/Collect/Renamed.antt =====
-- The names of the columns of a replica's status that internal/monitoring/collector.go reads.
use backupeer.Prelude.{
  ℕ, ◌≡◌, refl, String, false, Option, none, some, List, [], ◌∷◌, ok, map, All, if_both, ◌==◌,
}
use backupeer.Connection.{Connection}
use backupeer.Monitoring.Samples.{Floats, ReplicationLag}
use backupeer.Monitoring.Collect.Numbers.{Arithmetic}
use backupeer.Monitoring.Collect.Metrics.{is_mysql}
use backupeer.Monitoring.Collect.Rows.{scanned_rows}
use backupeer.Monitoring.Collect.Lag.{
  StatusRow, LagSource, no_lag, set_column, set_columns, mysql_lags, collect_lag,
}

-- A name that is none of those that say how far a replica is behind and whether its threads run.
abbrev pub IsNewName : String → Type 0
IsNewName col =
    ((col == "Seconds_Behind_Master") ≡ false)
    × ((col == "Slave_IO_Running") ≡ false)
    × ((col == "Slave_SQL_Running") ≡ false)

abbrev pub HasNewNames : StatusRow → Type 0
HasNewNames cols = All (λ (col : String × Option String). IsNewName col.0) cols

module _ {R : Floats} (A : Arithmetic R) where
  -- It says that the replica is not behind and that its threads have no state.
  abbrev pub IsSilent : ReplicationLag R → Type 0
  IsSilent r = (r.seconds_behind_master ≡ 0) × (r.slave_io_thread ≡ "") × (r.slave_sql_thread ≡ "")

  set_column-IsSilent :
      (col v : String) (r : ReplicationLag R)
      → IsNewName col
      → IsSilent r
      → IsSilent (set_column A col v r)
  unfolding set_column
  set_column-IsSilent col v r (behind, io, sql) h =
      rw (behind, io, sql, set_column)
        (if_both IsSilent (col == "Slave_IO_State") h (
          if_both IsSilent (col == "Read_Master_Log_Pos") h (
            if_both IsSilent (col == "Exec_Master_Log_Pos") h (
              if_both IsSilent (col == "Relay_Master_Log_File") h (
                if_both IsSilent (col == "Last_Errno") h
                  (if_both IsSilent (col == "Last_Error") h h))))))

  set_columns-IsSilent :
      (cols : StatusRow) (r : ReplicationLag R)
      → HasNewNames cols
      → IsSilent r
      → IsSilent (set_columns A cols r)
  unfolding set_columns
  set_columns-IsSilent [] r new h = h
  set_columns-IsSilent ((col, none) ∷ cols) r new h = set_columns-IsSilent cols r new.1 h
  set_columns-IsSilent ((col, some v) ∷ cols) r new h =
      set_columns-IsSilent cols (set_column A col v r) new.1 (set_column-IsSilent col v r new.0 h)

  map-IsSilent :
      (c : Connection) (now : ℕ) (rows : List StatusRow)
      → All HasNewNames rows
      → All IsSilent (map (λ cols. set_columns A cols (no_lag A c now)) rows)
  map-IsSilent c now [] new = tt
  map-IsSilent c now (cols ∷ rows) new = (
    set_columns-IsSilent cols (no_lag A c now) new.0 (refl, refl, refl),
    map-IsSilent c now rows new.1,
  )

  -- Where a MySQL or MariaDB server answers SHOW REPLICA STATUS without columns of the three names
  -- that the collector knows for the delay and the two threads, every replication lag that is
  -- recorded says that the replica is 0 seconds behind and knows no state of its threads, whatever
  -- the values are.
  pub collect_lag-IsSilent :
      (s : LagSource) (c : Connection) (now : ℕ) (rows : List (Option StatusRow))
      → (c.db_type == "postgresql") ≡ false
      → s.replica_status ≡ ok rows
      → All HasNewNames (scanned_rows rows)
      → All IsSilent (collect_lag A none s c now)
  unfolding collect_lag
  collect_lag-IsSilent s c now rows mysql answered new =
      let P : List (ReplicationLag R) → Type 0 = All IsSilent in
      rw mysql (
        if_both P (is_mysql c)
          (rw (answered, mysql_lags) (map-IsSilent c now (scanned_rows rows) new)) tt)
