-- ===== src/Tests/Monitors.antt =====
-- The theorems on internal/monitoring/collector.go at concrete data.
use backupeer.Prelude.{◌≡◌, refl, false, none, some, [], ◌∷◌, ok, err, All, ltb, ◌<>◌}
use backupeer.Connection.{Connection}
use backupeer.Monitoring.{new_collector, start}
use backupeer.Monitoring.Lifecycle.{Reachable, IsSound, Reachable-IsSound}
use backupeer.Monitoring.Store.Others.{HasSameOthers}
use backupeer.Monitoring.Collect.{Server, collect_server}
use backupeer.Monitoring.Collect.Numbers.{Arithmetic}
use backupeer.Monitoring.Collect.Literal.{
  escape_pg_string, read_literal, read_literal-escape_pg_string,
}
use backupeer.Monitoring.Collect.Lag.{StatusRow, LagSource, collect_lag}
use backupeer.Monitoring.Collect.Rows.{scanned_rows}
use backupeer.Monitoring.Collect.Renamed.{HasNewNames, IsSilent, collect_lag-IsSilent}
use backupeer.Monitoring.Collect.Others.{collect_server-HasSameOthers}
use backupeer.Tests.{conn}
use backupeer.Tests.Samples.{whole_floats, monitored}

Reachable-IsSound_example : IsSound (start new_collector)
Reachable-IsSound_example =
    Reachable-IsSound (start new_collector) (Reachable.started new_collector Reachable.created)

read_literal-escape_pg_string_example :
    read_literal false (escape_pg_string "o'neil'); DROP TABLE x; --" <> "')")
    ≡ some ("o'neil'); DROP TABLE x; --", ")")
read_literal-escape_pg_string_example = read_literal-escape_pg_string "o'neil'); DROP TABLE x; --"

abbrev whole_arithmetic : Arithmetic whole_floats
whole_arithmetic = record {
  nought = 0;
  percent = λ a b. a;
  interval = λ h m s. s;
  scan_float = λ s. none;
  over_a_minute = λ s. ltb 60 s;
}

abbrev replica_row : StatusRow
replica_row =
    ("Replica_IO_Running", some "No")
    ∷ ("Seconds_Behind_Source", some "5400")
    ∷ ("Last_Errno", some "1062")
    ∷ []

abbrev replica : LagSource
replica = record {
  in_recovery = false;
  replicas = ok [];
  replica_status = ok (some replica_row ∷ []);
  slave_status = err "syntax error";
}

abbrev mysql : Connection
mysql = record conn { db_type = "mysql" }

replica-HasNewNames : All HasNewNames (scanned_rows (some replica_row ∷ []))
unfolding scanned_rows
replica-HasNewNames = (((refl, refl, refl), ((refl, refl, refl), ((refl, refl, refl), tt))), tt)

collect_lag-IsSilent_example :
    All (IsSilent whole_arithmetic) (collect_lag whole_arithmetic none replica mysql 90)
collect_lag-IsSilent_example =
    collect_lag-IsSilent whole_arithmetic replica mysql 90 (some replica_row ∷ []) refl refl
      replica-HasNewNames

abbrev mysql_server : Server whole_floats
mysql_server = record {
  opens = λ dsn. none;
  ping = none;
  elapsed = 20;
  active = none;
  threads = λ schema. some 3;
  processes = none;
  metrics = record {
    databases = ok (some "shop" ∷ none ∷ []);
    pg_size = λ query. none;
    pg_stat = λ name. none;
    mysql_size = λ name. some 4096;
    threads_connected = λ schema. some 3;
    max_connections = some 100;
    hit_rate = λ schema. some (some 99);
    slow_queries = err "no such table";
    slow_queries_old = ok [];
  };
  tables = record {
    vacuums = ok [];
    threshold = λ n. none;
    optimizer = err "access denied";
    pg_tables = ok [];
    mysql_tables = ok [];
  };
  locks = record { pg_locks = ok []; innodb_locks = err "access denied"; processes = ok [] };
  lag = replica;
}

collect_server-HasSameOthers_example :
    HasSameOthers "c1" monitored (collect_server whole_arithmetic mysql_server mysql 90 monitored).1
collect_server-HasSameOthers_example =
    collect_server-HasSameOthers whole_arithmetic mysql_server mysql 90 monitored
