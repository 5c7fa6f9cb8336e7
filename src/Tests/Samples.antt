-- ===== src/Tests/Samples.antt =====
-- The theorems on internal/monitoring/store.go, handler.go and internal/repository/postgres/db.go at
-- concrete data.
use backupeer.Prelude.{
  ℕ, ◌<◌, ◌≤◌, ◌≡◌, refl, String, true, false, none, some, Option, List, [], ◌∷◌, ok, take, map,
  filter, leb, arith, All,
}
use backupeer.Http.{write_json}
use backupeer.Monitoring.{HealthCheck}
use backupeer.Monitoring.Catalog.{Server, open_database}
use backupeer.Monitoring.Samples.{Floats}
use backupeer.Monitoring.Select.{run, build, order_by}
use backupeer.Monitoring.Select.Window.{row_in_window, run-build}
use backupeer.Monitoring.Store.{
  HealthRow, Database, health_columns, has_columns, stored_check, scanned_check, undefined_column,
  record_health_check, query_health_checks,
}
use backupeer.Monitoring.Store.Health.{newest_first, query_health_checks-record_health_check}
use backupeer.Monitoring.Store.Start.{IsUp, record_health_check_refused}
use backupeer.Monitoring.Handler.{Request, parse_limit, parse_time, list_health_checks}
use backupeer.Monitoring.Handler.Limits.{list_health_checks_calm}
use backupeer.Tests.{table}

abbrev pub whole_floats : Floats
whole_floats = record { F = ℕ; to_real = λ x. x; at_most = leb }

abbrev slow_check : HealthCheck
slow_check = record {
  time = 90;
  connection_id = "c1";
  status = "degraded";
  response_time_ms = 1500;
  active_connections = 4;
  error_message = "";
}

abbrev failed_check : HealthCheck
failed_check = record slow_check { time = 40; status = "down"; error_message = "ping: timeout" }

abbrev other_check : HealthCheck
other_check = record slow_check { time = 50; connection_id = "c2" }

abbrev check_rows : List HealthRow
check_rows = stored_check failed_check ∷ stored_check other_check ∷ []

abbrev pub monitored : Database whole_floats
monitored = record {
  catalog = ("health_checks", health_columns) ∷ [];
  health_checks = table check_rows;
  db_metrics = table [];
  performance_metrics = table [];
  autovacuum_info = table [];
  lock_info = table [];
  replication_lag = table [];
  table_metrics = table [];
}

health_columns_there : has_columns "health_checks" health_columns monitored.catalog ≡ true
unfolding has_columns
health_columns_there = refl

older : All (λ (r : HealthRow). r.time < 90) check_rows
older = (omega arith, (omega arith, tt))

query_health_checks-record_health_check_example :
    (query_health_checks "c1" none none 3 (record_health_check slow_check monitored).1).0
    ≡ ok (
        slow_check
        ∷ map scanned_check (
            take 2 (
              newest_first (
                filter
                  (row_in_window HealthRow.connection_id HealthRow.time "c1" none none)
                  check_rows))))
query_health_checks-record_health_check_example =
    query_health_checks-record_health_check slow_check 2 monitored refl health_columns_there
      (omega arith) (omega arith) older

run-build_example :
    run HealthRow.connection_id HealthRow.time
      (λ a b. leb b.time a.time)
      (build "c1" (some 30) (some 60) 7)
      check_rows
    ≡ ok (
        take 7 (
          order_by
            (λ a b. leb b.time a.time)
            (filter
              (row_in_window HealthRow.connection_id HealthRow.time "c1" (some 30) (some 60))
              check_rows)))
run-build_example =
    run-build HealthRow.connection_id HealthRow.time (λ a b. leb b.time a.time) "c1" (some 30)
      (some 60) 7 check_rows

abbrev plain_server : Server
plain_server = record {
  connect = none;
  ping = none;
  schema = none;
  extension = ok false;
  create_fault = λ _. none;
}

plain_server-IsUp : IsUp plain_server false
plain_server-IsUp = record {
  connects = refl;
  pings = refl;
  migrates = refl;
  installed = refl;
  creates = λ _. refl;
}

abbrev new_database : Database whole_floats
new_database = record monitored { catalog = [] }

record_health_check_refused_example :
    (record_health_check slow_check
      (record new_database { catalog = (open_database plain_server []).1 })).0
    ≡ some undefined_column
record_health_check_refused_example =
    record_health_check_refused plain_server slow_check new_database plain_server-IsUp refl refl

abbrev unread : String → Option ℕ
unread _ = none

abbrev many : Request
many = record { connection_id = "c1"; since = "yesterday"; until = ""; limit = "900" }

list_health_checks_calm_example :
    (1 ≤ parse_limit "900" 50)
    × (parse_limit "900" 50 ≤ 200)
    × (list_health_checks unread many monitored ≡ (
      write_json 200 (
          map scanned_check (
            take (parse_limit "900" 50) (
              newest_first (
                filter
                  (row_in_window HealthRow.connection_id HealthRow.time "c1"
                    (parse_time unread "yesterday")
                    (parse_time unread ""))
                  check_rows)))),
      monitored,
    ))
list_health_checks_calm_example =
    list_health_checks_calm unread many monitored refl health_columns_there
