-- ===== src/Monitoring/Handler/Limits.antt =====
-- What the handlers of internal/monitoring/handler.go answer.
use backupeer.Prelude.{ℕ, ◌≤◌, ◌≡◌, refl, String, true, Option, [], map, take, filter, arith}
use backupeer.Http.{write_json}
use backupeer.Monitoring.Samples.{Floats}
use backupeer.Monitoring.Select.Window.{row_in_window}
use backupeer.Monitoring.Store.{HealthRow, Database, has_columns, health_columns, scanned_check}
use backupeer.Monitoring.Store.Health.{newest_first, query_health_checks_calm}
use backupeer.Monitoring.Handler.{Request, parse_limit, parse_time, list_rows, list_health_checks}

-- The limit lies between 1 and 200 whatever the parameter says, if the default does.
parse_limit_bounds :
    (s : String) (default_limit : ℕ)
    → 1 ≤ default_limit
    → default_limit ≤ 200
    → (1 ≤ parse_limit s default_limit) × (parse_limit s default_limit ≤ 200)
unfolding parse_limit
parse_limit_bounds s default_limit low high = ground arith

module _ {R : Floats} where
  -- Whatever the parameters of the request, on a database that answers and has the table, the answer
  -- has status 200 and holds, newest first, the health checks of the connection between the times that
  -- were understood: as many as the limit says, which lies between 1 and 200.
  pub list_health_checks_calm :
      (rfc3339 : String → Option ℕ) (r : Request) (db : Database R)
      → db.health_checks.faults ≡ []
      → has_columns "health_checks" health_columns db.catalog ≡ true
      → (1 ≤ parse_limit r.limit 50)
        × (parse_limit r.limit 50 ≤ 200)
        × (list_health_checks rfc3339 r db ≡ (
          write_json 200 (
              map scanned_check (
                take (parse_limit r.limit 50) (
                  newest_first (
                    filter
                      (row_in_window HealthRow.connection_id HealthRow.time r.connection_id
                        (parse_time rfc3339 r.since)
                        (parse_time rfc3339 r.until))
                      db.health_checks.rows)))),
          db,
        ))
  unfolding list_health_checks list_rows
  list_health_checks_calm rfc3339 r db calm there =
      let bounds = parse_limit_bounds r.limit 50 (omega arith) (omega arith) in
      let answered =
        query_health_checks_calm r.connection_id (parse_time rfc3339 r.since)
          (parse_time rfc3339 r.until) (parse_limit r.limit 50) db calm there in
      (bounds.0, bounds.1, rw answered refl)
