-- ===== src/Monitoring/Store/Health.antt =====
-- What a recorded health check becomes in the answers of internal/monitoring/store.go.
use backupeer.Prelude.{
  ℕ, suc, ◌^◌, ◌<◌, ◌≡◌, ◌∙◌, refl, ap, String, Bool, true, false, Option, none, List, [], ◌∷◌,
  ◌++◌, ok, arith, map, take, filter, filter-append, All, ltb, leb, eq_iff, eq_refl,
}
use backupeer.Monitoring.{HealthCheck}
use backupeer.Monitoring.Samples.{Floats}
use backupeer.Monitoring.Select.{order_by}
use backupeer.Monitoring.Select.Window.{row_in_window}
use backupeer.Monitoring.Store.Laws.{insert_into_calm, select_from_calm}
use backupeer.Monitoring.Store.{
  HealthRow, Database, nullable_str, has_columns, health_columns, stored_check, scanned_check,
  record_health_check, query_health_checks,
}

-- The order of the query: the newest first.
abbrev pub newest_first : List HealthRow → List HealthRow
newest_first rows = order_by (λ a b. leb b.time a.time) rows

newest_first-append :
    (rows : List HealthRow) (r : HealthRow)
    → All (λ x. x.time < r.time) rows
    → newest_first (rows ++ (r ∷ [])) ≡ r ∷ newest_first rows
unfolding order_by
newest_first-append [] r h = refl
newest_first-append (x ∷ xs) r h =
    let ih = newest_first-append xs r h.1 in
    let older : leb r.time x.time ≡ false = ground (arith, h.0) in rw (ih, older) refl

scanned-stored : (h : HealthCheck) → scanned_check (stored_check h) ≡ h
unfolding nullable_str
scanned-stored h = ground (arith, eq_iff h.error_message "")

filter-older :
    (p : HealthRow → Bool) (t : ℕ) (rows : List HealthRow)
    → All (λ x. x.time < t) rows
    → All (λ x. x.time < t) (filter p rows)
filter-older p t [] h = tt
filter-older p t (x ∷ xs) h = let ih = filter-older p t xs h.1 in ground (arith, ih, h.0)

own_window :
    (h : HealthCheck)
    → filter
        (row_in_window HealthRow.connection_id HealthRow.time h.connection_id none none)
        (stored_check h ∷ [])
      ≡ stored_check h ∷ []
own_window h = ground (arith, eq_refl h.connection_id)

module _ {R : Floats} where
  -- The health checks that a database answers with are, on a table with its columns, those of the
  -- window, newest first, up to the limit.
  pub query_health_checks_calm :
      (connection_id : String) (since until : Option ℕ) (limit : ℕ) (db : Database R)
      → db.health_checks.faults ≡ []
      → has_columns "health_checks" health_columns db.catalog ≡ true
      → query_health_checks connection_id since until limit db ≡ (
        ok (
            map scanned_check (
              take limit (
                newest_first (
                  filter
                    (row_in_window HealthRow.connection_id HealthRow.time connection_id since until)
                    db.health_checks.rows)))),
        db,
      )
  unfolding query_health_checks
  query_health_checks_calm connection_id since until limit db calm there =
      let answered =
        select_from_calm db.catalog "health_checks" health_columns HealthRow.connection_id
          HealthRow.time (λ a b. leb b.time a.time) connection_id since until limit db.health_checks
          calm there in
      rw answered refl

  record_health_check_calm :
      (h : HealthCheck) (db : Database R)
      → db.health_checks.faults ≡ []
      → has_columns "health_checks" health_columns db.catalog ≡ true
      → h.response_time_ms < 2 ^ 31
      → h.active_connections < 2 ^ 31
      → record_health_check h db ≡ (
        none,
        record db {
          health_checks = record {
            faults = [];
            rows = db.health_checks.rows ++ (stored_check h ∷ []);
          };
        },
      )
  unfolding record_health_check
  record_health_check_calm h db calm there response active =
      let small : ltb h.response_time_ms (2 ^ 31) ≡ true = ground arith in
      let few : ltb h.active_connections (2 ^ 31) ≡ true = ground arith in
      let done =
        insert_into_calm db.catalog "health_checks" health_columns
          (h.response_time_ms ∷ h.active_connections ∷ []) (stored_check h) db.health_checks calm
          there (rw (small, few) refl) in
      rw done refl

  -- A health check that is recorded on a database that answers, whose table is there and whose checks
  -- are all older, is the first in the answer to the next query for its connection that asks for any,
  -- with its fields as they were; the checks of the connection from before follow it, newest first.
  pub query_health_checks-record_health_check :
      (h : HealthCheck) (limit : ℕ) (db : Database R)
      → db.health_checks.faults ≡ []
      → has_columns "health_checks" health_columns db.catalog ≡ true
      → h.response_time_ms < 2 ^ 31
      → h.active_connections < 2 ^ 31
      → All (λ r. r.time < h.time) db.health_checks.rows
      → (query_health_checks h.connection_id none none (suc limit) (record_health_check h db).1).0
        ≡ ok (
            h
            ∷ map scanned_check (
                take limit (
                  newest_first (
                    filter
                      (row_in_window HealthRow.connection_id HealthRow.time h.connection_id none
                        none)
                      db.health_checks.rows))))
  query_health_checks-record_health_check h limit db calm there response active older =
      let row = stored_check h in
      let db' : Database R = record db {
        health_checks = record { faults = []; rows = db.health_checks.rows ++ (row ∷ []) };
      } in
      let window = row_in_window HealthRow.connection_id HealthRow.time h.connection_id none none in
      let before = filter window db.health_checks.rows in
      rw (record_health_check_calm h db calm there response active) (
        ap (λ a. a.0)
          (query_health_checks_calm h.connection_id none none (suc limit) db' refl there)
        ∙ ap (λ rows. ok (map scanned_check (take (suc limit) (newest_first rows))))
            (filter-append window db.health_checks.rows (row ∷ [])
              ∙ ap (λ own. before ++ own) (own_window h))
        ∙ ap (λ rows. ok (map scanned_check (take (suc limit) rows)))
            (newest_first-append before row
              (filter-older window h.time db.health_checks.rows older))
        ∙ ap (λ first. ok (first ∷ map scanned_check (take limit (newest_first before))))
            (scanned-stored h))
