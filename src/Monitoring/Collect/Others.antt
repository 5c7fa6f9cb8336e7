-- ===== src/Monitoring/Collect/Others.antt =====
-- What a visit of internal/monitoring/collector.go leaves of the rows of other connections.
use backupeer.Prelude.{
  ℕ, ◌≡◌, ◌∙◌, ap, String, true, Option, List, [], ◌∷◌, All, arith, ◌==◌, eq_refl, if_both,
  Option-cases, inl, inr,
}
use backupeer.Connection.{Connection}
use backupeer.Monitoring.{Probe, collect_health}
use backupeer.Monitoring.Samples.{
  Floats, DbMetric, PerformanceMetric, AutovacuumInfo, LockInfo, ReplicationLag, TableMetric,
}
use backupeer.Monitoring.Store.{
  Database, record_health_check, record_db_metric, record_performance_metric,
  record_autovacuum_info, record_lock_info, record_replication_lag, record_table_metric,
}
use backupeer.Monitoring.Store.Others.{
  HasSameOthers, IsLocal, unchanged, then_also, record_health_check-IsLocal,
  record_db_metric-IsLocal, record_performance_metric-IsLocal, record_autovacuum_info-IsLocal,
  record_lock_info-IsLocal, record_replication_lag-IsLocal, record_table_metric-IsLocal,
}
use backupeer.Monitoring.Collect.Numbers.{Arithmetic}
use backupeer.Monitoring.Collect.Rows.{record_each, open_error}
use backupeer.Monitoring.Collect.{Server, probe_of, record_samples, collect_server}
use backupeer.Monitoring.Collect.Own.{
  collect_db_metrics-Own, collect_performance-Own, collect_autovacuum-Own, collect_locks-Own,
  collect_lag-Own, collect_tables-Own,
}

module _ {R : Floats} where
  record_each-HasSameOthers :
      {A : Type 0} (connection_of : A → String) (save : A → Database R → Option String × Database R)
      (id : String) (rows : List A) (db : Database R)
      → IsLocal connection_of save
      → All (λ a. (connection_of a == id) ≡ true) rows
      → HasSameOthers id db (record_each save rows db)
  unfolding record_each
  record_each-HasSameOthers connection_of save id [] db local own = unchanged id db
  record_each-HasSameOthers connection_of save id (a ∷ rows) db local own =
      then_also id db (save a db).1 _ (local id a db own.0)
        (record_each-HasSameOthers connection_of save id rows (save a db).1 local own.1)

module _ {R : Floats} (A : Arithmetic R) where
  connection_id-collect_health :
      (now : ℕ) (id : String) (p : Probe) → (collect_health now id p).connection_id ≡ id
  unfolding collect_health
  connection_id-collect_health now id p = ground arith

  record_samples-HasSameOthers :
      (s : Server R) (c : Connection) (now : ℕ) (db : Database R)
      → HasSameOthers c.id db (record_samples A s c now db)
  unfolding record_samples
  record_samples-HasSameOthers s c now db =
      let opened = open_error s.opens c in
      then_also c.id db _ _
        (record_each-HasSameOthers DbMetric.connection_id record_db_metric c.id _ db
          record_db_metric-IsLocal (collect_db_metrics-Own A opened s c now))
        (then_also c.id _ _ _
          (record_each-HasSameOthers PerformanceMetric.connection_id record_performance_metric c.id
            _ _ record_performance_metric-IsLocal (collect_performance-Own A opened s c now))
          (then_also c.id _ _ _
            (record_each-HasSameOthers AutovacuumInfo.connection_id record_autovacuum_info c.id _ _
              record_autovacuum_info-IsLocal (collect_autovacuum-Own A opened s c now))
            (then_also c.id _ _ _
              (record_each-HasSameOthers LockInfo.connection_id record_lock_info c.id _ _
                record_lock_info-IsLocal (collect_locks-Own A opened s c now))
              (then_also c.id _ _ _
                (record_each-HasSameOthers ReplicationLag.connection_id record_replication_lag c.id
                  _ _ record_replication_lag-IsLocal (collect_lag-Own A opened s c now))
                (record_each-HasSameOthers TableMetric.connection_id record_table_metric c.id _ _
                  record_table_metric-IsLocal (collect_tables-Own A opened s c now))))))

  -- Whatever a monitored server answers and whatever statements of the store fail, a visit to it
  -- leaves the rows of every other connection as they were, in all seven tables.
  pub collect_server-HasSameOthers :
      (s : Server R) (c : Connection) (now : ℕ) (db : Database R)
      → HasSameOthers c.id db (collect_server A s c now db).1
  unfolding collect_server
  collect_server-HasSameOthers s c now db =
      let h = collect_health now c.id (probe_of s c) in
      let own =
        ap (λ id. id == c.id) (connection_id-collect_health now c.id (probe_of s c))
        ∙ eq_refl c.id in
      let saved = record_health_check-IsLocal c.id h db own in
      let P : Option String × Database R → Type 0 = λ r. HasSameOthers c.id db r.1 in
      elim (Option-cases (record_health_check h db).0) [
        | inr (x, e) ↦ rw (e, collect_server) saved
        | inl e ↦
            rw (e, collect_server)
              (if_both P (h.status == "down") saved (
                then_also c.id db _ _ saved
                  (record_samples-HasSameOthers s c now (record_health_check h db).1)))
      ]
