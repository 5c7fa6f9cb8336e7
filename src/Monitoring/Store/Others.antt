-- ===== src/Monitoring/Store/Others.antt =====
-- What the statements of internal/monitoring/store.go leave of the rows of other connections.
use backupeer.Prelude.{
  ℕ, ◌≡◌, ◌∙◌, refl, subst, ap, String, Bool, true, false, not, Option, List, [], ◌∷◌, ◌++◌, ok,
  err, filter, filter-append, arith, all, ltb, ◌^◌, ◌==◌, if◌then◌else◌,
}
use backupeer.Table.{Table}
use backupeer.Table.Laws.{exec_keeps}
use backupeer.Monitoring.{HealthCheck}
use backupeer.Monitoring.Catalog.{Catalog}
use backupeer.Monitoring.Samples.{
  Floats, DbMetric, PerformanceMetric, AutovacuumInfo, LockInfo, ReplicationLag, TableMetric,
}
use backupeer.Monitoring.Store.{
  HealthRow, Database, has_columns, insert_into, record_health_check, record_db_metric,
  record_performance_metric, record_autovacuum_info, record_lock_info, record_replication_lag,
  record_table_metric,
}

-- The rows that are not of a connection.
abbrev pub others_of : {A : Type 0} → (A → String) → String → List A → List A
others_of connection_of id rows = filter (λ r. not (connection_of r == id)) rows

-- Two states of the store with the same rows of all connections but one.
pub record HasSameOthers {R : Floats} (id : String) (db db' : Database R) : Type 0 where
  pub health_checks :
      others_of HealthRow.connection_id id db'.health_checks.rows
      ≡ others_of HealthRow.connection_id id db.health_checks.rows
  pub db_metrics :
      others_of DbMetric.connection_id id db'.db_metrics.rows
      ≡ others_of DbMetric.connection_id id db.db_metrics.rows
  pub performance_metrics :
      others_of PerformanceMetric.connection_id id db'.performance_metrics.rows
      ≡ others_of PerformanceMetric.connection_id id db.performance_metrics.rows
  pub autovacuum_info :
      others_of AutovacuumInfo.connection_id id db'.autovacuum_info.rows
      ≡ others_of AutovacuumInfo.connection_id id db.autovacuum_info.rows
  pub lock_info :
      others_of LockInfo.connection_id id db'.lock_info.rows
      ≡ others_of LockInfo.connection_id id db.lock_info.rows
  pub replication_lag :
      others_of ReplicationLag.connection_id id db'.replication_lag.rows
      ≡ others_of ReplicationLag.connection_id id db.replication_lag.rows
  pub table_metrics :
      others_of TableMetric.connection_id id db'.table_metrics.rows
      ≡ others_of TableMetric.connection_id id db.table_metrics.rows

append_nil : {A : Type 0} (xs : List A) → xs ++ [] ≡ xs
append_nil [] = refl
append_nil (x ∷ xs) = ap (◌∷◌ x) (append_nil xs)

stored_or_refused :
    {A : Type 0} (p : A → Bool) (there small : Bool) (e e' : String) (row : A) (rows rows' : List A)
    → p row ≡ false
    → (if there then if small then ok (rows ++ (row ∷ [])) else err e else err e') ≡ ok rows'
    → filter p rows' ≡ filter p rows
stored_or_refused p there small e e' row rows rows' own done =
    let split = filter-append p rows (row ∷ []) in
    let same : rows ++ (row ∷ []) ≡ rows' = ground (arith, done) in
    subst (λ rs. filter p rs ≡ filter p rows) same (split ∙ rw own (append_nil (filter p rows)))

insert_into-others_of :
    {A : Type 0} (connection_of : A → String) (id : String) (cat : Catalog) (name : String)
    (columns : List String) (integers : List ℕ) (row : A) (t : Table A)
    → (connection_of row == id) ≡ true
    → others_of connection_of id (insert_into cat name columns integers row t).1.rows
      ≡ others_of connection_of id t.rows
unfolding insert_into
insert_into-others_of connection_of id cat name columns integers row t own =
    exec_keeps (λ rows. others_of connection_of id rows ≡ others_of connection_of id t.rows) _ t
      refl
      (λ rows e.
        stored_or_refused (λ r. not (connection_of r == id)) (has_columns name columns cat)
          (all (λ n. ltb n (2 ^ 31)) integers) _ _ row t.rows rows (ap not own) e)

module _ {R : Floats} where
  pub unchanged : (id : String) (db : Database R) → HasSameOthers id db db
  unchanged id db = record {
    health_checks = refl;
    db_metrics = refl;
    performance_metrics = refl;
    autovacuum_info = refl;
    lock_info = refl;
    replication_lag = refl;
    table_metrics = refl;
  }

  pub then_also :
      (id : String) (a b c : Database R)
      → HasSameOthers id a b
      → HasSameOthers id b c
      → HasSameOthers id a c
  then_also id a b c h k = record {
    health_checks = k.health_checks ∙ h.health_checks;
    db_metrics = k.db_metrics ∙ h.db_metrics;
    performance_metrics = k.performance_metrics ∙ h.performance_metrics;
    autovacuum_info = k.autovacuum_info ∙ h.autovacuum_info;
    lock_info = k.lock_info ∙ h.lock_info;
    replication_lag = k.replication_lag ∙ h.replication_lag;
    table_metrics = k.table_metrics ∙ h.table_metrics;
  }

  -- A statement of the store that keeps the other rows for each row of the connection.
  abbrev pub IsLocal :
      {A : Type 0} → (A → String) → (A → Database R → Option String × Database R) → Type 0
  IsLocal {A} connection_of save =
      (id : String) (a : A) (db : Database R)
      → (connection_of a == id) ≡ true
      → HasSameOthers id db (save a db).1

  pub record_health_check-IsLocal : IsLocal HealthCheck.connection_id record_health_check
  unfolding record_health_check
  record_health_check-IsLocal id a db own = record {
    health_checks =
        insert_into-others_of HealthRow.connection_id id db.catalog _ _ _ _ db.health_checks own;
    db_metrics = refl;
    performance_metrics = refl;
    autovacuum_info = refl;
    lock_info = refl;
    replication_lag = refl;
    table_metrics = refl;
  }

  pub record_db_metric-IsLocal : IsLocal DbMetric.connection_id record_db_metric
  unfolding record_db_metric
  record_db_metric-IsLocal id a db own = record {
    health_checks = refl;
    db_metrics =
        insert_into-others_of DbMetric.connection_id id db.catalog _ _ _ _ db.db_metrics own;
    performance_metrics = refl;
    autovacuum_info = refl;
    lock_info = refl;
    replication_lag = refl;
    table_metrics = refl;
  }

  pub record_performance_metric-IsLocal :
      IsLocal PerformanceMetric.connection_id record_performance_metric
  unfolding record_performance_metric
  record_performance_metric-IsLocal id a db own = record {
    health_checks = refl;
    db_metrics = refl;
    performance_metrics =
        insert_into-others_of PerformanceMetric.connection_id id db.catalog _ _ _ _
          db.performance_metrics own;
    autovacuum_info = refl;
    lock_info = refl;
    replication_lag = refl;
    table_metrics = refl;
  }

  pub record_autovacuum_info-IsLocal : IsLocal AutovacuumInfo.connection_id record_autovacuum_info
  unfolding record_autovacuum_info
  record_autovacuum_info-IsLocal id a db own = record {
    health_checks = refl;
    db_metrics = refl;
    performance_metrics = refl;
    autovacuum_info =
        insert_into-others_of AutovacuumInfo.connection_id id db.catalog _ _ _ _ db.autovacuum_info
          own;
    lock_info = refl;
    replication_lag = refl;
    table_metrics = refl;
  }

  pub record_lock_info-IsLocal : IsLocal LockInfo.connection_id record_lock_info
  unfolding record_lock_info
  record_lock_info-IsLocal id a db own = record {
    health_checks = refl;
    db_metrics = refl;
    performance_metrics = refl;
    autovacuum_info = refl;
    lock_info = insert_into-others_of LockInfo.connection_id id db.catalog _ _ _ _ db.lock_info own;
    replication_lag = refl;
    table_metrics = refl;
  }

  pub record_replication_lag-IsLocal : IsLocal ReplicationLag.connection_id record_replication_lag
  unfolding record_replication_lag
  record_replication_lag-IsLocal id a db own = record {
    health_checks = refl;
    db_metrics = refl;
    performance_metrics = refl;
    autovacuum_info = refl;
    lock_info = refl;
    replication_lag =
        insert_into-others_of ReplicationLag.connection_id id db.catalog _ _ _ _ db.replication_lag
          own;
    table_metrics = refl;
  }

  pub record_table_metric-IsLocal : IsLocal TableMetric.connection_id record_table_metric
  unfolding record_table_metric
  record_table_metric-IsLocal id a db own = record {
    health_checks = refl;
    db_metrics = refl;
    performance_metrics = refl;
    autovacuum_info = refl;
    lock_info = refl;
    replication_lag = refl;
    table_metrics =
        insert_into-others_of TableMetric.connection_id id db.catalog _ _ _ _ db.table_metrics own;
  }
