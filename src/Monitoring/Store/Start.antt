-- ===== src/Monitoring/Store/Start.antt =====
-- The tables that internal/monitoring/store.go finds after a start of the program.
use backupeer.Prelude.{
  ◌<◌, ◌^◌, ◌≡◌, ◌∙◌, refl, ap, String, Bool, true, false, none, some, List, [], ◌∷◌, ◌++◌, ok,
  arith, all, ltb, is_one_of, map_get, map_get-map_set, Option-cases, inl, inr, ◌==◌, eq_iff,
  if◌then◌else◌,
}
use backupeer.Monitoring.Catalog.{
  Catalog, create_table, add_column, migrated, migrate, sample_columns, create_each,
  create_hypertables, Server, open_database,
}
use backupeer.Monitoring.{HealthCheck}
use backupeer.Monitoring.Samples.{Floats, DbMetric}
use backupeer.Monitoring.Store.Laws.{insert_into_calm, insert_into_refused}
use backupeer.Monitoring.Store.{
  Database, has_columns, metric_columns, health_columns, undefined_column, record_health_check,
  record_db_metric,
}

map_get-create_table :
    (k name : String) (columns : List String) (cat : Catalog)
    → map_get k (create_table name columns cat) ≡ (
        if name == k
        then some (elim (map_get k cat) [ none ↦ columns | some old ↦ old ])
        else map_get k cat)
map_get-create_table k name columns cat =
    ground (arith, map_get-map_set k name columns cat, eq_iff name k)

map_get-add_column :
    (k name column : String) (cat : Catalog)
    → map_get k (add_column name column cat) ≡ (
        if name == k
        then elim (map_get k cat) [
          | none ↦ none
          | some old ↦ some (if is_one_of column old then old else old ++ (column ∷ []))
        ]
        else map_get k cat)
map_get-add_column k name column cat = elim (Option-cases (map_get name cat)) [
  | inl e ↦ ground (arith, e, eq_iff name k)
  | inr (old, e) ↦
      ground (arith, e, eq_iff name k, map_get-map_set k name (old ++ (column ∷ [])) cat)
]

-- What the statements of `migrate` leave of the tables that they do not create.
health_checks-migrated :
    (cat : Catalog) → map_get "health_checks" (migrated cat) ≡ map_get "health_checks" cat
unfolding migrated
health_checks-migrated cat = simp (map_get-create_table, map_get-add_column)

add_both : List String → List String
add_both old =
    let first = if is_one_of "max_connections" old then old else old ++ ("max_connections" ∷ []) in
    if is_one_of "conn_usage_percent" first then first else first ++ ("conn_usage_percent" ∷ [])

db_metrics-migrated :
    (cat : Catalog)
    → map_get "db_metrics" (migrated cat)
      ≡ (elim (map_get "db_metrics" cat) [ none ↦ none | some old ↦ some (add_both old) ])
unfolding migrated add_both
db_metrics-migrated cat = elim (Option-cases (map_get "db_metrics" cat)) [
  | inl e ↦ rw e (simp (map_get-create_table, map_get-add_column, e))
  | inr (old, e) ↦ rw e (simp (map_get-create_table, map_get-add_column, e))
]

-- A server on which a start succeeds, with or without TimescaleDB.
pub record IsUp (s : Server) (extension : Bool) : Type 0 where
  pub connects : s.connect ≡ none
  pub pings : s.ping ≡ none
  pub migrates : s.schema ≡ none
  pub installed : s.extension ≡ ok extension
  pub creates : (t : String) → s.create_fault t ≡ none

opened_without :
    (s : Server) (cat : Catalog) → IsUp s false → (open_database s cat).1 ≡ migrated cat
unfolding open_database migrate create_hypertables
opened_without s cat up = rw (up.connects, up.pings, up.migrates, up.installed) refl

opened_with :
    (s : Server) (cat : Catalog)
    → IsUp s true
    → map_get "db_metrics" (open_database s cat).1
      ≡ some (elim (map_get "db_metrics" (migrated cat)) [ none ↦ sample_columns | some old ↦ old ])
unfolding open_database migrate create_hypertables create_each
opened_with s cat up =
    rw (up.connects, up.pings, up.migrates, up.installed) (simp (up.creates, map_get-create_table))

has_columns_missing :
    (name : String) (columns : List String) (cat : Catalog)
    → map_get name cat ≡ none
    → has_columns name columns cat ≡ false
unfolding has_columns
has_columns_missing name columns cat e = rw (e, has_columns) refl

has_columns_there :
    (name : String) (columns : List String) (cat : Catalog) (there : List String)
    → map_get name cat ≡ some there
    → has_columns name columns cat ≡ all (λ c. is_one_of c there) columns
unfolding has_columns
has_columns_there name columns cat there e = rw (e, has_columns) refl

module _ {R : Floats} where
  -- Without TimescaleDB no start creates the table of the health checks: where it is missing, every
  -- health check is refused after the start too.
  pub record_health_check_refused :
      (s : Server) (h : HealthCheck) (db : Database R)
      → IsUp s false
      → map_get "health_checks" db.catalog ≡ none
      → db.health_checks.faults ≡ []
      → (record_health_check h (record db { catalog = (open_database s db.catalog).1 })).0
        ≡ some undefined_column
  unfolding record_health_check
  record_health_check_refused s h db up missing calm =
      let gone =
        ap (map_get "health_checks") (opened_without s db.catalog up)
        ∙ health_checks-migrated db.catalog
        ∙ missing in
      insert_into_refused _ "health_checks" health_columns _ _ db.health_checks calm
        (has_columns_missing "health_checks" health_columns _ gone)

  -- With TimescaleDB, the first start on a database without db_metrics creates that table without two
  -- of the columns that its INSERT names, so every metric is refused; after a second start they are
  -- there, and a metric whose counts fit their columns is stored.
  pub record_db_metric_second_start :
      (s : Server) (m : DbMetric R) (db : Database R)
      → IsUp s true
      → map_get "db_metrics" db.catalog ≡ none
      → db.db_metrics.faults ≡ []
      → m.qps < 2 ^ 31
      → m.connections_total < 2 ^ 31
      → m.max_connections < 2 ^ 31
      → ((record_db_metric m (record db { catalog = (open_database s db.catalog).1 })).0
          ≡ some undefined_column)
        × ((record_db_metric m
              (record db { catalog = (open_database s (open_database s db.catalog).1).1 })).0
            ≡ none)
  unfolding record_db_metric add_both
  record_db_metric_second_start s m db up missing calm qps total most =
      let once = (open_database s db.catalog).1 in
      let twice = (open_database s once).1 in
      let created : map_get "db_metrics" once ≡ some sample_columns =
        opened_with s db.catalog up ∙ rw (db_metrics-migrated db.catalog, missing) refl in
      let completed : map_get "db_metrics" twice ≡ some (add_both sample_columns) =
        opened_with s once up ∙ rw (db_metrics-migrated once, created) refl in
      let lacks : has_columns "db_metrics" metric_columns once ≡ false =
        has_columns_there "db_metrics" metric_columns once sample_columns created in
      let complete : has_columns "db_metrics" metric_columns twice ≡ true =
        has_columns_there "db_metrics" metric_columns twice (add_both sample_columns) completed in
      let small : all (λ n. ltb n (2 ^ 31)) (m.qps ∷ m.connections_total ∷ m.max_connections ∷ [])
          ≡ true =
        ground arith in
      (
        insert_into_refused _ "db_metrics" metric_columns _ _ db.db_metrics calm lacks,
        ap (λ a. a.0)
            (insert_into_calm _ "db_metrics" metric_columns _ _ db.db_metrics calm complete small),
      )
