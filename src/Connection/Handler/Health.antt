-- ===== src/Connection/Handler/Health.antt =====
-- The two health checks of the program: handleHealth of internal/connection/handler.go and
-- collectHealth of internal/monitoring/collector.go.
use backupeer.Prelude.{
  ℕ, ◌≡◌, ◌∙◌, refl, ap, String, Bool, false, Option, some, Result, ok, err, arith, Bool-cases, inl,
  inr, ◌==◌, ◌||◌, eq_iff, if◌then◌else◌,
}
use backupeer.Connection.{Connection}
use backupeer.Connection.Handler.{Server, Dsn, open_error, source_dsn, report, check_health}
use backupeer.Monitoring.{Probe, collect_health}
use backupeer.Monitoring.Source.{open_source_db, tls_mode_for_mysql}

-- The error of opening what the collector opens.
abbrev pub opened : Server → Result Dsn → Option String
opened s (err e) = some e
opened s (ok dsn) = s.opens dsn

-- What the collector meets at the same server, with some number of active connections.
abbrev pub probe_of : Server → ℕ → Connection → Probe
probe_of s active c = record {
  connect = opened s (open_source_db c);
  ping = s.ping;
  elapsed = s.elapsed;
  active = active;
}

abbrev is_mysql : Connection → Bool
is_mysql c = c.db_type == "mysql" || c.db_type == "mariadb"

-- The connection with its SSL mode in the words of the MySQL driver.
abbrev pub translated : Connection → Connection
translated c = record c {
  ssl_mode = if is_mysql c then tls_mode_for_mysql c.ssl_mode else c.ssl_mode;
}

source_dsn-translated : (c : Connection) → source_dsn (translated c) ≡ open_source_db c
unfolding source_dsn open_source_db
source_dsn-translated c = elim (Bool-cases (c.db_type == "postgresql")) [
  | inl pg ↦
      let other : is_mysql c ≡ false = ground (
        arith,
        eq_iff c.db_type "postgresql",
        eq_iff c.db_type "mysql",
        eq_iff c.db_type "mariadb",
        eq_iff "postgresql" "mysql",
        eq_iff "postgresql" "mariadb",
      ) in
      rw (pg, other) refl
  | inr rest ↦ elim (Bool-cases (c.db_type == "mysql")) [
    | inl my ↦ rw (rest, my) refl
    | inr still ↦ elim (Bool-cases (c.db_type == "mariadb")) [
      | inl maria ↦ rw (rest, still, maria) refl
      | inr unknown ↦ rw (rest, still, unknown) refl
    ]
  ]
]

status-report :
    (now active : ℕ) (s : Server) (c : Connection) (id : String) (opening : Option String)
    → (report now s c opening).status
      ≡ (collect_health now id (record {
        connect = opening;
        ping = s.ping;
        elapsed = s.elapsed;
        active = active;
      })).status
unfolding report collect_health
status-report now active s c id opening = ground arith

open_error-opened : (s : Server) (c : Connection) → open_error s c ≡ opened s (source_dsn c)
unfolding open_error
open_error-opened s c = ground arith

-- The live check of a connection whose SSL mode is in the words of the driver gives the status that
-- the collector's check gives for the connection as it is stored. For PostgreSQL nothing is
-- translated, so there the two agree.
pub check_health-collect_health :
    (now active : ℕ) (s : Server) (c : Connection)
    → (check_health now s (translated c)).status
      ≡ (collect_health now c.id (probe_of s active c)).status
unfolding check_health
check_health-collect_health now active s c =
    let opening = opened s (open_source_db c) in
    let same = open_error-opened s (translated c) ∙ ap (opened s) (source_dsn-translated c) in
    ap (λ o. (report now s (translated c) o).status) same
    ∙ status-report now active s (translated c) c.id opening
