-- ===== src/Connection/Handler.antt =====
-- internal/connection/handler.go. A list that is nil is written as an empty one.
pub mod Passwords
pub mod Health
use backupeer.Prelude.{
  ℕ, String, Bool, true, false, Option, none, some, List, [], ◌∷◌, ◌||◌, Result, ok, err, ◌<>◌,
  ◌==◌, format_int, map, ltb, wrap, if◌then◌else◌,
}
use backupeer.Http.{Response, write_error, write_json}
use backupeer.Table.{Table, query}
use backupeer.Connection.{Connection, ConnectionDatabase, get_by_id}
use backupeer.Connection.Service.{with_default_mode, create, update, delete}
use backupeer.Connection.Databases.{Servers, discover, list_databases, update_selection}

abbrev pub without_password : Connection → Connection
without_password c = record c { password = "" }

-- `ConnectionRepo.List`, which does not select the password; `by_name` is ORDER BY name.
unfoldable pub list :
    (List Connection → List Connection)
    → Table Connection
    → Result (List Connection) × Table Connection
list by_name t =
    let answer = query (λ rows. map without_password (by_name rows)) t in
    (wrap "list connections: " answer.0, answer.1)

unfoldable pub handle_list :
    (List Connection → List Connection)
    → Table Connection
    → Response (List Connection) × Table Connection
unfolding list
handle_list by_name t =
    let answer = list by_name t in
    (elim answer.0 [ err e ↦ write_error 500 e | ok conns ↦ write_json 200 conns ], answer.1)

-- `none` stands for a body that cannot be decoded; `test` is the attempt to reach the server.
unfoldable pub handle_create :
    (Connection → Option String)
    → String
    → ℕ
    → Option Connection
    → Table Connection
    → Response Connection × Table Connection
handle_create test id now none t = (write_error 400 "invalid request body", t)
handle_create test id now (some c) t =
    let done = create test id now c t in
    (
      elim done.0 [
        | some e ↦ write_error 400 e
        | none ↦
            write_json 201
              (record (with_default_mode c) { id = id; created_at = now; updated_at = now })
      ],
      done.1,
    )

unfoldable pub handle_get : String → Table Connection → Response Connection × Table Connection
handle_get id t =
    let answer = get_by_id id t in
    (
      elim answer.0 [
        | err e ↦ write_error 500 e
        | ok none ↦ write_error 404 "connection not found"
        | ok (some c) ↦ write_json 200 (without_password c)
      ],
      answer.1,
    )

unfoldable pub handle_update :
    String → ℕ → Option Connection → Table Connection → Response Connection × Table Connection
handle_update id now none t = (write_error 400 "invalid request body", t)
handle_update id now (some c) t =
    let done = update now (record c { id = id }) t in
    (
      elim done.0 [
        | some e ↦ write_error 400 e
        | none ↦ write_json 200 (record c { id = id; updated_at = now })
      ],
      done.1,
    )

unfoldable pub handle_delete :
    String → Table Connection → Response (Option Connection) × Table Connection
handle_delete id t =
    let done = delete id t in
    (elim done.0 [ some e ↦ write_error 500 e | none ↦ write_json 204 none ], done.1)

-- The error of the test, if any, is part of a successful answer. Without an identifier the body is
-- tested.
unfoldable pub handle_test :
    (Connection → Option String)
    → String
    → Option Connection
    → Table Connection
    → Response (Option String) × Table Connection
handle_test test id body t =
    let answer = get_by_id id t in
    if id == "_new" || id == ""
    then (elim body [
      | none ↦ (write_error 400 "invalid request body", t)
      | some c ↦ (write_json 200 (test c), t)
    ])
    else (
      elim answer.0 [
        | err _ ↦ write_error 404 "connection not found"
        | ok none ↦ write_error 404 "connection not found"
        | ok (some c) ↦ write_json 200 (test c)
      ],
      answer.1,
    )

-- A driver and the text that it is opened with.
abbrev pub Dsn : Type 0
Dsn = String × String

-- `openSourceDB`, up to the driver.
unfoldable pub source_dsn : Connection → Result Dsn
source_dsn c =
    let server = c.host <> ":" <> format_int c.port in
    let tls = "/?tls=" <> c.ssl_mode <> "&timeout=5s&charset=utf8mb4" in
    if c.db_type == "postgresql"
    then ok (
      "pgx",
      "host="
          <> c.host
          <> " port="
          <> format_int c.port
          <> " user="
          <> c.username
          <> " password="
          <> c.password
          <> " dbname=postgres sslmode="
          <> c.ssl_mode
          <> " connect_timeout=5",
    )
    else if c.db_type == "mysql"
    then ok ("mysql", c.username <> ":" <> c.password <> "@tcp(" <> server <> ")" <> tls)
    else if c.db_type == "mariadb"
    then ok (
      "mysql",
      c.username <> ":" <> c.password <> "@tcp(" <> server <> ")" <> tls <> "&multiStatements=true",
    )
    else err ("unsupported database type: " <> c.db_type)

-- What a server answers: `sql.Open`, `Ping` and its time in milliseconds, and the queries for the
-- active connections, the second of which MySQL is asked when the first fails.
pub record Server : Type 0 where
  pub opens : Dsn → Option String
  pub ping : Option String
  pub elapsed : ℕ
  pub active : Result ℕ
  pub processes : Result ℕ

abbrev pub count_or : ℕ → Result ℕ → ℕ
count_or n (ok m) = m
count_or n (err e) = n

unfoldable pub query_active_conns : String → Server → ℕ
query_active_conns db_type s =
    if db_type == "postgresql"
    then count_or 0 s.active
    else if db_type == "mysql" || db_type == "mariadb"
    then count_or (count_or 0 s.processes) s.active
    else 0

-- The JSON of handleHealth.
pub record HealthReport : Type 0 where
  pub connection_id : String
  pub name : String
  pub db_type : String
  pub host : String
  pub port : ℕ
  pub time : ℕ
  pub status : String
  pub error : Option String
  pub response_time_ms : Option ℕ
  pub active_connections : Option ℕ

-- The error of `openSourceDB`.
unfoldable pub open_error : Server → Connection → Option String
unfolding source_dsn
open_error s c = elim (source_dsn c) [ err e ↦ some e | ok dsn ↦ s.opens dsn ]

-- The check, once the server was opened with this error.
unfoldable pub report : ℕ → Server → Connection → Option String → HealthReport
unfolding query_active_conns
report now s c opening =
    let health : String → Option String → Option ℕ → Option ℕ → HealthReport =
      λ status error elapsed active. record {
        connection_id = c.id;
        name = c.name;
        db_type = c.db_type;
        host = c.host;
        port = c.port;
        time = now;
        status = status;
        error = error;
        response_time_ms = elapsed;
        active_connections = active;
      } in
    let active = some (query_active_conns c.db_type s) in
    elim opening [
      | some e ↦ health "down" (some e) none none
      | none ↦ elim s.ping [
        | some e ↦ health "down" (some e) (some s.elapsed) none
        | none ↦
            if ltb s.elapsed 1000
            then health "healthy" none (some s.elapsed) active
            else if ltb s.elapsed 5000
            then health "degraded" none (some s.elapsed) active
            else health "down" (some ("high response time: " <> format_int s.elapsed <> "ms"))
                (some s.elapsed) active
      ]
    ]

unfoldable pub check_health : ℕ → Server → Connection → HealthReport
unfolding report open_error
check_health now s c = report now s c (open_error s c)

unfoldable pub handle_health :
    ℕ → Server → String → Table Connection → Response HealthReport × Table Connection
unfolding check_health
handle_health now s id t =
    let answer = get_by_id id t in
    (
      elim answer.0 [
        | err _ ↦ write_error 404 "connection not found"
        | ok none ↦ write_error 404 "connection not found"
        | ok (some c) ↦ write_json 200 (check_health now s c)
      ],
      answer.1,
    )

-- The handlers of the databases.
unfoldable pub handle_list_databases :
    (List ConnectionDatabase → List ConnectionDatabase)
    → String
    → Table ConnectionDatabase
    → Response (List ConnectionDatabase) × Table ConnectionDatabase
handle_list_databases sort connection_id t =
    let answer = list_databases sort connection_id t in
    (elim answer.0 [ err e ↦ write_error 500 e | ok dbs ↦ write_json 200 dbs ], answer.1)

unfoldable pub handle_discover :
    (ℕ → String)
    → ℕ
    → (List ConnectionDatabase → List ConnectionDatabase)
    → (Connection → Result (List String))
    → String
    → Servers
    → Response (List ConnectionDatabase) × Servers
handle_discover ids now sort probe connection_id w =
    let answer = discover ids now sort probe connection_id w in
    (elim answer.0 [ err e ↦ write_error 500 e | ok dbs ↦ write_json 200 dbs ], answer.1)

unfoldable pub handle_update_database :
    String
    → Option Bool
    → Table ConnectionDatabase
    → Response (Option ConnectionDatabase) × Table ConnectionDatabase
handle_update_database id none t = (write_error 400 "invalid request body", t)
handle_update_database id (some selected) t =
    let done = update_selection id selected t in
    (elim done.0 [ some e ↦ write_error 500 e | none ↦ write_json 204 none ], done.1)
