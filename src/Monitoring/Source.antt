-- ===== src/Monitoring/Source.antt =====
-- How internal/monitoring/collector.go opens the servers that it watches.
use backupeer.Prelude.{String, Result, ok, err, ◌||◌, ◌<>◌, ◌==◌, format_int, if◌then◌else◌}
use backupeer.Connection.{Connection}

-- `tlsModeForMySQL`
unfoldable pub tls_mode_for_mysql : String → String
tls_mode_for_mysql mode = if mode == "disable" || mode == "allow" then "false" else "skip-verify"

-- `openSourceDB`, up to the driver: its name and the text that it is opened with.
unfoldable pub open_source_db : Connection → Result (String × String)
unfolding tls_mode_for_mysql
open_source_db c =
    let server = c.host <> ":" <> format_int c.port in
    let tls = "/?tls=" <> tls_mode_for_mysql c.ssl_mode <> "&timeout=5s&charset=utf8mb4" in
    if c.db_type == "postgresql"
    then ok (
      "pgx",
      "host="
          <> c.host
          <> " port="
          <> format_int c.port
          <> " user="
          <> c.username
          <> " password="
          <> c.password
          <> " dbname=postgres sslmode="
          <> c.ssl_mode
          <> " connect_timeout=5",
    )
    else if c.db_type == "mysql"
    then ok ("mysql", c.username <> ":" <> c.password <> "@tcp(" <> server <> ")" <> tls)
    else if c.db_type == "mariadb"
    then ok (
      "mysql",
      c.username <> ":" <> c.password <> "@tcp(" <> server <> ")" <> tls <> "&multiStatements=true",
    )
    else err ("unsupported database type: " <> c.db_type)
