-- ===== src/Startup.antt =====
-- cmd/jagad/main.go: what the start of the program decides before it serves requests. The logger, the
-- signals and the HTTP server are not modelled.
use backupeer.Prelude.{
  String, Bool, true, false, not, Option, none, some, List, [], ◌∷◌, ◌<>◌, ◌==◌, any, if◌then◌else◌,
}
use backupeer.Configuration.{Config}
use backupeer.Monitoring.Catalog.{Catalog, Server, open_database}
use backupeer.Backup.Service as Backups
use backupeer.Backup.Service.{IncrementalEngine}
use backupeer.Backup.Engines.XtraBackup as XtraBackup
use backupeer.Backup.Engines.XtraBackup.{xtra_backup_engine}
use backupeer.Backup.Engines.Mariabackup.{mariabackup_engine}
use backupeer.Backup.Engines.PgBackRest as PgBackRest
use backupeer.Backup.Engines.PgBackRest.{pgbackrest_engine}

-- The programs that `checkRequiredTools` looks for, by what they are for.
abbrev pub required_tools : List (String × List String)
required_tools =
    ("PostgreSQL", "pg_dump" ∷ "pg_restore" ∷ [])
    ∷ ("MySQL", "mysqldump" ∷ "mysql" ∷ [])
    ∷ ("MariaDB", "mariadb-dump" ∷ "mariadb" ∷ "mysqldump" ∷ "mysql" ∷ [])
    ∷ ("pgBackRest (incremental PG)", "pgbackrest" ∷ [])
    ∷ ("XtraBackup (incremental MySQL)", "xtrabackup" ∷ [])
    ∷ ("Mariabackup (incremental MariaDB)", "mariabackup" ∷ "xtrabackup" ∷ [])
    ∷ []

abbrev pub is_found : (String → Option String) → String → Bool
is_found look_path program = elim (look_path program) [ none ↦ true | some _ ↦ false ]

-- The warnings: a group is missing when none of its programs is found.
unfoldable pub missing_tools : (String → Option String) → List (String × List String) → List String
missing_tools look_path [] = []
missing_tools look_path ((name, programs) ∷ tools) =
    let rest = missing_tools look_path tools in
    if any (is_found look_path) programs then rest else (name <> " tools not found in PATH") ∷ rest

-- Without the URL of a database, and when it cannot be opened, the program exits.
unfoldable pub open_configured : Config → Server → Catalog → Option String × Catalog
open_configured cfg server cat =
    if cfg.database_url == ""
    then (some "JAGAD_DATABASE_URL is required", cat)
    else open_database server cat

-- The engines in the order of their registration.
abbrev pub registered_engines : PgBackRest.Host → XtraBackup.Host → List IncrementalEngine
registered_engines pg xtra =
    pgbackrest_engine pg ∷ xtra_backup_engine xtra ∷ mariabackup_engine xtra ∷ []

-- How the backup service is wired: encryption only with a key, and always a notifier and the engines.
unfoldable pub backup_config : Config → PgBackRest.Host → XtraBackup.Host → Backups.Config
backup_config cfg pg xtra = record {
  has_encryption = not (cfg.encryption_key == "");
  has_notifier = true;
  engines = some (registered_engines pg xtra);
}

-- The answer of GET /api/health.
pub record Health : Type 0 where
  pub status : String
  pub version : String
  pub database : String
  pub encryption : Bool
  pub providers : Bool

unfoldable pub health : String → Config → Health
health version cfg = record {
  status = "ok";
  version = version;
  database = "postgresql";
  encryption = not (cfg.encryption_key == "");
  providers = true;
}
