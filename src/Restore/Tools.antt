-- ===== src/Restore/Tools.antt =====
-- The programs that internal/restore/service.go hands the decompressed backup to (executeRestore,
-- pgRestore and mySQLRestore).
pub mod Database
use backupeer.Prelude.{
  ℕ, String, Option, none, some, List, [], ◌∷◌, ◌||◌, ◌<>◌, ◌==◌, format_int, if◌then◌else◌,
}
use backupeer.Connection.{Connection}
use backupeer.Backup.Dump.{Command}

-- What a program answers to its input: an error with what it printed.
pub record Programs : Type 0 where
  pub look_path : String → Option String
  pub run : Command → List ℕ → Option (String × String)

abbrev pub pg_restore_command : Connection → Command
pg_restore_command c = record {
  program = "pg_restore";
  args =
      "-h"
      ∷ c.host
      ∷ "-p"
      ∷ format_int c.port
      ∷ "-U"
      ∷ c.username
      ∷ "--clean"
      ∷ "--if-exists"
      ∷ "--dbname"
      ∷ "postgres"
      ∷ [];
  env = ("PGPASSWORD=" <> c.password) ∷ [];
}

unfoldable pub pg_restore : Programs → Connection → List ℕ → Option String
pg_restore p c dump = elim (p.run (pg_restore_command c) dump) [
  | none ↦ none
  | some (e, stderr) ↦ some ("pg_restore: " <> e <> "\nstderr: " <> stderr)
]

abbrev pub mysql_tool : Programs → Connection → String
mysql_tool p c =
    if c.db_type == "mariadb"
    then elim (p.look_path "mariadb") [ none ↦ "mariadb" | some _ ↦ "mysql" ]
    else "mysql"

abbrev pub mysql_command : Programs → Connection → Command
mysql_command p c = record {
  program = mysql_tool p c;
  args =
      "-h"
      ∷ c.host
      ∷ "-P"
      ∷ format_int c.port
      ∷ "-u"
      ∷ c.username
      ∷ ("--password=" <> c.password)
      ∷ [];
  env = [];
}

unfoldable pub mysql_restore : Programs → Connection → List ℕ → Option String
mysql_restore p c dump = elim (p.run (mysql_command p c) dump) [
  | none ↦ none
  | some (e, stderr) ↦ some (mysql_tool p c <> " restore: " <> e <> "\nstderr: " <> stderr)
]

-- The tool of a run (`Steps.tool`): an unsupported type is an error that names it.
unfoldable pub restore_tool : Programs → Connection → List ℕ → Option String
unfolding pg_restore mysql_restore
restore_tool p c dump =
    if c.db_type == "postgresql"
    then pg_restore p c dump
    else if c.db_type == "mysql" || c.db_type == "mariadb"
    then mysql_restore p c dump
    else some ("unsupported database type: " <> c.db_type)
