-- ===== src/Backup/Dump.antt =====
-- `buildDumpCmd` of internal/backup/service.go: the command that a full backup reads from.
use backupeer.Prelude.{
  String, Option, none, some, List, [], ◌∷◌, ◌||◌, ◌<>◌, ◌==◌, format_int, if◌then◌else◌,
}
use backupeer.Connection.{Connection}

-- A command: the program, its arguments, and what is added to the environment.
pub record Command : Type 0 where
  pub program : String
  pub args : List String
  pub env : List String

abbrev pub dump_tool : (String → Option String) → Connection → String
dump_tool look_path c =
    if c.db_type == "mariadb"
    then elim (look_path "mariadb-dump") [ none ↦ "mariadb-dump" | some _ ↦ "mysqldump" ]
    else "mysqldump"

-- `look_path` is `exec.LookPath`. For another type of database, a program that fails.
unfoldable pub build_dump_cmd : (String → Option String) → Connection → String → Command
build_dump_cmd look_path c db_name =
    if c.db_type == "postgresql"
    then record {
      program = "pg_dump";
      args =
          "-h"
          ∷ c.host
          ∷ "-p"
          ∷ format_int c.port
          ∷ "-U"
          ∷ c.username
          ∷ "-d"
          ∷ db_name
          ∷ "--no-password"
          ∷ "--clean"
          ∷ "--if-exists"
          ∷ "--format=c"
          ∷ [];
      env = ("PGPASSWORD=" <> c.password) ∷ [];
    }
    else if c.db_type == "mysql" || c.db_type == "mariadb"
    then record {
      program = dump_tool look_path c;
      args =
          "-h"
          ∷ c.host
          ∷ "-P"
          ∷ format_int c.port
          ∷ "-u"
          ∷ c.username
          ∷ ("--password=" <> c.password)
          ∷ "--single-transaction"
          ∷ "--routines"
          ∷ "--triggers"
          ∷ "--events"
          ∷ db_name
          ∷ [];
      env = [];
    }
    else record { program = "false"; args = []; env = [] }
