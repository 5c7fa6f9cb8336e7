-- ===== src/Backup/Engines/PgBackRest.antt =====
-- internal/backup/pgbackrest.go: the engine for PostgreSQL. The temporary files and the program
-- pgbackrest are parameters.
pub mod Config
pub mod Stanza
use backupeer.Prelude.{
  String, Option, none, some, List, [], ◌∷◌, Result, ok, err, ◌<>◌, format_int, not, if◌then◌else◌,
}
use backupeer.Encryption.Binary.{Bytes}
use backupeer.Connection.{Connection}
use backupeer.Storage.{Provider}
use backupeer.Backup.Service.{IncrementalSchedule, IncrementalEngine, Metadata}
use backupeer.Backup.Engines.{resolve_provider}
use backupeer.Backup.Engines.PgBackRest.Config.{ConfigData, config_text}
use backupeer.Backup.Engines.PgBackRest.Stanza.{sanitize_stanza_name}

-- Around a run: `GetDecrypted`, the text that a provider's bytes are, `filepath.Join` under
-- `os.TempDir()`, the file system, and the program with its arguments, whose answer is an error
-- with what it printed.
pub record Host : Type 0 where
  pub get_decrypted : String → Result (Option Provider)
  pub text_of : Bytes → String
  pub temp_path : List String → String
  pub mkdir_all : String → Option String
  pub write_file : String → String → Option String
  pub pgbackrest : List String → Option (String × String)

-- What a run does to the machine, in order.
pub data Step : Type 0 where
  made_dir : String → Step
  wrote : String → String → Step
  ran : List String → Step

unfoldable pub config_data : Host → IncrementalSchedule → Connection → Provider → ConfigData
unfolding sanitize_stanza_name
config_data h sch c p = record {
  stanza = sanitize_stanza_name c.name;
  host = c.host;
  port = format_int c.port;
  database = "";
  user = c.username;
  password = c.password;
  bucket = p.bucket;
  region = p.region;
  endpoint = p.endpoint;
  access_key = h.text_of p.access_key;
  secret_key = h.text_of p.secret_key;
  path_style = if not p.path_style then "virtual-hosted" else "path";
  base_path = "pgbackrest/" <> c.name;
  retention_full = 2;
  retention_diff = 2;
  retention_archive = 0;
}

abbrev pub config_dir : Host → IncrementalSchedule → String
config_dir h sch = h.temp_path ("jagad" ∷ "pgbackrest" ∷ sch.id ∷ [])

abbrev pub config_path : Host → IncrementalSchedule → String
config_path h sch = h.temp_path ("jagad" ∷ "pgbackrest" ∷ sch.id ∷ "pgbackrest.conf" ∷ [])

abbrev pub stanza_args : Host → IncrementalSchedule → Connection → List String
stanza_args h sch c =
    ("--config=" <> config_path h sch)
    ∷ ("--stanza=" <> sanitize_stanza_name c.name)
    ∷ "stanza-create"
    ∷ []

abbrev pub backup_args : Host → IncrementalSchedule → Connection → String → List String
backup_args h sch c kind =
    ("--config=" <> config_path h sch)
    ∷ ("--stanza=" <> sanitize_stanza_name c.name)
    ∷ ("--type=" <> kind)
    ∷ "backup"
    ∷ []

abbrev pub run_metadata :
    Host → IncrementalSchedule → Connection → Provider → String → String → Metadata
run_metadata h sch c p backup_id kind =
    ("engine", "pgbackrest")
    ∷ ("stanza", sanitize_stanza_name c.name)
    ∷ ("type", kind)
    ∷ ("base_path", "pgbackrest/" <> c.name)
    ∷ ("bucket", p.bucket)
    ∷ ("config_dir", config_dir h sch)
    ∷ ("backup_id", backup_id)
    ∷ ("provider_id", sch.storage_provider_id)
    ∷ []

-- The two commands: an error of the first is only printed.
unfoldable pub run_commands :
    Host
    → IncrementalSchedule
    → Connection
    → Provider
    → String
    → String
    → Result Metadata × List Step
run_commands h sch c p backup_id kind =
    let steps = ran (stanza_args h sch c) ∷ ran (backup_args h sch c kind) ∷ [] in
    elim (h.pgbackrest (backup_args h sch c kind)) [
      | some (e, stderr) ↦
          (err ("pgbackrest backup failed: " <> e <> "\nstderr: " <> stderr), steps)
      | none ↦ (ok (run_metadata h sch c p backup_id kind), steps)
    ]

unfoldable pub run_backup :
    Host → IncrementalSchedule → Connection → String → String → Result Metadata × List Step
unfolding resolve_provider config_data config_text run_commands
run_backup h sch c backup_id kind =
    elim (resolve_provider sch.storage_provider_id (h.get_decrypted sch.storage_provider_id)) [
      | err e ↦ (err e, [])
      | ok p ↦ elim (h.mkdir_all (config_dir h sch)) [
        | some e ↦ (err ("create config dir: " <> e), [])
        | none ↦
            let text = config_text (config_data h sch c p) in
            elim (h.write_file (config_path h sch) text) [
              | some e ↦ (err ("write config: " <> e), made_dir (config_dir h sch) ∷ [])
              | none ↦
                  let (answer, steps) = run_commands h sch c p backup_id kind in
                  (answer, made_dir (config_dir h sch) ∷ wrote (config_path h sch) text ∷ steps)
            ]
      ]
    ]

-- `PGBackRestEngine`
abbrev pub pgbackrest_engine : Host → IncrementalEngine
pgbackrest_engine h = record {
  db_type = "postgresql";
  backup_full = (λ sch c backup_id. (run_backup h sch c backup_id "full").0);
  backup_incremental = (λ sch c backup_id. (run_backup h sch c backup_id "incr").0);
}
