-- ===== src/Backup/Engines/XtraBackup.antt =====
-- internal/backup/xtrabackup.go: the engine for MySQL. The streamed process and the client of the
-- object storage are parameters.
pub mod Completed
use backupeer.Prelude.{String, Option, none, some, List, [], ◌∷◌, Result, ok, err, ◌<>◌, Bool}
use backupeer.Encryption.Binary.{Bytes}
use backupeer.Connection.{Connection}
use backupeer.Storage.{Provider}
use backupeer.Backup.Service.{IncrementalSchedule, IncrementalEngine, Metadata}
use backupeer.Backup.Engines.{resolve_provider, Stream, stream_args, stream_key, stream_error}
use backupeer.Backup.Engines.Stderr.{LsnMap, parse_xtra_stderr}

-- The configuration that NewS3ClientFromProvider makes (storage.Config).
pub record S3Config : Type 0 where
  pub endpoint : String
  pub region : String
  pub bucket : String
  pub access_key : Bytes
  pub secret_key : Bytes
  pub path_style : Bool

abbrev pub client_config : Provider → S3Config
client_config p = record {
  endpoint = p.endpoint;
  region = p.region;
  bucket = p.bucket;
  access_key = p.access_key;
  secret_key = p.secret_key;
  path_style = p.path_style;
}

-- Around a run: `GetDecrypted`, `NewS3Client`, the programs in the PATH, and a command with its
-- arguments whose output is uploaded under a key.
pub record Host : Type 0 where
  pub get_decrypted : String → Result (Option Provider)
  pub new_s3_client : S3Config → Option String
  pub look_path : String → Option String
  pub stream : String → List String → S3Config → String → Stream

abbrev pub stream_metadata :
    String → IncrementalSchedule → Connection → Provider → String → LsnMap → Metadata
stream_metadata engine sch c p key lsn =
    ("engine", engine)
    ∷ ("from_lsn", lsn.from_lsn)
    ∷ ("to_lsn", lsn.to_lsn)
    ∷ ("backup_type", lsn.backup_type)
    ∷ ("s3_key", key)
    ∷ ("bucket", p.bucket)
    ∷ ("conn_name", c.name)
    ∷ ("provider_id", sch.storage_provider_id)
    ∷ []

-- The provider and the client, which every streamed run asks for first.
unfoldable pub open_storage : Host → IncrementalSchedule → Result Provider
unfolding resolve_provider
open_storage h sch =
    elim (resolve_provider sch.storage_provider_id (h.get_decrypted sch.storage_provider_id)) [
      | err e ↦ err e
      | ok p ↦ elim (h.new_s3_client (client_config p)) [
        | some e ↦ err ("create s3 client: " <> e)
        | none ↦ ok p
      ]
    ]

unfoldable pub run_xtra_backup :
    Host → IncrementalSchedule → Connection → String → String → Result Metadata
unfolding open_storage stream_args stream_key stream_error parse_xtra_stderr
run_xtra_backup h sch c backup_id last_lsn = elim (open_storage h sch) [
  | err e ↦ err e
  | ok p ↦
      let key = stream_key "xtrabackup" c backup_id last_lsn in
      let r = h.stream "xtrabackup" (stream_args c last_lsn) (client_config p) key in
      elim (stream_error "xtrabackup" r) [
        | some e ↦ err e
        | none ↦ ok (stream_metadata "xtrabackup" sch c p key (parse_xtra_stderr r.stderr))
      ]
]

-- `XtraBackupEngine`: the interface has no position to pass on.
abbrev pub xtra_backup_engine : Host → IncrementalEngine
xtra_backup_engine h = record {
  db_type = "mysql";
  backup_full = (λ sch c backup_id. run_xtra_backup h sch c backup_id "");
  backup_incremental = (λ sch c backup_id.
      err
        "xtrabackup incremental requires --incremental-lsn; use runXtraBackup directly with lastLSN");
}
