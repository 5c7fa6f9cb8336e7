-- ===== src/Backup/Engines.antt =====
-- The incremental engines of internal/backup, behind the interface IncrementalEngine: what they share.
pub mod Stderr
pub mod XtraBackup
pub mod Mariabackup
pub mod PgBackRest
use backupeer.Prelude.{
  String, Option, none, some, List, [], ◌∷◌, ◌++◌, Result, ok, err, ◌<>◌, ◌==◌, format_int,
  if◌then◌else◌,
}
use backupeer.Connection.{Connection}
use backupeer.Storage.{Provider}

-- `GetDecrypted` and the check of its answer.
unfoldable pub resolve_provider : String → Result (Option Provider) → Result Provider
resolve_provider id (err e) = err ("get storage provider: " <> e)
resolve_provider id (ok none) = err ("storage provider " <> id <> " not found")
resolve_provider id (ok (some p)) = ok p

-- What the process, the pipes and the object storage answer in one streamed run.
pub record Stream : Type 0 where
  pub stdout_pipe : Option String
  pub start : Option String
  pub upload : Option String
  pub copy : Option String
  pub wait : Option String
  pub stderr : String

-- The arguments of xtrabackup and mariabackup.
unfoldable pub stream_args : Connection → String → List String
stream_args c last_lsn =
    let args =
      "--backup"
      ∷ "--stream=xbstream"
      ∷ ("--host=" <> c.host)
      ∷ ("--port=" <> format_int c.port)
      ∷ ("--user=" <> c.username)
      ∷ ("--password=" <> c.password)
      ∷ "--parallel=4"
      ∷ [] in
    if last_lsn == "" then args else args ++ (("--incremental-lsn=" <> last_lsn) ∷ [])

-- "<engine>/<connection>/<full or incr>/<id>/<id>.tar.gz"
unfoldable pub stream_key : String → Connection → String → String → String
stream_key engine c backup_id last_lsn =
    let backup_dir = if last_lsn == "" then "full" else "incr" in
    engine <> "/" <> c.name <> "/" <> backup_dir <> "/" <> backup_id <> "/" <> backup_id
    <> ".tar.gz"

-- The error of the first stage that fails: the upload's is read before the compressor's.
unfoldable pub stream_error : String → Stream → Option String
stream_error tool r = elim r.stdout_pipe [
  | some e ↦ some ("stdout pipe: " <> e)
  | none ↦ elim r.start [
    | some e ↦ some (tool <> " start: " <> e)
    | none ↦ elim r.upload [
      | some e ↦ some ("upload to s3: " <> e)
      | none ↦ elim r.copy [
        | some e ↦ some ("compress: " <> e)
        | none ↦ elim r.wait [
          | some e ↦ some (tool <> " failed: " <> e <> "\nstderr: " <> r.stderr)
          | none ↦ none
        ]
      ]
    ]
  ]
]
