-- ===== src/Backup/Engines/Mariabackup.antt =====
-- internal/backup/mariabackup.go: the engine for MariaDB, which is xtrabackup's with a choice of
-- program.
use backupeer.Prelude.{String, none, some, [], ◌∷◌, ◌++◌, Result, ok, err}
use backupeer.Connection.{Connection}
use backupeer.Backup.Service.{IncrementalSchedule, IncrementalEngine, Metadata}
use backupeer.Backup.Engines.{stream_args, stream_key, stream_error}
use backupeer.Backup.Engines.Stderr.{parse_xtra_stderr}
use backupeer.Backup.Engines.XtraBackup.{Host, client_config, stream_metadata, open_storage}

-- mariabackup, or xtrabackup where only that is installed
unfoldable pub find_binary : Host → Result String
find_binary h = elim (h.look_path "mariabackup") [
  | none ↦ ok "mariabackup"
  | some _ ↦ elim (h.look_path "xtrabackup") [
    | none ↦ ok "xtrabackup"
    | some _ ↦ err "neither mariabackup nor xtrabackup found in PATH"
  ]
]

unfoldable pub run_mariabackup :
    Host → IncrementalSchedule → Connection → String → String → Result Metadata
unfolding open_storage find_binary stream_args stream_key stream_error parse_xtra_stderr
run_mariabackup h sch c backup_id last_lsn = elim (open_storage h sch) [
  | err e ↦ err e
  | ok p ↦ elim (find_binary h) [
    | err e ↦ err e
    | ok binary ↦
        let key = stream_key "mariabackup" c backup_id last_lsn in
        let r = h.stream binary (stream_args c last_lsn) (client_config p) key in
        elim (stream_error binary r) [
          | some e ↦ err e
          | none ↦ ok (
              stream_metadata "mariabackup" sch c p key (parse_xtra_stderr r.stderr)
              ++ (("binary_used", binary) ∷ []))
        ]
  ]
]

abbrev pub mariabackup_engine : Host → IncrementalEngine
mariabackup_engine h = record {
  db_type = "mariadb";
  backup_full = (λ sch c backup_id. run_mariabackup h sch c backup_id "");
  backup_incremental = (λ sch c backup_id.
      err
        "mariabackup incremental requires --incremental-lsn; use runMariabackup directly with lastLSN");
}
