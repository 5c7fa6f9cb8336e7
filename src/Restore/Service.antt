-- ===== src/Restore/Service.antt =====
-- internal/restore/service.go: StartRestore, runRestore, resolveProvider and failRestore. `gzip` and
-- the restore tools are not in the repository.
use backupeer.Prelude.{
  ℕ, ◌-◌, String, Bool, Option, none, some, List, [], ◌∷◌, ◌++◌, ◌&&◌, ◌||◌, Result, ok, err, ◌<>◌,
  ◌==◌, wrap, format_int, ltb, length, if◌then◌else◌,
}
use backupeer.Table.{Table}
use backupeer.Connection as Connection
use backupeer.Connection.{Connection}
use backupeer.Storage.{Provider, ProviderService}
use backupeer.Backup.{Backup}
use backupeer.Backup.Repo as Backups
use backupeer.Backup.Service.{explicit_id, provider_or, int64_or_zero}
use backupeer.Restore.{Restore}
use backupeer.Restore as Restores

-- What the service reads and changes; `restored` lists what was handed to a restore tool: the
-- connection and the bytes.
pub record World (PS : ProviderService) : Type 0 where
  pub restores : Table Restore
  pub backups : Table Backup
  pub conns : Table Connection
  pub provs : PS.State
  pub restored : List (Connection × List ℕ)

pub record Job : Type 0 where
  pub restore : Restore
  pub backup : Backup
  pub conn : Connection

-- The environment of one run: the download, `Decrypt`, `gunzip` and the tool, with its error.
pub record Steps : Type 0 where
  pub started : ℕ
  pub finished : ℕ
  pub download : Result (List ℕ)
  pub decrypt : List ℕ → Result (List ℕ)
  pub decompress : List ℕ → Result (List ℕ)
  pub tool : Connection → List ℕ → Option String

abbrev pub fresh_restore : String → String → Restore
fresh_restore backup_id target = record {
  id = "";
  backup_id = backup_id;
  target_connection = if target == "" then none else some target;
  status = "running";
  duration_ms = none;
  log_output = "";
  started_at = none;
  completed_at = none;
  created_at = 0;
}

module _ {PS : ProviderService} where
  create_record :
      String → ℕ → String → String → Backup → Connection → World PS → Result Job × World PS
  create_record id now backup_id target b conn w =
      let made = Restores.create id now (fresh_restore backup_id target) w.restores in
      (
        elim made.0 [
          | err e ↦ err ("create restore record: " <> e)
          | ok r ↦ ok (record { restore = r; backup = b; conn = conn })
        ],
        record w { restores = made.1 },
      )

  -- The lookup of the target connection, the backup's own where none is named.
  with_backup : String → ℕ → String → String → Backup → World PS → Result Job × World PS
  unfolding create_record
  with_backup id now backup_id target b w =
      let found = Connection.get_by_id (if target == "" then b.connection_id else target) w.conns in
      let w' = record w { conns = found.1 } in
      elim found.0 [
        | err e ↦ (err ("get target connection: " <> e), w')
        | ok none ↦ (err "target connection not found", w')
        | ok (some conn) ↦ create_record id now backup_id target b conn w'
      ]

  -- StartRestore: on success the job goes to `run_restore` in the background.
  unfoldable pub start_restore : String → ℕ → String → String → World PS → Result Job × World PS
  unfolding with_backup
  start_restore id now backup_id target w =
      let found = Backups.get_by_id backup_id w.backups in
      let w' = record w { backups = found.1 } in
      elim found.0 [
        | err e ↦ (err ("get backup: " <> e), w')
        | ok none ↦ (err "backup not found", w')
        | ok (some b) ↦
            if b.status == "success"
            then with_backup id now backup_id target b w'
            else (err ("cannot restore backup with status: " <> b.status), w')
      ]

  unfoldable pub fail_restore : ℕ → Restore → String → World PS → Restore × World PS
  fail_restore now r log w =
      let r' = record r { completed_at = some now; status = "failed"; log_output = log } in
      (r', record w { restores = (Restores.update r' w.restores).1 })

  default_provider : World PS → Result Provider × World PS
  default_provider w =
      let fallback = PS.get_default w.provs in
      (
        provider_or "no storage provider configured" (wrap "get default provider: " fallback.0),
        record w { provs = fallback.1 },
      )

  -- Unlike the one of the backup service, it falls back to the default provider when the named one
  -- is missing.
  unfoldable pub resolve_provider : Option String → World PS → Result Provider × World PS
  unfolding default_provider
  resolve_provider provider_id w =
      let id = explicit_id provider_id in
      let named = PS.get_decrypted id w.provs in
      let w' = record w { provs = named.1 } in
      if id == "" then default_provider w else elim named.0 [
        | err e ↦ (err ("get storage provider " <> id <> ": " <> e), w')
        | ok none ↦ default_provider w'
        | ok (some p) ↦ (ok p, w')
      ]

  -- `executeRestore`: the tool is run for the types of databases that have one.
  unfoldable pub execute_restore : Steps → Connection → List ℕ → World PS → Option String × World PS
  execute_restore s conn bytes w =
      if conn.db_type == "postgresql" || (conn.db_type == "mysql" || conn.db_type == "mariadb")
      then (s.tool conn bytes, record w { restored = w.restored ++ ((conn, bytes) ∷ []) })
      else (some ("unsupported database type: " <> conn.db_type), w)

-- Whether the downloaded object is decrypted.
unfoldable pub decrypts : Bool → Backup → Bool
decrypts has_encryption b = has_encryption && ltb 0 (int64_or_zero b.encrypted_size_bytes)

abbrev pub download_log : Backup → List ℕ → String
download_log b got =
    "DOWNLOAD: " <> b.storage_path <> " (" <> format_int (length got) <> " bytes)\n"

-- The bytes to restore with the log of their preparation, or the log of the first failure.
unfoldable pub prepare : Bool → Steps → Backup → Result (List ℕ × String)
unfolding decrypts
prepare has_encryption s b = elim s.download [
  | err e ↦ err ("DOWNLOAD ERROR: " <> e <> "\n")
  | ok got ↦
      let log =
        download_log b got
        <> (if decrypts has_encryption b then "DECRYPT: OK (AES-256-GCM)\n" else "") in
      elim (if decrypts has_encryption b then s.decrypt got else ok got) [
        | err e ↦ err (download_log b got <> "DECRYPT ERROR: " <> e <> "\n")
        | ok plain ↦ elim (s.decompress plain) [
          | err e ↦ err (log <> "DECOMPRESS ERROR: " <> e <> "\n")
          | ok bytes ↦ ok (
            bytes,
            log
                <> "DECOMPRESS: "
                <> format_int (length plain)
                <> " -> "
                <> format_int (length bytes)
                <> " bytes\n",
          )
        ]
      ]
]

module _ {PS : ProviderService} where
  unfoldable pub complete_restore : Steps → Restore → String → World PS → Restore × World PS
  complete_restore s r log w =
      let r' = record r {
        duration_ms = some (s.finished - s.started);
        completed_at = some s.finished;
        status = "success";
        log_output = log;
      } in
      (r', record w { restores = (Restores.update r' w.restores).1 })

  with_provider :
      Bool → Steps → Restore → Backup → Connection → Provider → World PS → Restore × World PS
  unfolding execute_restore
  with_provider has_encryption s r b conn prov w = elim (PS.create_client prov) [
    | some e ↦ fail_restore s.finished r ("STORAGE CLIENT ERROR: " <> e <> "\n") w
    | none ↦ elim (prepare has_encryption s b) [
      | err log ↦ fail_restore s.finished r log w
      | ok prepared ↦
          let ran = execute_restore s conn prepared.0 w in
          elim ran.0 [
            | some e ↦
                fail_restore s.finished r (prepared.1 <> "RESTORE ERROR: " <> e <> "\n") ran.1
            | none ↦ complete_restore s r (prepared.1 <> "RESTORE: OK\n") ran.1
          ]
    ]
  ]

  unfoldable pub run_restore : Bool → Steps → Job → World PS → Restore × World PS
  unfolding with_provider
  run_restore has_encryption s j w =
      let r = record (j.restore) { started_at = some s.started } in
      let prov = resolve_provider j.backup.storage_provider_id w in
      elim prov.0 [
        | err e ↦ fail_restore s.finished r ("STORAGE PROVIDER ERROR: " <> e <> "\n") prov.1
        | ok p ↦ with_provider has_encryption s r j.backup j.conn p prov.1
      ]
