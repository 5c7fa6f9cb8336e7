-- ===== src/Backup/Run.antt =====
-- internal/backup/service.go: runBackup, runFullBackup and runIncrementalBackup. What the dump
-- process, the pipes, the object storage and the clock answer in one run is the record `Pipeline`.
pub mod Outcome
pub mod Started
pub mod Incremental
use backupeer.Prelude.{
  ℕ, suc, ◌-◌, String, Bool, true, false, not, Option, none, some, List, [], ◌∷◌, ◌++◌, ◌&&◌,
  Result, ok, err, ◌<>◌, ◌==◌, wrap, format_int, length, eqb, ltb, if◌then◌else◌,
}
use backupeer.Connection.{Connection, ConnectionDatabase}
use backupeer.Storage.{Provider, ProviderService}
use backupeer.Backup.{Backup}
use backupeer.Backup.Repo as Repo
use backupeer.Backup.Service.{
  Config, World, Metadata, IncrementalSchedule, IncrementalEngine, fail_backup, complete_backup,
  resolve_provider,
}
use backupeer.Backup.Start.{Job}

pub record Pipeline : Type 0 where
  pub stdout_pipe : Option String  -- of `dumpCmd.StdoutPipe`
  pub dump_start : Option String  -- of `dumpCmd.Start`
  pub encrypt_init : Option String  -- of `EncryptStream`
  pub copy : Option String  -- of `io.Copy` into gzip
  pub upload : Option String  -- of `UploadStream`
  pub dump_wait : Option String  -- of `dumpCmd.Wait`
  pub raw_size : ℕ  -- the bytes that the dump wrote
  pub digest : String  -- SHA-256 of the compressed bytes, in hex
  pub started : ℕ
  pub stamp : String  -- the start time as "20060102-150405"
  pub finished : ℕ

-- What the compressing goroutine sends to `errChan`.
unfoldable pub compress_error : Bool → Pipeline → Option String
compress_error encrypts p = elim (if encrypts then p.encrypt_init else none) [
  | some e ↦ some ("encrypt stream init: " <> e)
  | none ↦ elim p.copy [ some e ↦ some ("compress: " <> e) | none ↦ none ]
]

abbrev pub storage_key : Job → Pipeline → String
storage_key j p =
    "backups/" <> j.conn.name <> "/" <> j.db.db_name <> "/" <> j.backup.id <> "-" <> p.stamp
    <> ".sql.gz"

-- The log lines before the upload.
abbrev stream_log : Job → String
stream_log j = "BACKUP: streaming " <> j.conn.db_type <> " " <> j.db.db_name <> "\n"

abbrev start_log : Job → String
start_log j = stream_log j <> "DUMP: " <> j.conn.db_type <> " started\n"

-- The first stage that fails, with the whole log that it leaves; stages run in this order, except
-- that the upload's error is read before the compressor's.
unfoldable pub full_failure : Config → Job → Pipeline → Option String
unfolding compress_error
full_failure cfg j p = elim p.stdout_pipe [
  | some e ↦ some (stream_log j <> "STDOUT PIPE ERROR: " <> e <> "\n")
  | none ↦ elim p.dump_start [
    | some e ↦ some (stream_log j <> "DUMP START ERROR: " <> e <> "\n")
    | none ↦ elim p.upload [
      | some e ↦ some (start_log j <> "UPLOAD ERROR: " <> e <> "\n")
      | none ↦ elim (compress_error cfg.has_encryption p) [
        | some e ↦ some (start_log j <> "COMPRESS ERROR: " <> e <> "\n")
        | none ↦ elim p.dump_wait [
          | some e ↦ some (start_log j <> "DUMP PROCESS ERROR: " <> e <> "\n")
          | none ↦ none
        ]
      ]
    ]
  ]
]

-- The lookup `metadata["..."]`
pub lookup : String → Metadata → Option String
lookup k [] = none
lookup k ((j, v) ∷ m) = if j == k then some v else lookup k m

-- `Get` of the registry: a later registration for a type replaces an earlier one.
pub find_engine : String → List IncrementalEngine → Option IncrementalEngine
find_engine db_type [] = none
find_engine db_type (e ∷ es) = elim (find_engine db_type es) [
  | some later ↦ some later
  | none ↦ if e.db_type == db_type then some e else none
]

-- Whether there is a previous backup to build on; an error of the query counts as none.
abbrev pub some_backups : Result (List Backup) → Bool
some_backups (ok (b ∷ bs)) = true
some_backups _ = false

module _ {PS : ProviderService} where
  unfoldable pub run_full_backup : Config → Job → Provider → Pipeline → World PS → Backup × World PS
  unfolding full_failure
  run_full_backup cfg j prov p w = elim (PS.create_client prov) [
    | some e ↦ fail_backup cfg p.finished j.backup ("STORAGE CLIENT ERROR: " <> e <> "\n") w
    | none ↦
        let b = record (j.backup) { storage_path = storage_key j p } in
        elim (full_failure cfg j p) [
          | some log ↦ fail_backup cfg p.finished b log w
          | none ↦
              complete_backup cfg p.finished p.started
                (record b {
                  size_bytes = some p.raw_size;
                  checksum = if cfg.has_encryption then p.digest else b.checksum;
                })
                j.conn j.db
                (start_log j <> "DUMP: " <> format_int p.raw_size <> " bytes uncompressed\n")
                prov.id w
        ]
  ]

  -- An engine's answer; `marshal` is `json.Marshal` and `scan_int` is `fmt.Sscanf(_, "%d", _)`.
  finish_incremental :
      (Metadata → String)
      → (String → ℕ)
      → Config
      → Job
      → Provider
      → Pipeline
      → IncrementalEngine
      → String
      → Result Metadata
      → World PS
      → Backup × World PS
  unfolding lookup
  finish_incremental marshal scan_int cfg j prov p engine log answer w = elim answer [
    | err e ↦ fail_backup cfg p.finished j.backup (log <> "ENGINE ERROR: " <> e <> "\n") w
    | ok metadata ↦
        let log' = log <> engine.db_type <> " metadata: " <> marshal metadata <> "\n" in
        let b = j.backup in
        complete_backup cfg p.finished p.started
          (record b {
            storage_path = elim (lookup "s3_key" metadata) [
              | some key ↦ key
              | none ↦ "incremental/" <> j.conn.name <> "/" <> b.id
            ];
            size_bytes = elim (lookup "size_bytes" metadata) [
              | some size ↦ some (scan_int size)
              | none ↦ b.size_bytes
            ];
            log_output = log';
          })
          j.conn j.db log' prov.id w
  ]

  with_engine :
      (Metadata → String)
      → (String → ℕ)
      → Config
      → Job
      → Provider
      → Pipeline
      → IncrementalEngine
      → World PS
      → Backup × World PS
  unfolding finish_incremental
  with_engine marshal scan_int cfg j prov p engine w =
      let sch : IncrementalSchedule = record {
        id = "";
        connection_id = j.conn.id;
        database_id = j.db.db_name;
        backup_type = j.backup.backup_type;
        storage_provider_id = prov.id;
        encryption_enabled = cfg.has_encryption;
      } in
      let prev = Repo.list_oldest_by_backup_type "" "incremental" 1 w.backups in
      finish_incremental marshal scan_int cfg j prov p engine
        ("INCREMENTAL: running " <> j.backup.backup_type <> " via " <> engine.db_type
          <> " engine\n")
        (if some_backups prev.0 && j.backup.backup_type == "incremental"
          then engine.backup_incremental sch j.conn j.backup.id
          else engine.backup_full sch j.conn j.backup.id)
        (record w { backups = prev.1 })

  with_registry :
      (Metadata → String)
      → (String → ℕ)
      → Config
      → Job
      → Provider
      → Pipeline
      → Option (List IncrementalEngine)
      → World PS
      → Backup × World PS
  unfolding with_engine find_engine
  with_registry marshal scan_int cfg j prov p none w =
      fail_backup cfg p.finished j.backup
        "INCREMENTAL ENGINE ERROR: no incremental engine registry configured\n" w
  with_registry marshal scan_int cfg j prov p (some engines) w =
      elim (find_engine j.conn.db_type engines) [
        | none ↦
            fail_backup cfg p.finished j.backup
              ("INCREMENTAL ENGINE ERROR: no incremental engine for database type: "
                <> j.conn.db_type <> "\n")
              w
        | some engine ↦ with_engine marshal scan_int cfg j prov p engine w
      ]

  unfoldable pub run_incremental_backup :
      (Metadata → String)
      → (String → ℕ)
      → Config
      → Job
      → Provider
      → Pipeline
      → World PS
      → Backup × World PS
  unfolding with_registry
  run_incremental_backup marshal scan_int cfg j prov p w =
      with_registry marshal scan_int cfg j prov p cfg.engines w

  -- runBackup, once it holds a slot of the semaphore (`Slots`).
  unfoldable pub run_backup :
      (Metadata → String) → (String → ℕ) → Config → Job → Pipeline → World PS → Backup × World PS
  run_backup marshal scan_int cfg j p w =
      let b = record (j.backup) { started_at = some p.started } in
      let j' = record j { backup = b } in
      let prov = resolve_provider b.storage_provider_id w in
      elim prov.0 [
        | err e ↦ fail_backup cfg p.finished b ("STORAGE PROVIDER ERROR: " <> e <> "\n") prov.1
        | ok provider ↦
            if b.backup_type == "incremental"
            then run_incremental_backup marshal scan_int cfg j' provider p prov.1
            else run_full_backup cfg j' provider p prov.1
      ]
