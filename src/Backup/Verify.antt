-- ===== src/Backup/Verify.antt =====
-- internal/backup/service.go: StartVerification, runVerification and failVerification.
pub mod Outcome
pub mod Start
use backupeer.Prelude.{
  ℕ, String, Bool, true, false, not, Option, none, some, List, ◌&&◌, Result, ok, err, ◌<>◌, ◌==◌,
  ltb, if◌then◌else◌,
}
use backupeer.Storage.{Provider, ProviderService}
use backupeer.Backup.{Backup}
use backupeer.Backup.Repo as Repo
use backupeer.Backup.Service.{Config, World, resolve_provider, int64_or_zero}

module _ {PS : ProviderService} where
  mark_verifying : Backup → World PS → Result Backup × World PS
  mark_verifying b w =
      let b' = record b { verify_status = "verifying"; status = "verifying" } in
      let done = Repo.update b' w.backups in
      (
        elim done.0 [ none ↦ ok b' | some e ↦ err ("update verify status: " <> e) ],
        record w { backups = done.1 },
      )

  -- On success the record is handed to `run_verification` in the background.
  unfoldable pub start_verification : String → World PS → Result Backup × World PS
  unfolding mark_verifying
  start_verification id w =
      let found = Repo.get_by_id id w.backups in
      let w' = record w { backups = found.1 } in
      elim found.0 [
        | err e ↦ (err ("get backup: " <> e), w')
        | ok none ↦ (err "backup not found", w')
        | ok (some b) ↦
            if b.status == "success"
            then mark_verifying b w'
            else (err ("cannot verify backup with status: " <> b.status), w')
      ]

-- What the object storage, the decryption and the clock answer during one verification.
pub record Check : Type 0 where
  pub download : Option String  -- what the download sends to `errChan`
  pub decrypt_init : Option String  -- of `DecryptStream`
  pub stream : Option String  -- of `io.Copy` into the hash
  pub digest : String  -- SHA-256 of what was read, in hex
  pub now : ℕ

abbrev start_log : Backup → String
start_log b = "VERIFY: starting verification for backup " <> b.id <> "\n"

-- Whether the stored object is decrypted before it is hashed.
unfoldable pub decrypts : Config → Backup → Bool
decrypts cfg b = cfg.has_encryption && ltb 0 (int64_or_zero b.encrypted_size_bytes)

abbrev read_log : Config → Backup → String
read_log cfg b = start_log b <> (if decrypts cfg b then "DECRYPT: streaming decrypt OK\n" else "")

-- The first error while the object is read, with its log.
unfoldable pub read_failure : Config → Backup → Check → Option String
unfolding decrypts
read_failure cfg b c = elim (if decrypts cfg b then c.decrypt_init else none) [
  | some e ↦ some (start_log b <> "DECRYPT STREAM INIT ERROR: " <> e <> "\n")
  | none ↦ elim c.stream [
    | some e ↦ some (read_log cfg b <> "VERIFY STREAM ERROR: " <> e <> "\n")
    | none ↦ elim c.download [
      | some e ↦ some (read_log cfg b <> "DOWNLOAD ERROR: download: " <> e <> "\n")
      | none ↦ none
    ]
  ]
]

abbrev pub has_registry : Config → Bool
has_registry cfg = elim cfg.engines [ none ↦ false | some _ ↦ true ]

module _ {PS : ProviderService} where
  unfoldable pub fail_verification : ℕ → Backup → String → World PS → Backup × World PS
  fail_verification now b log w =
      let b' = record b {
        verified_at = some now;
        verify_status = "failed";
        status = "failed";
        log_output = log;
      } in
      (b', record w { backups = (Repo.update b' w.backups).1 })

  unfoldable pub pass_verification : ℕ → Backup → String → World PS → Backup × World PS
  pass_verification now b log w =
      let b' = record b {
        verified_at = some now;
        verify_status = "passed";
        status = "success";
        log_output = log;
      } in
      (b', record w { backups = (Repo.update b' w.backups).1 })

  -- The comparison with the stored checksum; a missing one is filled in.
  compare_checksum : Config → Backup → Check → World PS → Backup × World PS
  compare_checksum cfg b c w =
      let log = read_log cfg b <> "CHECKSUM: computed=" <> c.digest <> "\n" in
      if b.checksum == ""
      then pass_verification c.now (record b { checksum = c.digest })
          (log <> "VERIFY: no stored checksum — saved computed checksum\n") w
      else if c.digest == b.checksum
      then pass_verification c.now b (log <> "VERIFY: checksum MATCH — integrity verified\n") w
      else fail_verification c.now b
          (log <> "VERIFY: checksum MISMATCH — stored=" <> b.checksum <> ", computed=" <> c.digest
            <> "\n")
          w

  with_provider : Config → Backup → Check → Provider → World PS → Backup × World PS
  unfolding compare_checksum
  with_provider cfg b c prov w = elim (PS.create_client prov) [
    | some e ↦ fail_verification c.now b (start_log b <> "STORAGE CLIENT ERROR: " <> e <> "\n") w
    | none ↦ elim (read_failure cfg b c) [
      | some log ↦ fail_verification c.now b log w
      | none ↦ compare_checksum cfg b c w
    ]
  ]

  unfoldable pub run_verification : Config → Backup → Check → World PS → Backup × World PS
  unfolding with_provider
  run_verification cfg b c w =
      let prov = resolve_provider b.storage_provider_id w in
      if b.backup_type == "incremental" && has_registry cfg
      then pass_verification c.now b
          (start_log b
            <> "VERIFY: incremental backup — verification via pgBackRest/XtraBackup not yet supported\n"
            <> "VERIFY: check backup log output for tool-specific backup status\n")
          w
      else elim prov.0 [
        | err e ↦
            fail_verification c.now b (start_log b <> "STORAGE PROVIDER ERROR: " <> e <> "\n")
              prov.1
        | ok p ↦ with_provider cfg b c p prov.1
      ]
