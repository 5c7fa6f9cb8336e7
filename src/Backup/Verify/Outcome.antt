-- ===== src/Backup/Verify/Outcome.antt =====
-- When a verification of internal/backup/service.go passes.
use backupeer.Prelude.{
  ℕ, ◌≡◌, ◌↔◌, ◌⊎◌, inl, inr, refl, String, none, false, ok, ◌&&◌, if◌then◌else◌, ltb, arith, ◌==◌,
  eq_iff, Result-cases,
}
use backupeer.Storage.{Provider, ProviderService}
use backupeer.Backup.{Backup}
use backupeer.Backup.Repo as Repo
use backupeer.Backup.Service.{
  Config, World, Metadata, int64_or_zero, fail_backup, complete_backup, resolve_provider,
}
use backupeer.Backup.Start.{Order, Job, start_backup}
use backupeer.Backup.Run.{Pipeline, run_backup, run_full_backup}
use backupeer.Backup.Verify.{
  Check, decrypts, read_failure, run_verification, fail_verification, pass_verification,
}

module _ (PS : ProviderService) where
  -- No stage of the reading fails, and the digest is the stored checksum or none is stored.
  pub record IsVerified (cfg : Config) (prov : Provider) (b : Backup) (c : Check) : Type 0 where
    pub client_made : PS.create_client prov ≡ none
    pub decryption_begun :
        (if cfg.has_encryption && ltb 0 (int64_or_zero b.encrypted_size_bytes)
          then c.decrypt_init
          else none)
        ≡ none
    pub streamed : c.stream ≡ none
    pub downloaded : c.download ≡ none
    pub matches : (b.checksum ≡ "") ⊎ (c.digest ≡ b.checksum)

  -- A full backup whose provider is found is marked as passed exactly when the client can be made,
  -- the decryption starts where encryption is on and a positive encrypted size is stored, neither
  -- the copy into the hash nor the download fails, and the digest equals the stored checksum or no
  -- checksum is stored.
  pub run_verification_passed_iff :
      (cfg : Config) (b : Backup) (c : Check) (prov : Provider) (w : World PS)
      → (b.backup_type == "incremental") ≡ false
      → (resolve_provider b.storage_provider_id w).0 ≡ ok prov
      → ((run_verification cfg b c w).0.verify_status ≡ "passed") ↔ IsVerified cfg prov b c
  unfolding run_verification fail_verification pass_verification read_failure decrypts
  run_verification_passed_iff cfg b c prov w full found = (
    (λ h.
        ground (arith, eq_iff b.checksum "", eq_iff c.digest b.checksum, eq_iff "failed" "passed")),
    (λ v. ground (arith, eq_iff b.checksum "", eq_iff c.digest b.checksum)),
  )

  complete_sizes :
      (cfg : Config) (j : Job) (prov : Provider) (p : Pipeline) (w : World PS)
      → (run_full_backup cfg j prov p w).0.encrypted_size_bytes ≡ j.backup.encrypted_size_bytes
  unfolding run_full_backup fail_backup complete_backup
  complete_sizes cfg j prov p w = ground arith

  pub encrypted_size-run_backup :
      (marshal : Metadata → String) (scan_int : String → ℕ) (cfg : Config) (j : Job) (p : Pipeline)
      (w : World PS)
      → (j.backup.backup_type == "incremental") ≡ false
      → (run_backup marshal scan_int cfg j p w).0.encrypted_size_bytes
        ≡ j.backup.encrypted_size_bytes
  unfolding run_backup fail_backup
  encrypted_size-run_backup marshal scan_int cfg j p w full =
      elim (Result-cases (resolve_provider j.backup.storage_provider_id w).0) [
        | inl (prov, e) ↦ rw (e, run_backup, full) (complete_sizes cfg _ prov p _)
        | inr (x, e) ↦ rw (e, run_backup, fail_backup) refl
      ]

  started_sizes :
      (id : String) (now : ℕ) (o : Order) (w : World PS) (j : Job)
      → (start_backup id now o w).0 ≡ ok j
      → (j.backup.encrypted_size_bytes ≡ none) × (j.backup.backup_type ≡ o.backup_type)
  unfolding start_backup Repo.create
  started_sizes id now o w j h = ground arith

  -- A full backup that StartBackup started and runBackup has run is never decrypted when it is
  -- verified, whether encryption is on or not: no run sets the encrypted size that the decryption
  -- waits for.
  pub decrypts-run_backup :
      (marshal : Metadata → String) (scan_int : String → ℕ) (cfg : Config) (id : String) (now : ℕ)
      (o : Order) (p : Pipeline) (w w' : World PS) (j : Job)
      → (o.backup_type == "incremental") ≡ false
      → (start_backup id now o w).0 ≡ ok j
      → decrypts cfg (run_backup marshal scan_int cfg j p w').0 ≡ false
  unfolding decrypts
  decrypts-run_backup marshal scan_int cfg id now o p w w' j full h =
      let (sizes, type) = started_sizes id now o w j h in
      rw (encrypted_size-run_backup marshal scan_int cfg j p w' (rw type full), sizes)
        (ground arith)
