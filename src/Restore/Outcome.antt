-- ===== src/Restore/Outcome.antt =====
-- How a restore of internal/restore/service.go ends, and what it hands to a restore tool.
use backupeer.Prelude.{
  ℕ, ◌≡◌, ◌⊎◌, inl, inr, ◌∙◌, String, Bool, false, Option, none, some, List, [], ◌∷◌, ◌++◌, ◌||◌,
  ◌&&◌, if◌then◌else◌, ltb, ok, arith, ◌==◌, eq_iff, Result-cases,
}
use backupeer.Connection.{Connection}
use backupeer.Storage.{ProviderService}
use backupeer.Backup.{Backup}
use backupeer.Backup.Service.{Config, Metadata, int64_or_zero}
use backupeer.Backup.Start.{Order, start_backup}
use backupeer.Backup.Service as Backups
use backupeer.Backup.Start as Start
use backupeer.Backup.Run.{Pipeline, run_backup}
use backupeer.Backup.Verify.Outcome.{encrypted_size-run_backup}
use backupeer.Restore.{Restore}
use backupeer.Restore.Service.{
  World, Job, Steps, resolve_provider, prepare, decrypts, fail_restore, complete_restore,
  run_restore,
}

-- The object is downloaded, decrypted by a service with encryption when an encrypted size is stored,
-- and decompressed, each without an error; the bytes are what the last of them answers.
pub record IsPrepared (has_encryption : Bool) (s : Steps) (b : Backup) (bytes : List ℕ)
    : Type 0 where
  pub got : List ℕ
  pub plain : List ℕ
  pub downloaded : s.download ≡ ok got
  pub decrypted :
      (if has_encryption && ltb 0 (int64_or_zero b.encrypted_size_bytes)
        then s.decrypt got
        else ok got)
      ≡ ok plain
  pub decompressed : s.decompress plain ≡ ok bytes

prepare-IsPrepared :
    (has_encryption : Bool) (s : Steps) (b : Backup) (bytes : List ℕ) (log : String)
    → prepare has_encryption s b ≡ ok (bytes, log)
    → IsPrepared has_encryption s b bytes
unfolding prepare decrypts
prepare-IsPrepared has_encryption s b bytes log h = elim (Result-cases s.download) [
  | inr (x, e) ↦ absurd (ground (arith, e, h))
  | inl (got, e) ↦
      elim (Result-cases (
        if has_encryption && ltb 0 (int64_or_zero b.encrypted_size_bytes)
        then s.decrypt got
        else ok got)) [
          | inr (x, f) ↦ absurd (ground (arith, e, f, h))
          | inl (plain, f) ↦ elim (Result-cases (s.decompress plain)) [
            | inr (x, g) ↦ absurd (ground (arith, e, f, g, h))
            | inl (all, g) ↦ record {
              got = got;
              plain = plain;
              downloaded = e;
              decrypted = f;
              decompressed = ground (arith, e, f, g, h);
            }
          ]
        ]
]

abbrev pub has_tool : Connection → Bool
has_tool conn =
    conn.db_type == "postgresql" || (conn.db_type == "mysql" || conn.db_type == "mariadb")

-- What a run may do to the record and to the databases.
pub record Ends (PS : ProviderService) (has_encryption : Bool) (s : Steps) (j : Job) (w : World PS)
    (r : Restore) (w' : World PS) : Type 0 where
  pub status : (r.status ≡ "success") ⊎ (r.status ≡ "failed")
  pub times : (r.started_at ≡ some s.started) × (r.completed_at ≡ some s.finished)
  pub restored :
      (w'.restored ≡ w.restored)
      ⊎ ((bytes : List ℕ) × IsPrepared has_encryption s j.backup bytes
          × (w'.restored ≡ w.restored ++ ((j.conn, bytes) ∷ [])))

module _ {PS : ProviderService} where
  restored-resolve_provider :
      (id : Option String) (w : World PS) → (resolve_provider id w).1.restored ≡ w.restored
  unfolding resolve_provider
  restored-resolve_provider id w = ground arith

  run_restore_hands :
      (has_encryption : Bool) (s : Steps) (j : Job) (w : World PS) (bytes : List ℕ) (log : String)
      → prepare has_encryption s j.backup ≡ ok (bytes, log)
      → ((run_restore has_encryption s j w).1.restored ≡ w.restored)
        ⊎ ((run_restore has_encryption s j w).1.restored ≡ w.restored ++ ((j.conn, bytes) ∷ []))
  unfolding run_restore fail_restore complete_restore
  run_restore_hands has_encryption s j w bytes log e =
      let same = restored-resolve_provider j.backup.storage_provider_id w in ground (arith, e, same)

  -- A run ends as a success or a failure with both of its times set. It hands a tool nothing, or
  -- once some bytes for the job's connection: then the download answered, Decrypt answered for what
  -- was downloaded if encryption is on and a positive encrypted size is stored, and gunzip answered
  -- those bytes for the result.
  pub run_restore-Ends :
      (has_encryption : Bool) (s : Steps) (j : Job) (w : World PS)
      → Ends PS has_encryption s j w
          (run_restore has_encryption s j w).0
          (run_restore has_encryption s j w).1
  unfolding run_restore fail_restore complete_restore
  run_restore-Ends has_encryption s j w =
      let same = restored-resolve_provider j.backup.storage_provider_id w in
      record {
        status = ground (arith, eq_iff "failed" "success");
        times = ground arith;
        restored = elim (Result-cases (prepare has_encryption s j.backup)) [
          | inr (log, e) ↦ inl (ground (arith, e, same))
          | inl ((bytes, log), e) ↦ elim (run_restore_hands has_encryption s j w bytes log e) [
            | inl kept ↦ inl kept
            | inr handed ↦
                inr (bytes, prepare-IsPrepared has_encryption s j.backup bytes log e, handed)
          ]
        ];
      }

  -- A restore never decrypts a full backup that runBackup has run on a record without an encrypted
  -- size, as StartBackup makes them, and so treats a service with encryption like one without.
  pub prepare-run_backup :
      (marshal : Metadata → String) (scan_int : String → ℕ) (cfg : Config) (j : Start.Job)
      (p : Pipeline) (w : Backups.World PS) (has_encryption : Bool) (s : Steps)
      → (j.backup.backup_type == "incremental") ≡ false
      → j.backup.encrypted_size_bytes ≡ none
      → prepare has_encryption s (run_backup marshal scan_int cfg j p w).0
        ≡ prepare false s (run_backup marshal scan_int cfg j p w).0
  unfolding prepare decrypts
  prepare-run_backup marshal scan_int cfg j p w has_encryption s full no_size =
      let size = encrypted_size-run_backup PS marshal scan_int cfg j p w full ∙ no_size in
      ground (arith, size)
