-- ===== src/Backup/Credentials.antt =====
-- The provider of a run of internal/backup/service.go, over the service of
-- internal/storage/provider_service.go.
use backupeer.Prelude.{◌≡◌, String, Option, none, some, ok, arith, Result-cases, inl, inr}
use backupeer.Encryption.Binary.{Bytes}
use backupeer.Encryption.{Aead}
use backupeer.Storage.{Provider}
use backupeer.Storage.Service.{mask, provider_service, get_default}
use backupeer.Storage.Secrets.{get_default_masked}
use backupeer.Backup.Service.{World, resolve_provider}

module _ (c : Aead) (key : Bytes) (minio_new : Provider → Option String) where
  -- A run without a provider of its own gets the default provider with the mask for its secret key,
  -- not with the key.
  pub resolve_provider_masked :
      (w : World (provider_service c key minio_new)) (p : Provider)
      → (resolve_provider none w).0 ≡ ok p
      → p.secret_key ≡ mask
  unfolding resolve_provider
  resolve_provider_masked w p h = elim (Result-cases (get_default c key w.provs).0) [
    | inl (some q, e) ↦
        let masked = get_default_masked c key w.provs "" q (inl e) in ground (arith, h, e, masked)
    | inl (none, e) ↦ ground (arith, h, e)
    | inr (x, e) ↦ ground (arith, h, e)
  ]
