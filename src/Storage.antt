-- ===== src/Storage.antt =====
-- internal/storage: the storage providers, their credentials at rest and their service, over the
-- table `storage_providers` of internal/repository/postgres/storage_provider.go.
pub mod Credentials
pub mod Repo
pub mod Service
pub mod Defaults
pub mod Secrets
pub mod Handler
use backupeer.Prelude.{ℕ, String, Bool, List, Option, Result}
use backupeer.Encryption.Binary.{Bytes}

-- Go keeps the two keys in strings; they hold ciphertext, so they are bytes here.
pub record Provider : Type 0 where
  pub id : String
  pub name : String
  pub provider_type : String
  pub endpoint : String
  pub region : String
  pub bucket : String
  pub access_key : Bytes
  pub secret_key : Bytes
  pub path_style : Bool
  pub is_default : Bool
  pub created_at : ℕ
  pub updated_at : ℕ

-- The interface `ProviderService` that the packages backup and restore use. A client is
-- represented by the provider that it was made from.
pub record ProviderService : Type 1 where
  pub State : Type 0
  pub get_decrypted : String → State → Result (Option Provider) × State
  pub get_default : State → Result (Option Provider) × State
  -- the error of `CreateS3ClientFromProvider`
  pub create_client : Provider → Option String
