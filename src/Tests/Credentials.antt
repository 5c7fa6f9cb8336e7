-- ===== src/Tests/Credentials.antt =====
-- The provider of a run at a table with one default provider.
use backupeer.Prelude.{◌≡◌, refl, String, Option, none, [], ◌∷◌, ok}
use backupeer.Storage.{Provider}
use backupeer.Storage.Service.{mask, provider_service}
use backupeer.Backup.Service.{World, resolve_provider}
use backupeer.Backup.Credentials.{resolve_provider_masked}
use backupeer.Tests.{plain_aead, master, minio, conn, database, table}

abbrev accepted : Provider → Option String
accepted _ = none

abbrev stored : Provider
stored = record minio { access_key = []; secret_key = [] }

abbrev world : World (provider_service plain_aead master accepted)
world = record {
  backups = table [];
  conns = table (conn ∷ []);
  dbs = table (database ∷ []);
  provs = table (stored ∷ []);
  sent = [];
  deleted = [];
  restored = [];
}

abbrev masked : Provider
masked = record stored { secret_key = mask }

masked_found : (resolve_provider none world).0 ≡ ok masked
unfolding resolve_provider backupeer.Storage.Service.get_default backupeer.Storage.Repo.get_default
    backupeer.Table.query backupeer.Storage.Credentials.must_decrypt
masked_found = refl

resolve_provider_masked_example : masked.secret_key ≡ mask
resolve_provider_masked_example =
    resolve_provider_masked plain_aead master accepted world masked masked_found
