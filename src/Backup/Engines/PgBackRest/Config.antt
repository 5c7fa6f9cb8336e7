-- ===== src/Backup/Engines/PgBackRest/Config.antt =====
-- The configuration of pgbackrest that internal/backup/pgbackrest.go renders for every run.
use backupeer.Prelude.{ℕ, String, ◌<>◌, format_int}

-- `pgbrConfigData`.
pub record ConfigData : Type 0 where
  pub stanza : String
  pub host : String
  pub port : String
  pub database : String
  pub user : String
  pub password : String
  pub bucket : String
  pub region : String
  pub endpoint : String
  pub access_key : String
  pub secret_key : String
  pub path_style : String
  pub base_path : String
  pub retention_full : ℕ
  pub retention_diff : ℕ
  pub retention_archive : ℕ

-- `pgbackrestConfigTemplate`
unfoldable pub config_text : ConfigData → String
config_text d =
    "["
    <> d.stanza
    <> "]\npg1-host="
    <> d.host
    <> "\npg1-port="
    <> d.port
    <> "\npg1-database="
    <> d.database
    <> "\npg1-user="
    <> d.user
    <> "\npg1-password="
    <> d.password
    <> "\n\n[global]\nrepo1-type=s3\nrepo1-s3-bucket="
    <> d.bucket
    <> "\nrepo1-s3-region="
    <> d.region
    <> "\nrepo1-s3-endpoint="
    <> d.endpoint
    <> "\nrepo1-s3-key="
    <> d.access_key
    <> "\nrepo1-s3-key-secret="
    <> d.secret_key
    <> "\nrepo1-s3-uri-style="
    <> d.path_style
    <> "\nrepo1-path=/"
    <> d.base_path
    <> "/"
    <> d.stanza
    <> "/\nrepo1-retention-full="
    <> (format_int d.retention_full)
    <> "\nrepo1-retention-diff="
    <> (format_int d.retention_diff)
    <> "\nrepo1-retention-archive="
    <> (format_int d.retention_archive)
    <> "\nprocess-max=2\ncompress-type=zst\ncompress-level=6\n"
