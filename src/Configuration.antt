-- ===== src/Configuration.antt =====
-- internal/config/config.go: the configuration from the environment.
use backupeer.Prelude.{ℕ, String, Bool, ◌==◌, none, some, ℤ, pos, atoi, if◌then◌else◌}

-- `Config`. A time is in milliseconds.
pub record Config : Type 0 where
  pub port : String
  pub data_dir : String
  pub database_url : String
  pub admin_user : String
  pub admin_pass : String
  pub secret_key : String
  pub encryption_key : String
  pub master_key : String
  pub storage_endpoint : String
  pub storage_region : String
  pub storage_bucket : String
  pub storage_access_key : String
  pub storage_secret_key : String
  pub storage_path_style : Bool
  pub max_concurrent : ℤ
  pub db_timeout : ℕ

-- The environment is `os.Getenv`, which answers "" for a variable that is not set.
unfoldable pub get_env : (String → String) → String → String → String
get_env env key fallback = if env key == "" then fallback else env key

unfoldable pub get_env_int : (String → String) → String → ℤ → ℤ
get_env_int env key fallback =
    if env key == "" then fallback else elim (atoi (env key)) [ none ↦ fallback | some i ↦ i ]

unfoldable pub load : (String → String) → Config
unfolding get_env get_env_int
load env = record {
  port = get_env env "JAGAD_PORT" "8080";
  data_dir = get_env env "JAGAD_DATA_DIR" "/data";
  database_url = get_env env "JAGAD_DATABASE_URL" "";
  admin_user = get_env env "JAGAD_ADMIN_USER" "admin";
  admin_pass = get_env env "JAGAD_ADMIN_PASS" "admin123";
  secret_key = get_env env "JAGAD_SECRET_KEY" "change-me-in-production";
  encryption_key = get_env env "JAGAD_ENCRYPTION_KEY" "";
  master_key = get_env env "JAGAD_MASTER_KEY" "";
  storage_endpoint = get_env env "JAGAD_S3_ENDPOINT" "";
  storage_region = get_env env "JAGAD_S3_REGION" "auto";
  storage_bucket = get_env env "JAGAD_S3_BUCKET" "backups";
  storage_access_key = get_env env "JAGAD_S3_ACCESS_KEY" "";
  storage_secret_key = get_env env "JAGAD_S3_SECRET_KEY" "";
  storage_path_style = get_env env "JAGAD_S3_PATH_STYLE" "true" == "true";
  max_concurrent = get_env_int env "JAGAD_MAX_CONCURRENT" (pos 3);
  db_timeout = 5000;
}
