-- ===== src/Tests.antt =====
-- Concrete data that the theorems are applied to: a cipher, a provider service and a cron engine
-- with the documented behaviour, and small tables.
pub mod Encryption
pub mod Storage
pub mod Backups
pub mod Manage
pub mod Sessions
pub mod Schedules
pub mod Restores
pub mod Connections
pub mod Notifications
pub mod Monitors
pub mod Credentials
pub mod Samples
pub mod Reports
use backupeer.Prelude.{
  ℕ, zero, suc, ◌+◌, ◌≡◌, ◌∙◌, refl, ap, String, Bool, true, false, Option, none, some, List, [],
  ◌∷◌, ◌++◌, Result, ok, err, arith, length, length-append, replicate, drop, eqb, ◌==◌,
  if◌then◌else◌,
}
use backupeer.Encryption.Binary.{Bytes}
use backupeer.Encryption.{Aead, IsAead}
use backupeer.Storage.{Provider, ProviderService}
use backupeer.Connection.{Connection, ConnectionDatabase}
use backupeer.Table.{Table}
use backupeer.Schedule.{Schedule}
use backupeer.Schedule.Scheduler.{Cron, IsCron}

-- The tag is 16 zeros and the plaintext follows it.
abbrev pub plain_aead : Aead
plain_aead = record {
  id_key = λ master salt. master ++ salt;
  new_cipher = λ _. none;
  new_gcm = λ _. none;
  seal = λ _ _ p. replicate 16 0 ++ p;
  unseal = λ _ _ c. ok (drop 16 c);
}

pub plain_aead-IsAead : IsAead plain_aead
plain_aead-IsAead = record {
  cipher_ok = λ _ _. refl;
  gcm_ok = λ _ _. refl;
  unseal-seal = λ _ _ _. refl;
  length-seal = λ _ _ p. omega (arith, length-append (replicate 16 0) p);
}

abbrev pub master : Bytes
master = replicate 32 5

abbrev pub salt : Bytes
salt = replicate 16 7

abbrev pub nonce : Bytes
nonce = replicate 12 3

abbrev pub minio : Provider
minio = record {
  id = "p1";
  name = "minio";
  provider_type = "s3";
  endpoint = "localhost:9000";
  region = "us-east-1";
  bucket = "backups";
  access_key = 1 ∷ 2 ∷ [];
  secret_key = 3 ∷ 4 ∷ [];
  path_style = true;
  is_default = true;
  created_at = 0;
  updated_at = 0;
}

-- It has one provider, which is the default.
abbrev pub one_provider : ProviderService
one_provider = record {
  State = Option Provider;
  get_decrypted = λ _ s. (ok s, s);
  get_default = λ s. (ok s, s);
  create_client = λ _. none;
}

abbrev pub conn : Connection
conn = record {
  id = "c1";
  name = "main";
  db_type = "postgresql";
  host = "localhost";
  port = 5432;
  username = "admin";
  password = "pw";
  ssl_mode = "disable";
  created_at = 0;
  updated_at = 0;
}

abbrev pub database : ConnectionDatabase
database = record {
  id = "d1";
  connection_id = "c1";
  db_name = "shop";
  is_selected = true;
  size_bytes = 100;
  created_at = 0;
}

abbrev pub table {ℓ} : {A : Type ℓ} → List A → Table A
table rows = record { faults = []; rows = rows }

abbrev pub nightly : Schedule
nightly = record {
  id = "s1";
  connection_id = "c1";
  database_id = "d1";
  backup_type = "full";
  cron_expr = "0 3 * * *";
  storage_provider_id = "p1";
  encryption_enabled = false;
  encryption_key_id = "";
  verify_enabled = false;
  retention_full = 7;
  retention_incr = 30;
  notif_target_ids = [];
  notify_on_success = false;
  notify_on_failure = true;
  enabled = true;
  created_at = 10;
}

-- The entries of the engine below are the places of a list.
abbrev pub entry : ℕ → List (Option Schedule) → Option Schedule
entry k [] = none
entry zero (x ∷ xs) = x
entry (suc k) (x ∷ xs) = entry k xs

abbrev pub clear : ℕ → List (Option Schedule) → List (Option Schedule)
clear k [] = []
clear zero (x ∷ xs) = none ∷ xs
clear (suc k) (x ∷ xs) = x ∷ clear k xs

entry_end : (xs : List (Option Schedule)) → entry (length xs) xs ≡ none
entry_end [] = refl
entry_end (x ∷ xs) = entry_end xs

entry-append :
    (s : Schedule) (k : ℕ) (xs : List (Option Schedule))
    → entry k (xs ++ (some s ∷ [])) ≡ (if eqb (length xs) k then some s else entry k xs)
entry-append s zero [] = refl
entry-append s (suc k) [] = ground arith
entry-append s zero (x ∷ xs) = ground arith
entry-append s (suc k) (x ∷ xs) = let ih = entry-append s k xs in ground (arith, ih)

entry-clear :
    (i k : ℕ) (xs : List (Option Schedule))
    → entry k (clear i xs) ≡ (if eqb i k then none else entry k xs)
entry-clear i k [] = ground arith
entry-clear zero zero (x ∷ xs) = refl
entry-clear zero (suc k) (x ∷ xs) = ground arith
entry-clear (suc i) zero (x ∷ xs) = ground arith
entry-clear (suc i) (suc k) (x ∷ xs) = let ih = entry-clear i k xs in ground (arith, ih)

-- It refuses the empty expression only.
abbrev pub list_cron : Cron
list_cron = record {
  State = List (Option Schedule);
  add_func = λ expr s c.
      if expr == "" then (err "empty spec string", c) else (ok (length c), c ++ (some s ∷ []));
  remove = clear;
  start = λ c. c;
  job = entry;
}

pub list_cron-IsCron : IsCron list_cron
list_cron-IsCron = record {
  add_fresh = λ expr s c i h. let last = entry_end c in ground (arith, h, last);
  job-add_func = λ expr s c i k h. let law = entry-append s k c in ground (arith, h, law);
  job-add_func_failed = λ expr s c e k h. ground (arith, h);
  job-remove = entry-clear;
  job-start = λ k c. refl;
}
