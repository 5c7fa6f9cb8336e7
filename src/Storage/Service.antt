-- ===== src/Storage/Service.antt =====
-- internal/storage/provider_service.go, over the repository.
use backupeer.Prelude.{
  ℕ, String, Bool, true, false, Option, none, some, [], ◌∷◌, ◌||◌, Result, ok, err, ◌<>◌, ◌==◌, eqb,
  length, if◌then◌else◌,
}
use backupeer.Encryption.Binary.{Bytes}
use backupeer.Encryption.{Aead}
use backupeer.Table.{Table}
use backupeer.Storage.{Provider, ProviderService}
use backupeer.Storage.Credentials.{must_encrypt, must_decrypt}
use backupeer.Storage.Repo as Repo

-- The six bullets (UTF-8) that stand for a secret key.
abbrev pub mask : Bytes
mask =
    0xe2 ∷ 0x80 ∷ 0xa2 ∷ 0xe2 ∷ 0x80 ∷ 0xa2 ∷ 0xe2 ∷ 0x80 ∷ 0xa2 ∷ 0xe2 ∷ 0x80 ∷ 0xa2 ∷ 0xe2 ∷ 0x80
    ∷ 0xa2 ∷ 0xe2 ∷ 0x80 ∷ 0xa2 ∷ []

unfoldable pub same_bytes : Bytes → Bytes → Bool
same_bytes [] [] = true
same_bytes (x ∷ xs) (y ∷ ys) = if eqb x y then same_bytes xs ys else false
same_bytes _ _ = false

-- `p.AccessKey == "••••••" || p.AccessKey == ""`
unfoldable pub is_masked : Bytes → Bool
unfolding same_bytes
is_masked bs = same_bytes bs mask || eqb (length bs) 0

-- What the random source answers for the two nonces of a provider's keys.
pub record Nonces : Type 0 where
  pub access_nonce : Result Bytes
  pub secret_nonce : Result Bytes

-- `if p.IsDefault { ClearDefault }`, and then the statement that stores the provider.
abbrev pub clear_then :
    Bool
    → String
    → (Table Provider → Option String × Table Provider)
    → Table Provider
    → Option String × Table Provider
clear_then is_default exclude store t =
    if is_default
    then (let cleared = Repo.clear_default exclude t in
        elim cleared.0 [ some e ↦ (some e, cleared.1) | none ↦ store cleared.1 ])
    else store t

abbrev pub on_found : (Provider → Provider) → Result (Option Provider) → Result (Option Provider)
on_found f (err e) = err e
on_found f (ok none) = ok none
on_found f (ok (some p)) = ok (some (f p))

-- The guards of `Create`.
abbrev pub create_error : Provider → Option String
create_error p =
    if p.name == ""
    then some "provider name is required"
    else if p.endpoint == ""
    then some "endpoint is required"
    else if p.bucket == ""
    then some "bucket is required"
    else none

module _ (c : Aead) (key : Bytes) where
  abbrev pub exposed : Provider → Provider
  exposed p = record p { access_key = must_decrypt c key p.access_key; secret_key = mask }

  abbrev pub revealed : Provider → Provider
  revealed p = record p {
    access_key = must_decrypt c key p.access_key;
    secret_key = must_decrypt c key p.secret_key;
  }

  unfoldable pub get_by_id : String → Table Provider → Result (Option Provider) × Table Provider
  get_by_id id t = let answer = Repo.get_by_id id t in (on_found exposed answer.0, answer.1)

  unfoldable pub get_decrypted : String → Table Provider → Result (Option Provider) × Table Provider
  get_decrypted id t = let answer = Repo.get_by_id id t in (on_found revealed answer.0, answer.1)

  unfoldable pub get_default : Table Provider → Result (Option Provider) × Table Provider
  get_default t = let answer = Repo.get_default t in (on_found exposed answer.0, answer.1)

  -- The provider as it is stored: defaults filled in, keys encrypted.
  abbrev pub prepared : Nonces → Provider → Provider
  prepared ns p = record p {
    provider_type = if p.provider_type == "" then "s3" else p.provider_type;
    region = if p.region == "" then "auto" else p.region;
    access_key = must_encrypt c key ns.access_nonce p.access_key;
    secret_key = must_encrypt c key ns.secret_nonce p.secret_key;
  }

  unfoldable pub create :
      String → ℕ → Nonces → Provider → Table Provider → Option String × Table Provider
  create id now ns p t = elim (create_error p) [
    | some e ↦ (some e, t)
    | none ↦ clear_then p.is_default "" (Repo.create id now (prepared ns p)) t
  ]

  -- A key that is masked or empty stays as it was stored.
  abbrev pub kept_key : Result Bytes → Bytes → Bytes → Bytes
  kept_key nonce old new = if is_masked new then old else must_encrypt c key nonce new

  abbrev pub merged : Nonces → Provider → Provider → Provider
  merged ns existing p = record p {
    access_key = kept_key ns.access_nonce existing.access_key p.access_key;
    secret_key = kept_key ns.secret_nonce existing.secret_key p.secret_key;
    provider_type = if p.provider_type == "" then existing.provider_type else p.provider_type;
    region = if p.region == "" then existing.region else p.region;
  }

  unfoldable pub update : ℕ → Nonces → Provider → Table Provider → Option String × Table Provider
  unfolding is_masked
  update now ns p t =
      let found = Repo.get_by_id p.id t in
      elim found.0 [
        | err e ↦ (some e, found.1)
        | ok none ↦ (some "provider not found", found.1)
        | ok (some existing) ↦
            clear_then p.is_default p.id (Repo.update now (merged ns existing p)) found.1
      ]

unfoldable pub delete : String → Table Provider → Option String × Table Provider
delete id t = Repo.delete id t

-- `NewS3Client`, given the error of `minio.New`
unfoldable pub new_s3_client : (Provider → Option String) → Provider → Option String
new_s3_client minio_new p =
    if p.bucket == ""
    then some "bucket name is required"
    else elim (minio_new p) [ none ↦ none | some e ↦ some ("create s3 client: " <> e) ]

-- The service as the packages backup and restore see it.
abbrev pub provider_service : Aead → Bytes → (Provider → Option String) → ProviderService
provider_service c key minio_new = record {
  State = Table Provider;
  get_decrypted = get_decrypted c key;
  get_default = get_default c key;
  create_client = new_s3_client minio_new;
}
