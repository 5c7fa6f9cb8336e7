-- ===== src/Storage/Repo.antt =====
-- internal/repository/postgres/storage_provider.go. PRIMARY KEY and CHECK are the schema's of
-- internal/repository/postgres/db.go.
use backupeer.Prelude.{
  ℕ, String, Bool, false, not, Option, List, [], ◌∷◌, ◌++◌, ◌||◌, Result, ok, err, ◌<>◌, ◌==◌, wrap,
  wrap_error, is_one_of, any, if◌then◌else◌,
}
use backupeer.Table.{
  Table, query, exec, find, update_where, delete_where, check_violation, unique_violation,
}
use backupeer.Storage.{Provider}

abbrev pub provider_types : List String
provider_types = "s3" ∷ "r2" ∷ "minio" ∷ "gcs" ∷ "b2" ∷ "s3-compat" ∷ []

abbrev pub has_id : String → Provider → Bool
has_id id p = p.id == id

abbrev pub insert_row : Provider → List Provider → Result (List Provider)
insert_row p rows =
    if any (has_id p.id) rows
    then err unique_violation
    else if is_one_of p.provider_type provider_types
    then ok (rows ++ (p ∷ []))
    else err check_violation

-- The columns that the UPDATE names.
abbrev pub updated : Provider → Provider → Provider
updated p row = record row {
  name = p.name;
  provider_type = p.provider_type;
  endpoint = p.endpoint;
  region = p.region;
  bucket = p.bucket;
  access_key = p.access_key;
  secret_key = p.secret_key;
  path_style = p.path_style;
  is_default = p.is_default;
  updated_at = p.updated_at;
}

abbrev pub update_row : Provider → List Provider → Result (List Provider)
update_row p rows =
    if is_one_of p.provider_type provider_types || not (any (has_id p.id) rows)
    then ok (update_where (has_id p.id) (updated p) rows)
    else err check_violation

abbrev pub not_default : Provider → Provider
not_default p = record p { is_default = false }

abbrev pub clear_rows : String → List Provider → List Provider
clear_rows exclude rows = update_where (λ p. not (has_id exclude p)) not_default rows

unfoldable pub get_by_id : String → Table Provider → Result (Option Provider) × Table Provider
get_by_id id t =
    let answer = query (find (has_id id)) t in
    (wrap ("get provider " <> id <> ": ") answer.0, answer.1)

unfoldable pub get_default : Table Provider → Result (Option Provider) × Table Provider
get_default t =
    let answer = query (find Provider.is_default) t in
    (wrap "get default provider: " answer.0, answer.1)

-- The identifier is `uuid.New()` and the time `time.Now()`.
unfoldable pub create : String → ℕ → Provider → Table Provider → Option String × Table Provider
create id now p t =
    let done = exec (insert_row (record p { id = id; created_at = now; updated_at = now })) t in
    (wrap_error "create provider: " done.0, done.1)

unfoldable pub update : ℕ → Provider → Table Provider → Option String × Table Provider
update now p t =
    let done = exec (update_row (record p { updated_at = now })) t in
    (wrap_error ("update provider " <> p.id <> ": ") done.0, done.1)

unfoldable pub delete : String → Table Provider → Option String × Table Provider
delete id t =
    let done = exec (λ rows. ok (delete_where (has_id id) rows)) t in
    (wrap_error ("delete provider " <> id <> ": ") done.0, done.1)

unfoldable pub clear_default : String → Table Provider → Option String × Table Provider
clear_default exclude t =
    let done = exec (λ rows. ok (clear_rows exclude rows)) t in
    (wrap_error "clear default: " done.0, done.1)
