-- ===== src/Storage/Handler.antt =====
-- internal/storage/provider_handler.go. A list that is nil is written as an empty one.
pub mod Reachable
pub mod SetDefault
use backupeer.Prelude.{
  ℕ, String, Bool, true, Option, none, some, List, [], ◌∷◌, map, Result, ok, err, ◌<>◌, wrap,
  if◌then◌else◌,
}
use backupeer.Http.{Response, write_error, write_json}
use backupeer.Encryption.Binary.{Bytes}
use backupeer.Encryption.{Aead}
use backupeer.Table.{Table, query}
use backupeer.Storage.{Provider}
use backupeer.Storage.Repo as Repo
use backupeer.Storage.Service.{
  Nonces, exposed, get_by_id, get_decrypted, prepared, create, merged, update, delete,
  new_s3_client,
}

-- What the object storage answers to a test: `minio.New` and the request for the bucket.
pub record Probe : Type 0 where
  pub minio_new : Provider → Option String
  pub bucket_exists : Provider → Option String

-- `ProviderService.TestConnection`
unfoldable pub test_connection : Probe → Provider → Option String
test_connection probe p = elim (new_s3_client probe.minio_new p) [
  | some e ↦ some ("create client: " <> e)
  | none ↦ elim (probe.bucket_exists p) [
    | some e ↦ some ("connection test failed: " <> e)
    | none ↦ none
  ]
]

module _ (c : Aead) (key : Bytes) where
  -- `ProviderService.List`; `by_name` is ORDER BY name, in the collation of the database.
  unfoldable pub list :
      (List Provider → List Provider) → Table Provider → Result (List Provider) × Table Provider
  list by_name t =
      let answer = query by_name t in
      (
        elim answer.0 [
          | err e ↦ err ("list providers: " <> e)
          | ok ps ↦ ok (map (exposed c key) ps)
        ],
        answer.1,
      )

  unfoldable pub handle_list :
      (List Provider → List Provider) → Table Provider → Response (List Provider) × Table Provider
  unfolding list
  handle_list by_name t =
      let answer = list by_name t in
      (elim answer.0 [ err e ↦ write_error 500 e | ok ps ↦ write_json 200 ps ], answer.1)

  -- `none` stands for a body that cannot be decoded. The answer shows the provider as it was stored.
  unfoldable pub handle_create :
      String → ℕ → Nonces → Option Provider → Table Provider → Response Provider × Table Provider
  handle_create id now ns none t = (write_error 400 "invalid request body", t)
  handle_create id now ns (some p) t =
      let done = create c key id now ns p t in
      (
        elim done.0 [
          | some e ↦ write_error 400 e
          | none ↦
              write_json 201
                (record (prepared c key ns p) { id = id; created_at = now; updated_at = now })
        ],
        done.1,
      )

  unfoldable pub handle_get : String → Table Provider → Response Provider × Table Provider
  handle_get id t =
      let answer = get_by_id c key id t in
      (
        elim answer.0 [
          | err e ↦ write_error 500 e
          | ok none ↦ write_error 404 "provider not found"
          | ok (some p) ↦ write_json 200 p
        ],
        answer.1,
      )

  -- The provider that `Update` leaves behind its pointer.
  after_update : ℕ → Nonces → Provider → Table Provider → Provider
  after_update now ns p t = elim (Repo.get_by_id p.id t).0 [
    | err _ ↦ p
    | ok none ↦ p
    | ok (some existing) ↦ record (merged c key ns existing p) { updated_at = now }
  ]

  -- The end of two handlers: `Update`, and the provider that it leaves.
  pub answer_update : ℕ → Nonces → Provider → Table Provider → Response Provider × Table Provider
  unfolding after_update
  answer_update now ns p t =
      let done = update c key now ns p t in
      (
        elim done.0 [
          | some e ↦ write_error 400 e
          | none ↦ write_json 200 (after_update now ns p t)
        ],
        done.1,
      )

  unfoldable pub handle_update :
      String → ℕ → Nonces → Option Provider → Table Provider → Response Provider × Table Provider
  unfolding answer_update
  handle_update id now ns none t = (write_error 400 "invalid request body", t)
  handle_update id now ns (some p) t = answer_update now ns (record p { id = id }) t

  unfoldable pub handle_delete :
      String → Table Provider → Response (Option Provider) × Table Provider
  handle_delete id t =
      let done = delete id t in
      (elim done.0 [ some e ↦ write_error 500 e | none ↦ write_json 204 none ], done.1)

  -- The error of the test is part of a successful answer.
  unfoldable pub handle_test :
      Probe → String → Table Provider → Response (Option String) × Table Provider
  unfolding test_connection
  handle_test probe id t =
      let answer = get_decrypted c key id t in
      (
        elim answer.0 [
          | err e ↦ write_error 500 e
          | ok none ↦ write_error 404 "provider not found"
          | ok (some p) ↦ write_json 200 (test_connection probe p)
        ],
        answer.1,
      )

  unfoldable pub handle_set_default :
      String → ℕ → Nonces → Table Provider → Response Provider × Table Provider
  unfolding answer_update
  handle_set_default id now ns t =
      let answer = get_by_id c key id t in
      elim answer.0 [
        | err e ↦ (write_error 500 e, answer.1)
        | ok none ↦ (write_error 404 "provider not found", answer.1)
        | ok (some p) ↦ answer_update now ns (record p { is_default = true }) answer.1
      ]
