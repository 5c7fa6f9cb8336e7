-- ===== src/Restore/Handler.antt =====
-- The HTTP handlers of internal/restore/service.go.
use backupeer.Prelude.{ℕ, String, Option, none, some, List, ok, err}
use backupeer.Http.{Response, write_error, write_json}
use backupeer.Storage.{ProviderService}
use backupeer.Restore.{Restore}
use backupeer.Restore as Restores
use backupeer.Restore.Service.{World, Job, start_restore}

module _ {PS : ProviderService} where
  unfoldable pub handle_list : World PS → Response (List Restore) × World PS
  handle_list w =
      let answer = Restores.list w.restores in
      (
        elim answer.0 [ err e ↦ write_error 500 e | ok rs ↦ write_json 200 rs ],
        record w { restores = answer.1 },
      )

  unfoldable pub handle_get : String → World PS → Response Restore × World PS
  handle_get id w =
      let found = Restores.get_by_id id w.restores in
      (
        elim found.0 [
          | err e ↦ write_error 500 e
          | ok none ↦ write_error 404 "restore not found"
          | ok (some r) ↦ write_json 200 r
        ],
        record w { restores = found.1 },
      )

  -- `none` stands for a body that cannot be decoded. The job is run in the background.
  unfoldable pub handle_restore :
      String → ℕ → String → Option String → World PS → Response Restore × Option Job × World PS
  handle_restore id now backup_id none w = (write_error 400 "invalid request body", none, w)
  handle_restore id now backup_id (some target) w =
      let started = start_restore id now backup_id target w in
      elim started.0 [
        | err e ↦ (write_error 400 e, none, started.1)
        | ok job ↦ (write_json 201 job.restore, some job, started.1)
      ]
