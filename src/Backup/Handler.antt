-- ===== src/Backup/Handler.antt =====
-- internal/backup/handler.go, with the reports that the service passes on. A list that is nil is
-- written as an empty one; `none` stands for a body that cannot be decoded.
pub mod Query
use backupeer.Prelude.{
  ℕ, zero, suc, ◌+◌, ◌-◌, ◌*◌, ◌^◌, String, Bool, true, false, Option, none, some, List, [], ◌∷◌,
  Result, ok, err, ◌<>◌, ◌==◌, ◌&&◌, ltb, leb, eqb, is_digit, codes, take, ℤ, pos, negsuc, atoi,
  wrap, if◌then◌else◌,
}
use backupeer.Backup.Handler.Query.{positive_up_to, atoi_value}
use backupeer.Http.{Response, write_error, write_json}
use backupeer.Table.{query}
use backupeer.Storage.{Provider, ProviderService}
use backupeer.Backup.{Backup}
use backupeer.Backup.Service.{World}
use backupeer.Backup.Start.{Order, Job, start_backup}
use backupeer.Backup.Manage as Manage
use backupeer.Backup.Manage.{Stats}
use backupeer.Backup.Verify.{start_verification}
use backupeer.Backup.Reports.{
  BackupTrend, StaleBackupAlert, list_trends, list_slowest, list_stale_connections,
}

-- A limit below 1 is replaced in `Service.List` as 0 is.
abbrev pub not_negative : ℤ → ℕ
not_negative (pos n) = n
not_negative (negsuc n) = 0

-- `strings` are cut by bytes; an identifier is ASCII. `none` is the panic of `b.ID[:8]`.
first_eight : ℕ → String → Option String
first_eight zero s = some ""
first_eight (suc n) String.[] = none
first_eight (suc n) (String.◌∷◌ c s) = elim (first_eight n s) [
  | none ↦ none
  | some t ↦ some (String.◌∷◌ c t)
]

abbrev pub extension : Option ℕ → String
extension none = "sql.gz"
extension (some n) = if ltb 0 n then "enc.sql.gz" else "sql.gz"

-- The filename of a download.
unfoldable pub filename : Backup → Option String
unfolding first_eight
filename b = elim (first_eight 8 b.id) [
  | none ↦ none
  | some short ↦
      some ("backup-" <> short <> "-" <> b.backup_type <> "." <> extension b.encrypted_size_bytes)
]

-- What a download answers: the file as an attachment, an error as JSON, or a panic.
pub data Downloaded : Type 0 where
  attachment : String → Provider × String → Downloaded
  failed : ℕ → String → Downloaded
  panicked : Downloaded

-- The body of a POST. The pointers to a Boolean are optional.
pub record CreateRequest : Type 0 where
  pub connection_id : String
  pub database_id : String
  pub backup_type : String
  pub schedule_id : Option String
  pub storage_provider_id : Option String
  pub notif_target_ids : List String
  pub notify_on_success : Option Bool
  pub notify_on_failure : Option Bool

abbrev pub given_or_true : Option Bool → Bool
given_or_true none = true
given_or_true (some b) = b

unfoldable pub order_of : CreateRequest → Order
order_of r = record {
  connection_id = r.connection_id;
  database_id = r.database_id;
  backup_type = r.backup_type;
  schedule_id = r.schedule_id;
  storage_provider_id = r.storage_provider_id;
  notif_target_ids = r.notif_target_ids;
  notify_on_success = given_or_true r.notify_on_success;
  notify_on_failure = given_or_true r.notify_on_failure;
}

module _ {PS : ProviderService} where
  abbrev pub answered {ℓ} : {A : Type ℓ} → Result A × World PS → Response A × World PS
  answered (err e, w) = (write_error 500 e, w)
  answered (ok a, w) = (write_json 200 a, w)

  unfoldable pub handle_stats : World PS → Response Stats × World PS
  handle_stats w = answered (Manage.stats w)

  unfoldable pub handle_trends :
      (ℕ → ℕ) → ℕ → String → World PS → Response (List BackupTrend) × World PS
  unfolding positive_up_to
  handle_trends day_of now days w =
      let answer = list_trends day_of now (positive_up_to (some 365) 30 days) w.backups in
      answered (answer.0, record w { backups = answer.1 })

  unfoldable pub handle_slowest : String → World PS → Response (List Backup) × World PS
  unfolding positive_up_to
  handle_slowest limit w =
      let answer = list_slowest (positive_up_to (some 100) 10 limit) w.backups in
      answered (answer.0, record w { backups = answer.1 })

  -- The query joins three tables; its fault is the one of the backups.
  unfoldable pub handle_freshness :
      ℕ → String → World PS → Response (List StaleBackupAlert) × World PS
  unfolding positive_up_to
  handle_freshness now hours w =
      let answer =
        list_stale_connections now (positive_up_to none 24 hours) w.conns.rows w.dbs.rows
          w.backups in
      answered (answer.0, record w { backups = answer.1 })

  -- PostgreSQL refuses an OFFSET below 0.
  unfoldable pub handle_list :
      String → String → String → String → World PS → Response (List Backup) × World PS
  unfolding atoi_value
  handle_list connection_id database_id limit offset w = elim (atoi_value offset) [
    | pos skipped ↦
        answered (Manage.list connection_id database_id (not_negative (atoi_value limit)) skipped w)
    | negsuc _ ↦
        let answer = query (λ rows. rows) w.backups in
        let refused : String = elim answer.0 [
          | err e ↦ e
          | ok _ ↦ "OFFSET must not be negative (SQLSTATE 2201X)"
        ] in
        (write_error 500 ("list backups: " <> refused), record w { backups = answer.1 })
  ]

  unfoldable pub handle_create :
      String → ℕ → Option CreateRequest → World PS → Response Backup × World PS
  unfolding order_of
  handle_create id now none w = (write_error 400 "invalid request body", w)
  handle_create id now (some r) w =
      let started = start_backup id now (order_of r) w in
      (elim started.0 [ err e ↦ write_error 400 e | ok job ↦ write_json 201 job.backup ], started.1)

  -- The lookup that three of the handlers begin with: the backup, or the answer without one.
  abbrev pub looked_up : String → World PS → Result Backup × ℕ × World PS
  looked_up id w =
      let found = Manage.get id w in
      (
        elim found.0 [ err e ↦ err e | ok none ↦ err "backup not found" | ok (some b) ↦ ok b ],
        elim found.0 [ err e ↦ 500 | ok _ ↦ 404 ],
        found.1,
      )

  unfoldable pub handle_get : String → World PS → Response Backup × World PS
  handle_get id w =
      let (found, code, w') = looked_up id w in
      (elim found [ err e ↦ write_error code e | ok b ↦ write_json 200 b ], w')

  -- The answer's only member, "log", is shown.
  unfoldable pub handle_logs : String → World PS → Response String × World PS
  handle_logs id w =
      let (found, code, w') = looked_up id w in
      (elim found [ err e ↦ write_error code e | ok b ↦ write_json 200 b.log_output ], w')

  -- `none` is the answer 204, which has no body.
  unfoldable pub handle_delete : String → World PS → Option (Response String) × World PS
  handle_delete id w =
      let done = Manage.delete id w in
      (elim done.0 [ some e ↦ some (write_error 500 e) | none ↦ none ], done.1)

  -- The record for `run_verification`, which the answer does not show, stands beside it.
  unfoldable pub handle_verify :
      String → World PS → Response (List (String × String)) × Option Backup × World PS
  handle_verify id w =
      let started = start_verification id w in
      elim started.0 [
        | err e ↦ (write_error 400 e, none, started.1)
        | ok b ↦
            (write_json 200 (("status", "verifying") ∷ ("backup_id", id) ∷ []), some b, started.1)
      ]

  -- The record is read twice. An error of the transfer may come after a part of the file was sent.
  unfoldable pub handle_download : String → Option String → World PS → Downloaded × World PS
  unfolding filename
  handle_download id transfer w =
      let (found, code, w') = looked_up id w in
      elim found [
        | err e ↦ (failed code e, w')
        | ok b ↦ elim (filename b) [
          | none ↦ (panicked, w')
          | some name ↦
              let sent = Manage.download id transfer w' in
              (elim sent.0 [ err e ↦ failed 500 e | ok object ↦ attachment name object ], sent.1)
        ]
      ]
