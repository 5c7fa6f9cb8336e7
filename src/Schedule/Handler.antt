-- ===== src/Schedule/Handler.antt =====
-- internal/schedule: the service (service.go) and the HTTP handlers (handler.go).
pub mod Update
use backupeer.Prelude.{
  ℕ, String, Bool, true, false, Option, none, some, List, [], ◌∷◌, Result, ok, err, ◌<>◌, ◌==◌, eqb,
  if◌then◌else◌,
}
use backupeer.Http as Http
use backupeer.Table.{Table}
use backupeer.Schedule.{Schedule}
use backupeer.Schedule.Repo as Repo
use backupeer.Schedule.Scheduler.{Cron, Scheduler, add_job, remove_job, run_now}

-- The defaults that `Service.Create` fills in.
unfoldable pub with_defaults : Schedule → Schedule
with_defaults s = record s {
  backup_type = if s.backup_type == "" then "full" else s.backup_type;
  retention_full = if eqb s.retention_full 0 then 7 else s.retention_full;
  retention_incr = if eqb s.retention_incr 0 then 30 else s.retention_incr;
  enabled = true;
}

unfoldable pub create : String → ℕ → Schedule → Table Schedule → Result Schedule × Table Schedule
unfolding with_defaults
create id now s t =
    if s.connection_id == ""
    then (err "connection_id is required", t)
    else if s.database_id == ""
    then (err "database_id is required", t)
    else if s.cron_expr == ""
    then (err "cron_expr is required", t)
    else if s.storage_provider_id == ""
    then (err "storage_provider_id is required", t)
    else Repo.create id now (with_defaults s) t

unfoldable pub update : Schedule → Table Schedule → Option String × Table Schedule
update s t = if s.cron_expr == "" then (some "cron_expr is required", t) else Repo.update s t

-- The status of a response, with its error or the schedule that it shows.
pub record Response : Type 0 where
  pub status : ℕ
  pub body : Result (Option Schedule)

abbrev refusal : ℕ → String → Response
refusal code message = record { status = code; body = err message }

abbrev answer : ℕ → Option Schedule → Response
answer code shown = record { status = code; body = ok shown }

-- The state behind the handlers.
pub record Api (C : Cron) : Type 0 where
  pub schedules : Table Schedule
  pub scheduler : Scheduler C

module _ {C : Cron} where
  register_with : String → ℕ → Schedule → Api C → Response × Api C
  register_with failure code sch api =
      let added = add_job sch api.scheduler in
      let api' = record api { scheduler = added.1 } in
      elim added.0 [
        | some e ↦ (refusal 500 (failure <> e), api')
        | none ↦ (answer code (some sch), api')
      ]

  -- `none` stands for a body that cannot be decoded.
  unfoldable pub handle_create : String → ℕ → Option Schedule → Api C → Response × Api C
  unfolding register_with
  handle_create id now none api = (refusal 400 "invalid request body", api)
  handle_create id now (some sch) api =
      let made = create id now sch api.schedules in
      let api' = record api { schedules = made.1 } in
      elim made.0 [
        | err e ↦ (refusal 400 e, api')
        | ok sch' ↦ register_with "schedule created but cron registration failed: " 201 sch' api'
      ]

  unfoldable pub handle_update : String → Option Schedule → Api C → Response × Api C
  unfolding register_with
  handle_update id none api = (refusal 400 "invalid request body", api)
  handle_update id (some body) api =
      let sch = record body { id = id } in
      let sent = update sch api.schedules in
      let api' = record api { schedules = sent.1 } in
      elim sent.0 [
        | some e ↦ (refusal 400 e, api')
        | none ↦ register_with "schedule updated but cron registration failed: " 200 sch api'
      ]

  -- The job is removed before the row, and stays removed when the row cannot be deleted.
  unfoldable pub handle_delete : String → Api C → Response × Api C
  handle_delete id api =
      let sent = Repo.delete id api.schedules in
      let api' : Api C = record { schedules = sent.1; scheduler = remove_job id api.scheduler } in
      elim sent.0 [ some e ↦ (refusal 500 e, api') | none ↦ (answer 204 none, api') ]

  unfoldable pub handle_get : String → Api C → Response × Api C
  handle_get id api =
      let found = Repo.get_by_id id api.schedules in
      (
        elim found.0 [
          | err e ↦ refusal 500 e
          | ok none ↦ refusal 404 "schedule not found"
          | ok (some sch) ↦ answer 200 (some sch)
        ],
        record api { schedules = found.1 },
      )

  -- A list that is nil is written as an empty one.
  unfoldable pub handle_list : String → Api C → Http.Response (List Schedule) × Api C
  handle_list connection_id api =
      let found =
        if connection_id == ""
        then Repo.list api.schedules
        else Repo.list_by_connection connection_id api.schedules in
      (
        elim found.0 [ err e ↦ Http.write_error 500 e | ok ss ↦ Http.write_json 200 ss ],
        record api { schedules = found.1 },
      )

  -- The schedule for `execute_backup`, which runs in the background, stands beside the answer.
  unfoldable pub handle_run :
      String → Api C → Http.Response (List (String × String)) × Option Schedule × Api C
  unfolding run_now
  handle_run id api =
      let found = run_now id api.schedules in
      let api' = record api { schedules = found.1 } in
      elim found.0 [
        | err e ↦ (Http.write_error 400 e, none, api')
        | ok sch ↦ (
          Http.write_json 200 (("status", "triggered") ∷ ("schedule_id", id) ∷ []),
          some sch,
          api',
        )
      ]
