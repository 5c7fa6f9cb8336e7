-- ===== src/Schedule/Handler/Update.antt =====
-- What handleUpdate of internal/schedule/handler.go stores and what it schedules.
use backupeer.Prelude.{
  ℕ, ◌≡◌, refl, String, true, none, some, List, [], ◌∷◌, Result-cases, arith, eq_iff, eq_refl,
  map_get, inl, inr,
}
use backupeer.Table.{Table, find, update_where}
use backupeer.Table.Laws.{rows-exec_done}
use backupeer.Schedule.{Schedule}
use backupeer.Schedule.Repo as Repo
use backupeer.Schedule.Scheduler.{Cron, IsCron, Scheduler, add_job, register, remove_job}
use backupeer.Schedule.Handler.{Api, handle_update, register_with, update}

module _ {C : Cron} (laws : IsCron C) where
  -- An enabled schedule that AddJob accepts runs as it was given.
  pub add_job-runs :
      (sch : Schedule) (s : Scheduler C)
      → sch.enabled ≡ true
      → (add_job sch s).0 ≡ none
      → (i : ℕ) × (map_get sch.id (add_job sch s).1.entries ≡ some i)
        × (C.job i (add_job sch s).1.cron ≡ some sch)
  unfolding add_job register
  add_job-runs sch s on accepted =
      elim (Result-cases (C.add_func sch.cron_expr sch (remove_job sch.id s).cron).0) [
        | inl (i, e) ↦
            let law = laws.job-add_func sch.cron_expr sch (remove_job sch.id s).cron i i e in
            (i, ground (arith, on, e, eq_refl sch.id), ground (arith, on, e, law))
        | inr (x, e) ↦ ground (arith, on, e, accepted)
      ]

  find-update_where :
      (id : String) (sch : Schedule) (rows : List Schedule) (row : Schedule)
      → sch.id ≡ id
      → find (Repo.has_id id) rows ≡ some row
      → find (Repo.has_id id) (update_where (Repo.has_id id) (Repo.updated sch) rows)
        ≡ some (Repo.updated sch row)
  find-update_where id sch [] row own h = ground (arith, h)
  find-update_where id sch (r ∷ rs) row own h =
      let ih = find-update_where id sch rs row own in ground (arith, ih, h)

  update_stored :
      (sch row : Schedule) (t : Table Schedule)
      → find (Repo.has_id sch.id) t.rows ≡ some row
      → (update sch t).0 ≡ none
      → find (Repo.has_id sch.id) (update sch t).1.rows ≡ some (Repo.updated sch row)
  unfolding update Repo.update Repo.update_row
  update_stored sch row t found stored =
      let made = rows-exec_done (Repo.update_row sch) t in
      let read = find-update_where sch.id sch t.rows row refl found in
      ground (arith, made, read, stored, eq_iff sch.cron_expr "")

  -- When handleUpdate answers 200 to an enabled schedule of a stored row, the row is the body with
  -- the stored identifier, connection, database and time of creation, and the job that the cron
  -- engine runs is the body with the identifier of the path: its connection and database are the
  -- body's.
  pub handle_update-stored_and_run :
      (id : String) (body row : Schedule) (api : Api C)
      → find (Repo.has_id id) api.schedules.rows ≡ some row
      → body.enabled ≡ true
      → (handle_update id (some body) api).0.status ≡ 200
      → (find (Repo.has_id id) (handle_update id (some body) api).1.schedules.rows
          ≡ some (Repo.updated (record body { id = id }) row))
        × ((i : ℕ) × (map_get id (handle_update id (some body) api).1.scheduler.entries ≡ some i)
            × (C.job i (handle_update id (some body) api).1.scheduler.cron
                ≡ some (record body { id = id })))
  unfolding handle_update register_with
  handle_update-stored_and_run id body row api found on answered =
      let sch : Schedule = record body { id = id } in
      let stored : (update sch api.schedules).0 ≡ none = ground (arith, answered) in
      let accepted : (add_job sch api.scheduler).0 ≡ none = ground (arith, answered, stored) in
      let (i, entry, runs) = add_job-runs sch api.scheduler on accepted in
      (
        rw (stored, handle_update, register_with, accepted)
            (update_stored sch row api.schedules found stored),
        (
          i,
          rw (stored, handle_update, register_with, accepted) entry,
          rw (stored, handle_update, register_with, accepted) runs,
        ),
      )
