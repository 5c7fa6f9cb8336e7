-- ===== src/Schedule/Repo.antt =====
-- internal/repository/postgres/schedule.go. The CHECK constraint is the schema's of db.go beside it.
use backupeer.Prelude.{
  ℕ, String, Bool, not, ◌||◌, Option, none, some, List, [], ◌∷◌, ◌++◌, Result, ok, err, ◌<>◌, ◌==◌,
  wrap, wrap_error, is_one_of, any, filter, leb, if◌then◌else◌,
}
use backupeer.Table.{
  Table, query, exec, find, update_where, delete_where, check_violation, unique_violation,
}
use backupeer.Schedule.{Schedule}

abbrev pub has_id : String → Schedule → Bool
has_id id s = s.id == id

abbrev pub is_admissible : Schedule → Bool
is_admissible s = is_one_of s.backup_type ("full" ∷ "incremental" ∷ [])

insert_newest_first : Schedule → List Schedule → List Schedule
insert_newest_first s [] = s ∷ []
insert_newest_first s (x ∷ xs) =
    if leb x.created_at s.created_at then s ∷ x ∷ xs else x ∷ insert_newest_first s xs

-- ORDER BY created_at DESC
unfoldable pub newest_first : List Schedule → List Schedule
unfolding insert_newest_first
newest_first [] = []
newest_first (x ∷ xs) = insert_newest_first x (newest_first xs)

unfoldable pub list : Table Schedule → Result (List Schedule) × Table Schedule
list t = let answer = query newest_first t in (wrap "list schedules: " answer.0, answer.1)

unfoldable pub list_by_connection :
    String → Table Schedule → Result (List Schedule) × Table Schedule
list_by_connection connection_id t =
    let answer =
      query (λ rows. newest_first (filter (λ s. s.connection_id == connection_id) rows)) t in
    (wrap "list schedules by connection: " answer.0, answer.1)

unfoldable pub get_by_id : String → Table Schedule → Result (Option Schedule) × Table Schedule
get_by_id id t =
    let answer = query (find (has_id id)) t in
    (wrap ("get schedule " <> id <> ": ") answer.0, answer.1)

unfoldable pub insert_row : Schedule → List Schedule → Result (List Schedule)
insert_row s rows =
    if any (has_id s.id) rows
    then err unique_violation
    else if is_admissible s
    then ok (rows ++ (s ∷ []))
    else err check_violation

unfoldable pub create : String → ℕ → Schedule → Table Schedule → Result Schedule × Table Schedule
unfolding insert_row
create id now s t =
    let s' = record s { id = id; created_at = now } in
    let sent = exec (insert_row s') t in
    (elim sent.0 [ none ↦ ok s' | some e ↦ err ("create schedule: " <> e) ], sent.1)

-- The columns that the UPDATE names: neither the connection nor the database is one.
abbrev pub updated : Schedule → Schedule → Schedule
updated s row = record s {
  id = row.id;
  connection_id = row.connection_id;
  database_id = row.database_id;
  created_at = row.created_at;
}

unfoldable pub update_row : Schedule → List Schedule → Result (List Schedule)
update_row s rows =
    if is_admissible s || not (any (has_id s.id) rows)
    then ok (update_where (has_id s.id) (updated s) rows)
    else err check_violation

unfoldable pub update : Schedule → Table Schedule → Option String × Table Schedule
unfolding update_row
update s t =
    let sent = exec (update_row s) t in
    (wrap_error ("update schedule " <> s.id <> ": ") sent.0, sent.1)

unfoldable pub delete : String → Table Schedule → Option String × Table Schedule
delete id t =
    let sent = exec (λ rows. ok (delete_where (has_id id) rows)) t in
    (wrap_error ("delete schedule " <> id <> ": ") sent.0, sent.1)
