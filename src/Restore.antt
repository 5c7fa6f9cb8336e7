-- ===== src/Restore.antt =====
-- internal/restore: the record of one restore (model.go) and its table
-- (internal/repository/postgres/restore.go).
pub mod Service
pub mod Tools
pub mod Handler
pub mod Outcome
use backupeer.Prelude.{
  ℕ, String, Bool, true, false, not, ◌||◌, ◌&&◌, Option, none, some, List, [], ◌∷◌, ◌++◌, map,
  Result, ok, err, ◌<>◌, ◌==◌, wrap, wrap_error, is_one_of, any, leb, if◌then◌else◌,
}
use backupeer.Table.{Table, query, exec, find, update_where, check_violation, unique_violation}

pub record Restore : Type 0 where
  pub id : String
  pub backup_id : String
  pub target_connection : Option String
  pub status : String
  pub duration_ms : Option ℕ
  pub log_output : String
  pub started_at : Option ℕ
  pub completed_at : Option ℕ
  pub created_at : ℕ

abbrev pub has_id : String → Restore → Bool
has_id id r = r.id == id

-- CHECK(status IN ...)
abbrev pub statuses : List String
statuses = "running" ∷ "success" ∷ "failed" ∷ []

-- `log_output` is no column of the SELECTs, nor of the INSERT.
abbrev pub without_log : Restore → Restore
without_log r = record r { log_output = "" }

insert_newest_first : Restore → List Restore → List Restore
insert_newest_first r [] = r ∷ []
insert_newest_first r (x ∷ xs) =
    if leb x.created_at r.created_at then r ∷ x ∷ xs else x ∷ insert_newest_first r xs

unfoldable pub newest_first : List Restore → List Restore
unfolding insert_newest_first
newest_first [] = []
newest_first (x ∷ xs) = insert_newest_first x (newest_first xs)

unfoldable pub list : Table Restore → Result (List Restore) × Table Restore
list t =
    let answer = query (λ rows. map without_log (newest_first rows)) t in
    (wrap "list restores: " answer.0, answer.1)

abbrev pub scanned_row : Option Restore → Option Restore
scanned_row none = none
scanned_row (some r) = some (without_log r)

unfoldable pub get_by_id : String → Table Restore → Result (Option Restore) × Table Restore
get_by_id id t =
    let answer = query (λ rows. scanned_row (find (has_id id) rows)) t in
    (wrap ("get restore " <> id <> ": ") answer.0, answer.1)

unfoldable pub insert_row : Restore → List Restore → Result (List Restore)
insert_row r rows =
    if any (has_id r.id) rows
    then err unique_violation
    else if is_one_of r.status statuses
    then ok (rows ++ (without_log r ∷ []))
    else err check_violation

unfoldable pub create : String → ℕ → Restore → Table Restore → Result Restore × Table Restore
unfolding insert_row
create id now r t =
    let r' = record r { id = id; created_at = now } in
    let sent = exec (insert_row r') t in
    (elim sent.0 [ none ↦ ok r' | some e ↦ err ("create restore: " <> e) ], sent.1)

abbrev pub updated : Restore → Restore → Restore
updated r row = record row {
  status = r.status;
  duration_ms = r.duration_ms;
  log_output = r.log_output;
  started_at = r.started_at;
  completed_at = r.completed_at;
}

unfoldable pub update_row : Restore → List Restore → Result (List Restore)
update_row r rows =
    if is_one_of r.status statuses || not (any (has_id r.id) rows)
    then ok (update_where (has_id r.id) (updated r) rows)
    else err check_violation

unfoldable pub update : Restore → Table Restore → Option String × Table Restore
unfolding update_row
update r t =
    let sent = exec (update_row r) t in
    (wrap_error ("update restore " <> r.id <> ": ") sent.0, sent.1)
