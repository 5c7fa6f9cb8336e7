-- ===== src/Monitoring/Store/Laws.antt =====
-- The statements of internal/monitoring/store.go on a database that answers.
use backupeer.Prelude.{
  ℕ, ◌^◌, ◌≡◌, refl, String, Bool, true, false, Option, none, some, List, [], ◌∷◌, ◌++◌, ok, take,
  filter, all, ltb,
}
use backupeer.Table.{Table, exec}
use backupeer.Table.Laws.{query_calm}
use backupeer.Monitoring.Catalog.{Catalog}
use backupeer.Monitoring.Select.{build, run, order_by}
use backupeer.Monitoring.Select.Window.{row_in_window, run-build}
use backupeer.Monitoring.Store.{has_columns, insert_into, select_from, undefined_column}

module _ {A : Type 0} (cat : Catalog) (name : String) (columns : List String) where
  pub insert_into_calm :
      (integers : List ℕ) (row : A) (t : Table A)
      → t.faults ≡ []
      → has_columns name columns cat ≡ true
      → all (λ n. ltb n (2 ^ 31)) integers ≡ true
      → insert_into cat name columns integers row t
        ≡ (none, record { faults = []; rows = t.rows ++ (row ∷ []) })
  unfolding insert_into exec
  insert_into_calm integers row t calm there small = rw (calm, there, small) refl

  -- Without its table or a column, a statement is refused and changes nothing.
  pub insert_into_refused :
      (integers : List ℕ) (row : A) (t : Table A)
      → t.faults ≡ []
      → has_columns name columns cat ≡ false
      → (insert_into cat name columns integers row t).0 ≡ some undefined_column
  unfolding insert_into exec
  insert_into_refused integers row t calm missing = rw (calm, missing) refl

  pub select_from_calm :
      (connection_of : A → String) (time_of : A → ℕ) (before : A → A → Bool)
      (connection_id : String) (since until : Option ℕ) (limit : ℕ) (t : Table A)
      → t.faults ≡ []
      → has_columns name columns cat ≡ true
      → select_from cat name columns connection_of time_of before connection_id since until limit t
        ≡ (
          ok (
              take limit (
                order_by before
                  (filter (row_in_window connection_of time_of connection_id since until) t.rows))),
          t,
        )
  unfolding select_from
  select_from_calm connection_of time_of before connection_id since until limit t calm there =
      let asked = build connection_id since until limit in
      let answered = query_calm (run connection_of time_of before asked) t calm in
      let selected =
        run-build connection_of time_of before connection_id since until limit t.rows in
      rw (answered, there, selected) refl
