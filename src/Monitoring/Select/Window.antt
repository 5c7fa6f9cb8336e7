-- ===== src/Monitoring/Select/Window.antt =====
-- What the queries of internal/monitoring/store.go select.
use backupeer.Prelude.{
  read_number, ℕ, ◌≡◌, ◌∙◌, ◌++◌, refl, ap, String, Bool, true, ◌&&◌, Option, none, some, List, [],
  ◌∷◌, ok, take, filter, ◌==◌, leb, Bool-cases, inl, inr, if◌then◌else◌, arith,
}
use backupeer.Monitoring.Decimal.{itoa}
use backupeer.Monitoring.Select.{
  Test, is_connection, is_since, is_until, connection_is, text_arg, nothing_asked, add_condition,
  with_times, meets_all, build, run, order_by,
}

-- The rows asked for: those of the connection, if one is named, between the two times, where given.
abbrev pub in_window : String → Option ℕ → Option ℕ → String → ℕ → Bool
in_window connection_id since until connection time =
    (if connection_id == "" then true else connection == connection_id)
    && (elim since [ none ↦ true | some t ↦ leb t time ])
    && (elim until [ none ↦ true | some t ↦ leb time t ])

module _ {R : Type 0} (connection_of : R → String) (time_of : R → ℕ) where
  abbrev pub row_in_window : String → Option ℕ → Option ℕ → R → Bool
  row_in_window connection_id since until r =
      in_window connection_id since until (connection_of r) (time_of r)

  filter_ext :
      (p q : R → Bool) (rows : List R) → ((r : R) → p r ≡ q r) → filter p rows ≡ filter q rows
  filter_ext p q [] h = refl
  filter_ext p q (r ∷ rs) h = let ih = filter_ext p q rs h in rw (h r, ih) refl

  rest_of : Option ℕ → Option ℕ → List Test
  rest_of since until =
      (elim since [ none ↦ [] | some t ↦ is_since t ∷ [] ])
      ++ (elim until [ none ↦ [] | some t ↦ is_until t ∷ [] ])

  -- The tests of a query.
  tests_of : String → Option ℕ → Option ℕ → List Test
  unfolding rest_of
  tests_of connection_id since until =
      (if connection_id == "" then [] else is_connection connection_id ∷ []) ++ rest_of since until

  run_of_all :
      (before : R → R → Bool) (since until : Option ℕ) (limit : ℕ) (rows : List R)
      → run connection_of time_of before (with_times since until limit nothing_asked) rows
        ≡ ok (
            take limit (
              order_by before
                (filter (meets_all connection_of time_of (rest_of since until)) rows)))
  unfolding run with_times itoa read_number rest_of
  run_of_all before none none limit rows = refl
  run_of_all before none (some u) limit rows = refl
  run_of_all before (some t) none limit rows = refl
  run_of_all before (some t) (some u) limit rows = refl

  run_of_one :
      (before : R → R → Bool) (id : String) (since until : Option ℕ) (limit : ℕ) (rows : List R)
      → run connection_of time_of before
          (with_times since until limit (add_condition connection_is (text_arg id) nothing_asked))
          rows
        ≡ ok (
            take limit (
              order_by before (
                filter
                  (meets_all connection_of time_of (is_connection id ∷ rest_of since until))
                  rows)))
  unfolding run with_times itoa read_number rest_of add_condition
  run_of_one before id none none limit rows = refl
  run_of_one before id none (some u) limit rows = refl
  run_of_one before id (some t) none limit rows = refl
  run_of_one before id (some t) (some u) limit rows = refl

  run-tests :
      (before : R → R → Bool) (id : String) (since until : Option ℕ) (limit : ℕ) (rows : List R)
      → run connection_of time_of before (build id since until limit) rows
        ≡ ok (
            take limit (
              order_by before
                (filter (meets_all connection_of time_of (tests_of id since until)) rows)))
  unfolding build tests_of rest_of
  run-tests before id since until limit rows = elim (Bool-cases (id == "")) [
    | inl every ↦ rw every (run_of_all before since until limit rows)
    | inr one ↦ rw one (run_of_one before id since until limit rows)
  ]

  meets-tests :
      (id : String) (since until : Option ℕ) (r : R)
      → meets_all connection_of time_of (tests_of id since until) r ≡ row_in_window id since until r
  unfolding meets_all tests_of
  meets-tests id none none r = ground arith
  meets-tests id none (some u) r = ground arith
  meets-tests id (some t) none r = ground arith
  meets-tests id (some t) (some u) r = ground arith

  -- Whichever of the connection and the two times are given, the placeholders of the query are bound
  -- to their values, and the answer is the given number of rows, first in the query's order, among
  -- all that belong to the connection and lie between the times.
  pub run-build :
      (before : R → R → Bool) (id : String) (since until : Option ℕ) (limit : ℕ) (rows : List R)
      → run connection_of time_of before (build id since until limit) rows
        ≡ ok (take limit (order_by before (filter (row_in_window id since until) rows)))
  run-build before id since until limit rows =
      run-tests before id since until limit rows
      ∙ ap (λ selected. ok (take limit (order_by before selected)))
          (filter_ext _ (row_in_window id since until) rows (meets-tests id since until))
