-- ===== src/Table/Laws.antt =====
-- What a statement leaves in its table.
use backupeer.Prelude.{
  Option, ◌≡◌, inl, inr, String, none, some, List, [], Result, Option-cases, ok, arith,
}
use backupeer.Table.{Table, later_faults, query, exec, transaction}

module _ {ℓ} {R : Type ℓ} where
  -- A SELECT changes no row.
  pub rows-query {κ} : {A : Type κ} (f : List R → A) (t : Table R) → (query f t).1.rows ≡ t.rows
  unfolding query
  rows-query f t = ground arith

  -- A statement that reports an error has changed no row.
  pub rows-exec_failed :
      (f : List R → Result (List R)) (t : Table R) {e : String}
      → (exec f t).0 ≡ some e
      → (exec f t).1.rows ≡ t.rows
  unfolding exec
  rows-exec_failed f t h = ground arith

  -- A statement that reports none has made its change.
  pub rows-exec_done :
      (f : List R → Result (List R)) (t : Table R)
      → (exec f t).0 ≡ none
      → f t.rows ≡ ok (exec f t).1.rows
  unfolding exec
  rows-exec_done f t h = ground arith

  -- With no fault to come, a SELECT answers and the table is as it was.
  pub query_calm {κ} :
      {A : Type κ} (f : List R → A) (t : Table R) → t.faults ≡ [] → query f t ≡ (ok (f t.rows), t)
  unfolding query
  query_calm f t h = ground arith

  pub exec_calm :
      (f : List R → Result (List R)) (t : Table R) {rows : List R}
      → t.faults ≡ []
      → f t.rows ≡ ok rows
      → exec f t ≡ (none, record { faults = []; rows = rows })
  unfolding exec
  exec_calm f t h e = ground arith

  -- What holds of the rows before a statement, and of the rows that it would leave, holds after it.
  pub exec_keeps {κ} :
      (P : List R → Type κ) (f : List R → Result (List R)) (t : Table R)
      → P t.rows
      → ((rows : List R) → f t.rows ≡ ok rows → P rows)
      → P (exec f t).1.rows
  exec_keeps P f t before after = elim (Option-cases (exec f t).0) [
    | inl e ↦ after _ (rows-exec_done f t e)
    | inr (x, e) ↦ rw (rows-exec_failed f t e) before
  ]

  -- A transaction that reports an error has changed no row.
  pub rows-transaction_failed :
      (prepare : String) (body : Table R → Option String × Table R) (t : Table R) {e : String}
      → (transaction prepare body t).0 ≡ some e
      → (transaction prepare body t).1.rows ≡ t.rows
  unfolding transaction
  rows-transaction_failed prepare body t h = ground arith

  -- With no fault to come, a transaction ends as its body does, and keeps its rows if that is well.
  pub transaction_calm :
      (prepare : String) (body : Table R → Option String × Table R) (rows : List R)
      → (body (record { faults = []; rows = rows })).1.faults ≡ []
      → ((transaction prepare body (record { faults = []; rows = rows })).0
          ≡ (body (record { faults = []; rows = rows })).0)
        × ((body (record { faults = []; rows = rows })).0 ≡ none
            → (transaction prepare body (record { faults = []; rows = rows })).1.rows
              ≡ (body (record { faults = []; rows = rows })).1.rows)
  unfolding transaction
  transaction_calm prepare body rows still =
      (ground (arith, still), (λ h. ground (arith, still, h)))

  -- The table that the body of a transaction starts from.
  abbrev pub inside : Table R → Table R
  inside t = record t { faults = later_faults (later_faults t.faults) }

  -- A transaction that reports no error keeps the rows of its body, which reported none.
  pub transaction_done :
      (prepare : String) (body : Table R → Option String × Table R) (t : Table R)
      → (transaction prepare body t).0 ≡ none
      → ((body (inside t)).0 ≡ none)
        × ((transaction prepare body t).1.rows ≡ (body (inside t)).1.rows)
  unfolding transaction
  transaction_done prepare body t h = (ground (arith, h), ground (arith, h))

  pub transaction_keeps {κ} :
      (P : List R → Type κ) (prepare : String) (body : Table R → Option String × Table R)
      (t : Table R)
      → P t.rows
      → P (body (inside t)).1.rows
      → P (transaction prepare body t).1.rows
  transaction_keeps P prepare body t before after =
      elim (Option-cases (transaction prepare body t).0) [
        | inl e ↦ rw (transaction_done prepare body t e).1 after
        | inr (x, e) ↦ rw (rows-transaction_failed prepare body t e) before
      ]
