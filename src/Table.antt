-- ===== src/Table.antt =====
-- A table of the PostgreSQL database behind `database/sql` (internal/repository/postgres): its rows
-- in insertion order, and what the environment answers to the coming statements.
pub mod Laws
use backupeer.Prelude.{
  Bool, not, filter, if◌then◌else◌, ◌<>◌, String, Option, none, some, List, [], ◌∷◌, Result, ok,
  err,
}

-- `faults` lists, statement by statement, whether the database fails it (a lost connection, a
-- timeout, a foreign key). A statement past the end of the list does not fail in this way.
pub record Table {ℓ} (R : Type ℓ) : Type ℓ where
  pub faults : List (Option String)
  pub rows : List R

abbrev pub next_fault : List (Option String) → Option String
next_fault [] = none
next_fault (f ∷ fs) = f

abbrev pub later_faults : List (Option String) → List (Option String)
later_faults [] = []
later_faults (f ∷ fs) = fs

module _ {ℓ} {R : Type ℓ} where
  -- A SELECT: it changes no row.
  unfoldable pub query {κ} : {A : Type κ} → (List R → A) → Table R → Result A × Table R
  query f t = elim (next_fault t.faults) [
    | none ↦ (ok (f t.rows), record t { faults = later_faults t.faults })
    | some e ↦ (err e, record t { faults = later_faults t.faults })
  ]

  -- An INSERT, UPDATE or DELETE: it may be refused by a constraint, and is all or nothing.
  unfoldable pub exec : (List R → Result (List R)) → Table R → Option String × Table R
  exec f t = elim (next_fault t.faults) [
    | none ↦ elim (f t.rows) [
      | ok rows ↦ (none, record t { rows = rows; faults = later_faults t.faults })
      | err e ↦ (some e, record t { faults = later_faults t.faults })
    ]
    | some e ↦ (some e, record t { faults = later_faults t.faults })
  ]

  -- `QueryRow`: the first row that fits, and `sql.ErrNoRows` as `none`.
  abbrev pub find : (R → Bool) → List R → Option R
  find p [] = none
  find p (r ∷ rs) = if p r then some r else find p rs

  -- UPDATE ... WHERE
  abbrev pub update_where : (R → Bool) → (R → R) → List R → List R
  update_where p f [] = []
  update_where p f (r ∷ rs) = (if p r then f r else r) ∷ update_where p f rs

  -- DELETE ... WHERE
  abbrev pub delete_where : (R → Bool) → List R → List R
  delete_where p rs = filter (λ r. not (p r)) rs

module _ {ℓ} {R : Type ℓ} where
  -- A transaction with one prepared statement: `Begin`, `Prepare`, the body and `Commit`. An error on
  -- the way rolls the rows back.
  unfoldable pub transaction :
      String → (Table R → Option String × Table R) → Table R → Option String × Table R
  transaction prepare body t =
      let prepared = later_faults t.faults in
      let ran = body (record t { faults = later_faults prepared }) in
      elim (next_fault t.faults) [
        | some e ↦ (some ("begin tx: " <> e), record t { faults = prepared })
        | none ↦ elim (next_fault prepared) [
          | some e ↦ (some (prepare <> e), record t { faults = later_faults prepared })
          | none ↦ elim ran.0 [
            | some e ↦ (some e, record t { faults = ran.1.faults })
            | none ↦ elim (next_fault ran.1.faults) [
              | some e ↦ (some e, record t { faults = later_faults ran.1.faults })
              | none ↦ (none, record { faults = later_faults ran.1.faults; rows = ran.1.rows })
            ]
          ]
        ]
      ]

-- What the driver reports for a broken CHECK, REFERENCES and PRIMARY KEY constraint.
abbrev pub check_violation : String
check_violation = "violates check constraint (SQLSTATE 23514)"

abbrev pub foreign_key_violation : String
foreign_key_violation = "violates foreign key constraint (SQLSTATE 23503)"

abbrev pub unique_violation : String
unique_violation = "violates unique constraint (SQLSTATE 23505)"
