-- ===== src/Monitoring/Collect/Rows.antt =====
-- How internal/monitoring/collector.go reads the rows of a monitored server and records what it
-- makes of them.
use backupeer.Prelude.{String, Option, none, some, List, [], ◌∷◌, Result, ok, err}
use backupeer.Connection.{Connection}
use backupeer.Monitoring.Source.{open_source_db}

-- The answer to a query: an error, or rows of which `Scan` reads some.
abbrev pub Answer {ℓ} : Type ℓ → Type ℓ
Answer A = Result (List (Option A))

-- A row that cannot be scanned is left out.
unfoldable pub scanned_rows {ℓ} : {A : Type ℓ} → List (Option A) → List A
scanned_rows [] = []
scanned_rows (none ∷ rows) = scanned_rows rows
scanned_rows (some a ∷ rows) = a ∷ scanned_rows rows

abbrev pub answered_rows {ℓ} : {A : Type ℓ} → Answer A → List A
answered_rows (err e) = []
answered_rows (ok rows) = scanned_rows rows

-- An error of a statement of the store is dropped or only logged.
unfoldable pub record_each {ℓ κ} :
    {A : Type ℓ} {D : Type κ} → (A → D → Option String × D) → List A → D → D
record_each save [] db = db
record_each save (a ∷ rows) db = record_each save rows (save a db).1

-- `openSourceDB` with the driver's own answer.
unfoldable pub open_error : (String × String → Option String) → Connection → Option String
open_error opens c = elim (open_source_db c) [ err e ↦ some e | ok dsn ↦ opens dsn ]

-- A value that a failed query leaves at its zero.
abbrev pub or_zero {ℓ} : {A : Type ℓ} → A → Option A → A
or_zero zero_value none = zero_value
or_zero zero_value (some a) = a
