-- ===== src/Connection/Discovery.antt =====
-- What Discover of internal/connection/service.go keeps and what it selects.
pub mod Runs
use backupeer.Prelude.{
  ℕ, suc, ◌+◌, ◌≤◌, ◌≡◌, ◌∙◌, refl, sym, ap, String, Bool, true, false, not, ◌&&◌, Option, none,
  some, List, [], ◌∷◌, ◌++◌, Result, ok, err, arith, ◌==◌, eq_iff, eq_refl, any, All, filter,
  number, number-append, Option-cases, Result-cases, Bool-cases, inl, inr, if◌then◌else◌,
}
use backupeer.Table.{Table, exec, update_where, transaction}
use backupeer.Table.Laws.{exec_keeps, rows-exec_done, rows-query}
use backupeer.Connection.{Connection, ConnectionDatabase}
use backupeer.Connection.Databases.{
  is_database, overwritten, upsert_row, stamped, upsert_each, upsert_databases, list_databases,
  found_databases, Servers, discover, discovered,
}

-- No connection has two rows for one database.
unfoldable pub HasDistinctDatabases : List ConnectionDatabase → Type 0
HasDistinctDatabases rows = (c name : String) → number (is_database c name) rows ≤ 1

number_none :
    (p : ConnectionDatabase → Bool) (rows : List ConnectionDatabase)
    → any p rows ≡ false
    → number p rows ≡ 0
number_none p [] h = refl
number_none p (r ∷ rs) h = let ih = number_none p rs in ground (arith, h, ih)

number-overwritten :
    (c name : String) (p : ConnectionDatabase → Bool) (d : ConnectionDatabase)
    (rows : List ConnectionDatabase)
    → number (is_database c name) (update_where p (overwritten d) rows)
      ≡ number (is_database c name) rows
unfolding is_database
number-overwritten c name p d [] = refl
number-overwritten c name p d (r ∷ rs) =
    let ih = number-overwritten c name p d rs in ground (arith, ih)

same_database :
    (c name : String) (d : ConnectionDatabase) (rows : List ConnectionDatabase)
    → is_database c name d ≡ true
    → any (is_database c name) rows ≡ any (is_database d.connection_id d.db_name) rows
unfolding is_database
same_database c name d rows its =
    let own : d.connection_id ≡ c = ground (arith, its, eq_iff d.connection_id c) in
    let called : d.db_name ≡ name = ground (arith, its, eq_iff d.db_name name) in
    rw (own, called) refl

pub upsert_row-HasDistinctDatabases :
    (d : ConnectionDatabase) (rows after : List ConnectionDatabase)
    → HasDistinctDatabases rows
    → upsert_row d rows ≡ ok after
    → HasDistinctDatabases after
unfolding upsert_row HasDistinctDatabases
upsert_row-HasDistinctDatabases d rows after h e c name =
    let one = h c name in
    let same = number-overwritten c name (is_database d.connection_id d.db_name) d rows in
    let more = number-append (is_database c name) rows (d ∷ []) in
    elim (Bool-cases (any (is_database d.connection_id d.db_name) rows)) [
      | inl there ↦ ground (arith, e, there, same, one)
      | inr absent ↦ elim (Bool-cases (is_database c name d)) [
        | inl its ↦
            let zero =
              number_none (is_database c name) rows (same_database c name d rows its ∙ absent) in
            ground (arith, e, absent, more, zero, its)
        | inr other ↦ ground (arith, e, absent, more, one, other)
      ]
    ]

-- A row that is there and selected.
abbrev pub is_chosen : String → String → ConnectionDatabase → Bool
is_chosen c name d = is_database c name d && d.is_selected

any-append :
    (p : ConnectionDatabase → Bool) (d : ConnectionDatabase) (rows : List ConnectionDatabase)
    → any p (rows ++ (d ∷ [])) ≡ (if any p rows then true else p d)
any-append p d [] = ground arith
any-append p d (r ∷ rs) = let ih = any-append p d rs in ground (arith, ih)

-- Overwriting with a selected row takes no choice away.
chosen-overwritten :
    (c name : String) (p : ConnectionDatabase → Bool) (d : ConnectionDatabase)
    (rows : List ConnectionDatabase)
    → d.is_selected ≡ true
    → any (is_chosen c name) rows ≡ true
    → any (is_chosen c name) (update_where p (overwritten d) rows) ≡ true
unfolding is_database
chosen-overwritten c name p d [] on h = h
chosen-overwritten c name p d (r ∷ rs) on h =
    let ih = chosen-overwritten c name p d rs on in ground (arith, ih, on, h)

overwritten-chosen :
    (c name : String) (d : ConnectionDatabase) (rows : List ConnectionDatabase)
    → d.is_selected ≡ true
    → any (is_database c name) rows ≡ true
    → any (is_chosen c name) (update_where (is_database c name) (overwritten d) rows) ≡ true
unfolding is_database
overwritten-chosen c name d [] on h = h
overwritten-chosen c name d (r ∷ rs) on h =
    let ih = overwritten-chosen c name d rs on in ground (arith, ih, on, h)

pub upsert_row-keeps_chosen :
    (c name : String) (d : ConnectionDatabase) (rows after : List ConnectionDatabase)
    → d.is_selected ≡ true
    → upsert_row d rows ≡ ok after
    → any (is_chosen c name) rows ≡ true
    → any (is_chosen c name) after ≡ true
unfolding upsert_row
upsert_row-keeps_chosen c name d rows after on e h =
    let kept = chosen-overwritten c name (is_database d.connection_id d.db_name) d rows on h in
    let more = any-append (is_chosen c name) d rows in ground (arith, e, kept, more, h)

pub upsert_row-chosen :
    (d : ConnectionDatabase) (rows after : List ConnectionDatabase)
    → d.is_selected ≡ true
    → upsert_row d rows ≡ ok after
    → any (is_chosen d.connection_id d.db_name) after ≡ true
unfolding upsert_row is_database
upsert_row-chosen d rows after on e =
    let made = overwritten-chosen d.connection_id d.db_name d rows on in
    let more = any-append (is_chosen d.connection_id d.db_name) d rows in
    ground (arith, e, made, more, on, eq_refl d.connection_id, eq_refl d.db_name)
