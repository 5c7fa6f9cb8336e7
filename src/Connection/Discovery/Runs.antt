-- ===== src/Connection/Discovery/Runs.antt =====
-- A run of Discover of internal/connection/service.go, whatever the server and the database answer.
use backupeer.Prelude.{
  ℕ, suc, ◌≡◌, refl, String, true, none, some, List, [], ◌∷◌, Result, ok, arith, ◌==◌, eq_iff, any,
  is_one_of, Option-cases, Result-cases, Bool-cases, inl, inr, if◌then◌else◌,
}
use backupeer.Table.{Table, exec}
use backupeer.Table.Laws.{
  exec_keeps, rows-exec_done, rows-query, inside, transaction_done, transaction_keeps,
}
use backupeer.Connection.{Connection, ConnectionDatabase, get_by_id}
use backupeer.Connection.Databases.{
  upsert_row, stamped, upsert_each, upsert_databases, list_databases, found_database,
  found_databases, Servers, store_names, discover, discovered,
}
use backupeer.Connection.Discovery.{
  HasDistinctDatabases, is_chosen, upsert_row-HasDistinctDatabases, upsert_row-keeps_chosen,
  upsert_row-chosen,
}

upsert_each-HasDistinctDatabases :
    (ids : ℕ → String) (n now : ℕ) (ds : List ConnectionDatabase) (t : Table ConnectionDatabase)
    → HasDistinctDatabases t.rows
    → HasDistinctDatabases (upsert_each ids n now ds t).1.rows
unfolding upsert_each
upsert_each-HasDistinctDatabases ids n now [] t h = h
upsert_each-HasDistinctDatabases ids n now (d ∷ ds) t h =
    let sent = exec (upsert_row (stamped ids n now d)) t in
    let kept =
      exec_keeps HasDistinctDatabases (upsert_row (stamped ids n now d)) t h
        (λ rows e. upsert_row-HasDistinctDatabases (stamped ids n now d) t.rows rows h e) in
    elim (Option-cases sent.0) [
      | inl e ↦
          rw (e, upsert_each) (upsert_each-HasDistinctDatabases ids (suc n) now ds sent.1 kept)
      | inr (x, e) ↦ rw (e, upsert_each) kept
    ]

-- A loop that reports no error leaves the chosen rows chosen, and its own names too.
upsert_each-chosen :
    (ids : ℕ → String) (n now : ℕ) (c name : String) (names : List String)
    (t : Table ConnectionDatabase)
    → (upsert_each ids n now (found_databases c names) t).0 ≡ none
    → (if any (is_chosen c name) t.rows then true else is_one_of name names) ≡ true
    → any (is_chosen c name) (upsert_each ids n now (found_databases c names) t).1.rows ≡ true
unfolding upsert_each
upsert_each-chosen ids n now c name [] t h chosen = ground (arith, chosen)
upsert_each-chosen ids n now c name (x ∷ names) t h chosen =
    let d = stamped ids n now (found_database c x) in
    let sent = exec (upsert_row d) t in
    let well : sent.0 ≡ none = ground (arith, h) in
    let made = rows-exec_done (upsert_row d) t well in
    let own = upsert_row-chosen d t.rows sent.1.rows refl made in
    let kept = upsert_row-keeps_chosen c name d t.rows sent.1.rows refl made in
    let rest = upsert_each-chosen ids (suc n) now c name names sent.1 in
    rw (well, upsert_each)
      (rest (ground (arith, h, well)) (elim (Bool-cases (name == x)) [
        | inl same ↦
            let its : name ≡ x = ground (arith, same, eq_iff name x) in rw its (ground (arith, own))
        | inr other ↦ ground (arith, chosen, kept, other)
      ]))

rows-list_databases :
    (sort : List ConnectionDatabase → List ConnectionDatabase) (c : String)
    (t : Table ConnectionDatabase)
    → (list_databases sort c t).1.rows ≡ t.rows
unfolding list_databases
rows-list_databases sort c t = rows-query _ t

module _ (ids : ℕ → String) (now : ℕ) (sort : List ConnectionDatabase → List ConnectionDatabase)
    (probe : Connection → Result (List String)) where
  store_names-HasDistinctDatabases :
      (c : String) (names : List String) (w : Servers)
      → HasDistinctDatabases w.dbs.rows
      → HasDistinctDatabases (store_names ids now sort c names w).1.dbs.rows
  unfolding store_names upsert_databases
  store_names-HasDistinctDatabases c names w h =
      let sent = upsert_databases ids now (found_databases c names) w.dbs in
      let kept =
        transaction_keeps HasDistinctDatabases "prepare upsert: "
          (upsert_each ids 0 now (found_databases c names)) w.dbs h
          (upsert_each-HasDistinctDatabases ids 0 now (found_databases c names) (inside w.dbs) h) in
      elim (Option-cases sent.0) [
        | inl e ↦ rw (e, store_names) (rw (rows-list_databases sort c sent.1) kept)
        | inr (x, e) ↦ rw (e, store_names) kept
      ]

  -- Discover keeps the rows distinct by connection and name, on every answer of the server and of
  -- the database.
  pub discover-HasDistinctDatabases :
      (c : String) (w : Servers)
      → HasDistinctDatabases w.dbs.rows
      → HasDistinctDatabases (discover ids now sort probe c w).1.dbs.rows
  unfolding discover
  discover-HasDistinctDatabases c w h =
      let found = get_by_id c w.conns in
      elim (Result-cases found.0) [
        | inr (x, e) ↦ rw (e, discover) h
        | inl (none, e) ↦ rw (e, discover) h
        | inl (some conn, e) ↦ elim (Result-cases (discovered probe conn)) [
          | inr (x, k) ↦ rw (e, k, discover) h
          | inl (names, k) ↦
              rw (e, k, discover)
                (store_names-HasDistinctDatabases c names (record w { conns = found.1 }) h)
        ]
      ]

  -- When Discover answers without an error, every database that the server named and that is no
  -- system database has a row of the connection that is selected, also where it was deselected.
  pub discover-chosen :
      (c name : String) (conn : Connection) (names : List String) (shown : List ConnectionDatabase)
      (w : Servers)
      → (get_by_id c w.conns).0 ≡ ok (some conn)
      → discovered probe conn ≡ ok names
      → (discover ids now sort probe c w).0 ≡ ok shown
      → is_one_of name names ≡ true
      → any (is_chosen c name) (discover ids now sort probe c w).1.dbs.rows ≡ true
  unfolding discover store_names upsert_databases
  discover-chosen c name conn names shown w found named answered h =
      let sent = upsert_databases ids now (found_databases c names) w.dbs in
      let well : sent.0 ≡ none = ground (arith, found, named, answered) in
      let (ran, rows) =
        transaction_done "prepare upsert: " (upsert_each ids 0 now (found_databases c names)) w.dbs
          well in
      rw (found, named, discover, store_names, well, rows-list_databases sort c sent.1, rows)
        (upsert_each-chosen ids 0 now c name names (inside w.dbs) ran (ground (arith, h)))
