-- ===== src/Connection/Databases.antt =====
-- internal/connection/service.go: Discover, with its statements in
-- internal/repository/postgres/connection.go.
use backupeer.Prelude.{
  ℕ, suc, String, Bool, true, not, ◌&&◌, ◌||◌, Option, none, some, List, [], ◌∷◌, ◌++◌, Result, ok,
  err, ◌<>◌, ◌==◌, wrap, wrap_error, is_one_of, has_prefix, any, filter, eqb, if◌then◌else◌,
}
use backupeer.Table.{Table, query, exec, transaction, update_where, unique_violation}
use backupeer.Connection.{Connection, ConnectionDatabase, get_by_id}

-- UNIQUE(connection_id, db_name)
unfoldable pub is_database : String → String → ConnectionDatabase → Bool
is_database connection_id name d = d.connection_id == connection_id && d.db_name == name

-- ON CONFLICT DO UPDATE SET is_selected, size_bytes
abbrev pub overwritten : ConnectionDatabase → ConnectionDatabase → ConnectionDatabase
overwritten d row = record row { is_selected = d.is_selected; size_bytes = d.size_bytes }

unfoldable pub upsert_row :
    ConnectionDatabase → List ConnectionDatabase → Result (List ConnectionDatabase)
upsert_row d rows =
    if any (is_database d.connection_id d.db_name) rows
    then ok (update_where (is_database d.connection_id d.db_name) (overwritten d) rows)
    else if any (λ r. r.id == d.id) rows
    then err unique_violation
    else ok (rows ++ (d ∷ []))

-- The identifier and time of a row that has none; `ids` are the coming UUIDs.
abbrev pub stamped : (ℕ → String) → ℕ → ℕ → ConnectionDatabase → ConnectionDatabase
stamped ids n now d = record d {
  id = if d.id == "" then ids n else d.id;
  created_at = if eqb d.created_at 0 then now else d.created_at;
}

unfoldable pub upsert_each :
    (ℕ → String)
    → ℕ
    → ℕ
    → List ConnectionDatabase
    → Table ConnectionDatabase
    → Option String × Table ConnectionDatabase
upsert_each ids n now [] t = (none, t)
upsert_each ids n now (d ∷ ds) t =
    let sent = exec (upsert_row (stamped ids n now d)) t in
    let rest = upsert_each ids (suc n) now ds sent.1 in
    elim sent.0 [ some e ↦ (some ("upsert db " <> d.db_name <> ": " <> e), sent.1) | none ↦ rest ]

unfoldable pub upsert_databases :
    (ℕ → String)
    → ℕ
    → List ConnectionDatabase
    → Table ConnectionDatabase
    → Option String × Table ConnectionDatabase
upsert_databases ids now ds t = transaction "prepare upsert: " (upsert_each ids 0 now ds) t

-- `sort` is ORDER BY db_name, in the collation of the database.
unfoldable pub list_databases :
    (List ConnectionDatabase → List ConnectionDatabase)
    → String
    → Table ConnectionDatabase
    → Result (List ConnectionDatabase) × Table ConnectionDatabase
list_databases sort connection_id t =
    let answer = query (λ rows. sort (filter (λ d. d.connection_id == connection_id) rows)) t in
    (wrap "list databases: " answer.0, answer.1)

unfoldable pub update_selection :
    String → Bool → Table ConnectionDatabase → Option String × Table ConnectionDatabase
update_selection id selected t =
    let sent =
      exec
        (λ rows.
          ok (update_where (λ d. d.id == id) (λ d. record d { is_selected = selected }) rows))
        t in
    (wrap_error ("update db selection " <> id <> ": ") sent.0, sent.1)

-- The databases of a MySQL server that are no system databases.
unfoldable pub is_user_database : String → Bool
is_user_database name =
    not (is_one_of name ("information_schema" ∷ "performance_schema" ∷ "mysql" ∷ "sys" ∷ []))
    && not (has_prefix name "_")

-- `discoverDatabases`; `probe` is the answer of the server to the query for its databases.
unfoldable pub discovered : (Connection → Result (List String)) → Connection → Result (List String)
unfolding is_user_database
discovered probe c =
    if c.db_type == "postgresql"
    then probe c
    else if c.db_type == "mysql" || c.db_type == "mariadb"
    then elim (probe c) [ err e ↦ err e | ok names ↦ ok (filter is_user_database names) ]
    else err ("unsupported database type: " <> c.db_type)

abbrev pub found_database : String → String → ConnectionDatabase
found_database connection_id name = record {
  id = "";
  connection_id = connection_id;
  db_name = name;
  is_selected = true;
  size_bytes = 0;
  created_at = 0;
}

abbrev pub found_databases : String → List String → List ConnectionDatabase
found_databases connection_id [] = []
found_databases connection_id (name ∷ names) =
    found_database connection_id name ∷ found_databases connection_id names

pub record Servers : Type 0 where
  pub conns : Table Connection
  pub dbs : Table ConnectionDatabase

unfoldable pub store_names :
    (ℕ → String)
    → ℕ
    → (List ConnectionDatabase → List ConnectionDatabase)
    → String
    → List String
    → Servers
    → Result (List ConnectionDatabase) × Servers
store_names ids now sort connection_id names w =
    let sent = upsert_databases ids now (found_databases connection_id names) w.dbs in
    let listed = list_databases sort connection_id sent.1 in
    elim sent.0 [
      | some e ↦ (err ("save discovered databases: " <> e), record w { dbs = sent.1 })
      | none ↦ (listed.0, record w { dbs = listed.1 })
    ]

unfoldable pub discover :
    (ℕ → String)
    → ℕ
    → (List ConnectionDatabase → List ConnectionDatabase)
    → (Connection → Result (List String))
    → String
    → Servers
    → Result (List ConnectionDatabase) × Servers
unfolding store_names
discover ids now sort probe connection_id w =
    let found = get_by_id connection_id w.conns in
    let w' = record w { conns = found.1 } in
    elim found.0 [
      | err e ↦ (err ("get connection: " <> e), w')
      | ok none ↦ (err ("connection not found: " <> connection_id), w')
      | ok (some c) ↦ elim (discovered probe c) [
        | err e ↦ (err ("discover databases: " <> e), w')
        | ok names ↦ store_names ids now sort connection_id names w'
      ]
    ]
