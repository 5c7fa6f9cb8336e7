-- ===== src/Connection/Service.antt =====
-- internal/connection/service.go: Create, Update and Delete, with their statements in
-- internal/repository/postgres/connection.go and the constraint of db.go beside it.
pub mod Creation
use backupeer.Prelude.{
  ℕ, String, Bool, not, ◌&&◌, ◌||◌, Option, none, some, List, [], ◌∷◌, ◌++◌, Result, ok, err, ◌<>◌,
  ◌==◌, wrap_error, is_one_of, any, eqb, if◌then◌else◌,
}
use backupeer.Table.{Table, exec, update_where, delete_where, check_violation, unique_violation}
use backupeer.Connection.{Connection}

abbrev pub has_id : String → Connection → Bool
has_id id c = c.id == id

abbrev pub db_types : List String
db_types = "postgresql" ∷ "mysql" ∷ "mariadb" ∷ []

unfoldable pub insert_row : Connection → List Connection → Result (List Connection)
insert_row c rows =
    if any (has_id c.id) rows
    then err unique_violation
    else if is_one_of c.db_type db_types
    then ok (rows ++ (c ∷ []))
    else err check_violation

abbrev pub with_default_mode : Connection → Connection
with_default_mode c = record c { ssl_mode = if c.ssl_mode == "" then "prefer" else c.ssl_mode }

-- What Create refuses before it stores; `test` is the attempt to reach the server.
unfoldable pub refusal : (Connection → Option String) → Connection → Option String
refusal test c =
    if c.name == "" || (c.host == "" || eqb c.port 0)
    then some "name, host, and port are required"
    else if is_one_of c.db_type db_types
    then elim (test (with_default_mode c)) [
      | none ↦ none
      | some e ↦ some ("connection test failed: " <> e)
    ]
    else some ("unsupported database type: " <> c.db_type)

unfoldable pub create :
    (Connection → Option String)
    → String
    → ℕ
    → Connection
    → Table Connection
    → Option String × Table Connection
unfolding insert_row
create test id now c t = elim (refusal test c) [
  | some e ↦ (some e, t)
  | none ↦
      let sent =
        exec
          (insert_row
            (record (with_default_mode c) { id = id; created_at = now; updated_at = now }))
          t in
      (wrap_error "create connection: " sent.0, sent.1)
]

-- The columns that the UPDATE names: the type of database stays.
abbrev pub updated : ℕ → Connection → Connection → Connection
updated now c row = record row {
  name = c.name;
  host = c.host;
  port = c.port;
  username = c.username;
  password = c.password;
  ssl_mode = c.ssl_mode;
  updated_at = now;
}

unfoldable pub update : ℕ → Connection → Table Connection → Option String × Table Connection
update now c t =
    let sent = exec (λ rows. ok (update_where (has_id c.id) (updated now c) rows)) t in
    if c.id == ""
    then (some "id is required", t)
    else (wrap_error ("update connection " <> c.id <> ": ") sent.0, sent.1)

unfoldable pub delete : String → Table Connection → Option String × Table Connection
delete id t =
    let sent = exec (λ rows. ok (delete_where (has_id id) rows)) t in
    (wrap_error ("delete connection " <> id <> ": ") sent.0, sent.1)
