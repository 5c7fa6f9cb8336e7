-- ===== src/Connection.antt =====
-- internal/connection/model.go, and the reading half of
-- internal/repository/postgres/connection.go.
pub mod Service
pub mod Databases
pub mod Discovery
pub mod Handler
use backupeer.Prelude.{ℕ, String, Bool, Option, Result, ◌==◌, ◌<>◌, wrap}
use backupeer.Table.{Table, query, find}

pub record Connection : Type 0 where
  pub id : String
  pub name : String
  pub db_type : String
  pub host : String
  pub port : ℕ
  pub username : String
  pub password : String
  pub ssl_mode : String
  pub created_at : ℕ
  pub updated_at : ℕ

pub record ConnectionDatabase : Type 0 where
  pub id : String
  pub connection_id : String
  pub db_name : String
  pub is_selected : Bool
  pub size_bytes : ℕ
  pub created_at : ℕ

unfoldable pub get_by_id : String → Table Connection → Result (Option Connection) × Table Connection
get_by_id id t =
    let answer = query (find (λ c. c.id == id)) t in
    (wrap ("get connection " <> id <> ": ") answer.0, answer.1)

unfoldable pub get_database :
    String
    → Table ConnectionDatabase
    → Result (Option ConnectionDatabase) × Table ConnectionDatabase
get_database id t =
    let answer = query (find (λ d. d.id == id)) t in
    (wrap ("get database " <> id <> ": ") answer.0, answer.1)
