-- ===== src/Restore/Tools/Database.antt =====
-- Which database a restore of internal/restore/service.go writes to.
use backupeer.Prelude.{
  ◌≡◌, ◌↔◌, refl, ap, sym, String, true, Option, none, some, List, [], ◌∷◌, ◌||◌, ◌==◌, arith,
  is_one_of, if◌then◌else◌,
}
use backupeer.Connection.{Connection}
use backupeer.Backup.Dump.{build_dump_cmd}
use backupeer.Restore.Tools.{pg_restore_command}

-- The database that a command line of pg_dump or pg_restore names: -h, -p and -U take the next
-- argument.
unfoldable pub named_database : List String → Option String
named_database [] = none
named_database (o ∷ []) = none
named_database (o ∷ v ∷ rest) =
    let skipped = named_database rest in
    let next = named_database (v ∷ rest) in
    if o == "-d" || o == "--dbname"
    then some v
    else if is_one_of o ("-h" ∷ "-p" ∷ "-U" ∷ [])
    then skipped
    else next

-- The dump of a PostgreSQL database names that database, but the restore of it always names the
-- database postgres, so the two name the same one only for the database postgres itself.
pub named_database-restore_iff :
    (look_path : String → Option String) (c : Connection) (db_name : String)
    → (c.db_type == "postgresql") ≡ true
    → (named_database (build_dump_cmd look_path c db_name).args ≡ some db_name)
      × ((named_database (pg_restore_command c).args
            ≡ named_database (build_dump_cmd look_path c db_name).args)
          ↔ (db_name ≡ "postgres"))
unfolding named_database build_dump_cmd
named_database-restore_iff look_path c db_name postgres =
    rw postgres (refl, ((λ same. ground (arith, same)), (λ same. ap some (sym same))))
