-- ===== src/Tests/Connections.antt =====
-- The theorems on internal/connection/service.go at concrete data.
use backupeer.Prelude.{ℕ, String, false, List, [], ◌∷◌, Result, ok, arith}
use backupeer.Connection.{Connection, ConnectionDatabase}
use backupeer.Connection.Databases.{Servers, discover}
use backupeer.Connection.Discovery.{HasDistinctDatabases}
use backupeer.Connection.Discovery.Runs.{discover-HasDistinctDatabases}
use backupeer.Tests.{conn, database, table}

abbrev ids : ℕ → String
ids _ = "d2"

abbrev sorted : List ConnectionDatabase → List ConnectionDatabase
sorted rows = rows

abbrev probe : Connection → Result (List String)
probe _ = ok ("shop" ∷ "blog" ∷ [])

abbrev deselected : ConnectionDatabase
deselected = record database { is_selected = false }

abbrev servers : Servers
servers = record { conns = table (conn ∷ []); dbs = table (deselected ∷ []) }

servers-HasDistinctDatabases : HasDistinctDatabases servers.dbs.rows
unfolding HasDistinctDatabases
servers-HasDistinctDatabases c name = ground arith

discover-HasDistinctDatabases_example :
    HasDistinctDatabases (discover ids 900 sorted probe "c1" servers).1.dbs.rows
discover-HasDistinctDatabases_example =
    discover-HasDistinctDatabases ids 900 sorted probe "c1" servers servers-HasDistinctDatabases
