-- ===== src/Tests/Sessions.antt =====
-- The theorems on internal/auth/service.go at a concrete history.
use backupeer.Prelude.{String, ◌<>◌, some, List, [], ◌∷◌}
use backupeer.Auth.{Request}
use backupeer.Auth.History.{Event}

abbrev digest : String → String
digest s = "#" <> s

abbrev history : List Event
history = Event.validated "t1" 20 ∷ Event.logged_in "admin" "secret" "t1" 10 ∷ []

abbrev request : Request
request = record { path = "/api/backups"; cookie = some "t1"; authorization = "" }
