-- ===== src/Connection/Handler/Passwords.antt =====
-- What the handlers of internal/connection/handler.go do with the passwords of the servers.
use backupeer.Prelude.{ℕ, ◌≡◌, refl, String, false, some, List, [], ◌∷◌, ok, arith, ◌==◌}
use backupeer.Table.{query, exec, find, update_where}
use backupeer.Connection.{Connection, get_by_id}
use backupeer.Connection.Service.{has_id, update, updated}
use backupeer.Connection.Handler.{without_password, handle_get, handle_update}

find-update_where :
    (id : String) (f : Connection → Connection) (row : Connection) (rows : List Connection)
    → ((r : Connection) → (f r).id ≡ r.id)
    → find (has_id id) rows ≡ some row
    → find (has_id id) (update_where (has_id id) f rows) ≡ some (f row)
find-update_where id f row [] keeps h = cc
find-update_where id f row (r ∷ rows) keeps h =
    let ih = find-update_where id f row rows keeps in ground (arith, h, ih, keeps r)

-- On a database that answers, a client that sends back a connection as GET has shown it erases its
-- password: the answer of GET has none, and PUT stores what it is sent and changes nothing else but
-- the time.
pub handle_update-handle_get :
    (id : String) (now : ℕ) (row : Connection) (rows : List Connection)
    → (id == "") ≡ false
    → find (has_id id) rows ≡ some row
    → ((handle_get id (record { faults = []; rows = rows })).0.body ≡ ok (without_password row))
      × (find
            (has_id id)
            (handle_update id now
              (some (without_password row))
              (record { faults = []; rows = rows })).1.rows
          ≡ some (record row { password = ""; updated_at = now }))
unfolding handle_get get_by_id query handle_update update exec
handle_update-handle_get id now row rows named there = (
  rw (there, handle_get) refl,
  (let blank = record row { id = id; password = "" } in
      rw named (find-update_where id (updated now blank) row rows (λ r. refl) there)),
)
