-- ===== src/Tests/Storage.antt =====
-- The theorems on the storage providers at concrete data.
use backupeer.Table.{Table, find}
use backupeer.Storage.Repo.{has_id}
use backupeer.Storage.Handler.{handle_create, handle_set_default}
use backupeer.Storage.Handler.Reachable.{Reachable, Reachable-IsConsistent}
use backupeer.Storage.Handler.SetDefault.{handle_set_default_keeps_keys}
use backupeer.Prelude.{◌≡◌, refl, false, true, List, none, some, [], ◌∷◌, ok}
use backupeer.Storage.{Provider}
use backupeer.Storage.Service.{Nonces, create, get_decrypted}
use backupeer.Storage.Defaults.Rows.{IsConsistent, others}
use backupeer.Storage.Credentials.{must_decrypt}
use backupeer.Storage.Secrets.{get_decrypted-create}
use backupeer.Tests.{plain_aead, plain_aead-IsAead, master, nonce, minio, table}

abbrev nonces : Nonces
nonces = record { access_nonce = ok nonce; secret_nonce = ok nonce }

create_run : (create plain_aead master "p2" 5 nonces minio (table (minio ∷ []))).0 ≡ none
unfolding create backupeer.Storage.Repo.clear_default backupeer.Table.exec
    backupeer.Storage.Repo.create
create_run = refl

get_decrypted-create_example :
    (q : Provider) × ((get_decrypted plain_aead master "p2"
        (create plain_aead master "p2" 5 nonces minio (table (minio ∷ []))).1).0
      ≡ ok (some q))
    × (q.access_key ≡ minio.access_key)
    × (q.secret_key ≡ minio.secret_key)
get_decrypted-create_example =
    get_decrypted-create plain_aead master plain_aead-IsAead refl refl "p2" 5 nonce nonce minio
      (minio ∷ []) refl refl refl create_run

abbrev created : Table Provider
created = (handle_create plain_aead master "p2" 5 nonces (some minio) (table [])).1

Reachable-IsConsistent_example :
    IsConsistent (handle_set_default plain_aead master "p2" 9 nonces created).1.rows
Reachable-IsConsistent_example =
    Reachable-IsConsistent plain_aead master
      (handle_set_default plain_aead master "p2" 9 nonces created).1
      (Reachable.made_default "p2" 9 nonces created
        (Reachable.created "p2" 5 nonces (some minio) (table []) (Reachable.empty []) refl))

abbrev plain_minio : Provider
plain_minio = record minio { is_default = false }

abbrev both : List Provider
both = plain_minio ∷ record minio { id = "p2" } ∷ []

minio_found : find (has_id "p1") both ≡ some plain_minio
minio_found = refl

handle_set_default_keeps_keys_example :
    ((handle_set_default plain_aead master "p1" 9 nonces (table both)).0.status ≡ 200)
    × (others "p1" (handle_set_default plain_aead master "p1" 9 nonces (table both)).1.rows ≡ 0)
    × ((q : Provider) × (find
            (has_id "p1")
            (handle_set_default plain_aead master "p1" 9 nonces (table both)).1.rows
          ≡ some q)
        × (q.is_default ≡ true)
        × (must_decrypt plain_aead master q.access_key
            ≡ must_decrypt plain_aead master plain_minio.access_key)
        × (q.secret_key ≡ plain_minio.secret_key))
handle_set_default_keeps_keys_example =
    handle_set_default_keeps_keys plain_aead master plain_aead-IsAead refl refl 9 nonce nonce
      plain_minio both refl minio_found refl
