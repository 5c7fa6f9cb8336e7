-- ===== src/Storage/Handler/Reachable.antt =====
-- What the requests to internal/storage/provider_handler.go keep of the table of providers.
use backupeer.Prelude.{
  ℕ, ◌≡◌, refl, sym, subst, String, true, false, Option, none, some, List, [], arith, ◌==◌,
  Result-cases, inl, inr,
}
use backupeer.Encryption.Binary.{Bytes}
use backupeer.Encryption.{Aead}
use backupeer.Table.{Table}
use backupeer.Table.Laws.{rows-query}
use backupeer.Storage.{Provider}
use backupeer.Storage.Repo as Repo
use backupeer.Storage.Defaults.{create-IsConsistent, update-IsConsistent, delete-IsConsistent}
use backupeer.Storage.Defaults.Rows.{IsConsistent}
use backupeer.Storage.Service.{Nonces, get_by_id}
use backupeer.Storage.Handler.{handle_create, handle_update, handle_delete, handle_set_default}

-- The tables that requests lead to from an empty one, whatever the database fails and whatever the
-- requests hold. A new identifier is a UUID, so it is not empty.
pub data Reachable (c : Aead) (key : Bytes) : Table Provider → Type 0 where
  empty : (faults : List (Option String)) → Reachable c key (record { faults = faults; rows = [] })
  created :
      (id : String) (now : ℕ) (ns : Nonces) (body : Option Provider) (t : Table Provider)
      → Reachable c key t
      → (id == "") ≡ false
      → Reachable c key (handle_create c key id now ns body t).1
  changed :
      (id : String) (now : ℕ) (ns : Nonces) (body : Option Provider) (t : Table Provider)
      → Reachable c key t
      → Reachable c key (handle_update c key id now ns body t).1
  deleted :
      (id : String) (t : Table Provider)
      → Reachable c key t
      → Reachable c key (handle_delete c key id t).1
  made_default :
      (id : String) (now : ℕ) (ns : Nonces) (t : Table Provider)
      → Reachable c key t
      → Reachable c key (handle_set_default c key id now ns t).1

module _ (c : Aead) (key : Bytes) where
  rows-get_by_id : (id : String) (t : Table Provider) → (get_by_id c key id t).1.rows ≡ t.rows
  unfolding get_by_id Repo.get_by_id
  rows-get_by_id id t = rows-query _ t

  handle_create-IsConsistent :
      (id : String) (now : ℕ) (ns : Nonces) (body : Option Provider) (t : Table Provider)
      → (id == "") ≡ false
      → IsConsistent t.rows
      → IsConsistent (handle_create c key id now ns body t).1.rows
  unfolding handle_create
  handle_create-IsConsistent id now ns none t named h = h
  handle_create-IsConsistent id now ns (some p) t named h =
      create-IsConsistent c key id now ns p t named h

  handle_update-IsConsistent :
      (id : String) (now : ℕ) (ns : Nonces) (body : Option Provider) (t : Table Provider)
      → IsConsistent t.rows
      → IsConsistent (handle_update c key id now ns body t).1.rows
  unfolding handle_update
  handle_update-IsConsistent id now ns none t h = h
  handle_update-IsConsistent id now ns (some p) t h =
      update-IsConsistent c key now ns (record p { id = id }) t h

  handle_set_default-IsConsistent :
      (id : String) (now : ℕ) (ns : Nonces) (t : Table Provider)
      → IsConsistent t.rows
      → IsConsistent (handle_set_default c key id now ns t).1.rows
  unfolding handle_set_default
  handle_set_default-IsConsistent id now ns t h =
      let h' = subst IsConsistent (sym (rows-get_by_id id t)) h in
      elim (Result-cases (get_by_id c key id t).0) [
        | inl (none, e) ↦ rw (e, handle_set_default) h'
        | inl (some p, e) ↦
            rw (e, handle_set_default)
              (update-IsConsistent c key now ns (record p { is_default = true }) _ h')
        | inr (x, e) ↦ rw (e, handle_set_default) h'
      ]

  -- Every table of providers that requests lead to has distinct identifiers and at most one default,
  -- whatever statements the database fails and whatever the bodies of the requests hold.
  pub Reachable-IsConsistent : (t : Table Provider) → Reachable c key t → IsConsistent t.rows
  unfolding handle_delete
  Reachable-IsConsistent _ (empty faults) = record {
    unique = tt;
    named = refl;
    one_default = omega arith;
  }
  Reachable-IsConsistent _ (created id now ns body t r named) =
      handle_create-IsConsistent id now ns body t named (Reachable-IsConsistent t r)
  Reachable-IsConsistent _ (changed id now ns body t r) =
      handle_update-IsConsistent id now ns body t (Reachable-IsConsistent t r)
  Reachable-IsConsistent _ (deleted id t r) = delete-IsConsistent id t (Reachable-IsConsistent t r)
  Reachable-IsConsistent _ (made_default id now ns t r) =
      handle_set_default-IsConsistent id now ns t (Reachable-IsConsistent t r)
