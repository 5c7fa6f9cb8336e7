-- ===== src/Storage/Defaults.antt =====
-- The default provider: internal/storage/provider_service.go and the statements below it.
pub mod Rows
use backupeer.Prelude.{
  ℕ, ◌+◌, ◌≤◌, ◌≡◌, refl, sym, ◌∙◌, subst, String, Bool, true, false, not, Option, none, some, List,
  [], ◌∷◌, ◌++◌, ok, ◌==◌, any, arith, length, filter, eq_iff, Result-cases, Option-cases, inl, inr,
  ◌⊎◌, if◌then◌else◌,
}
use backupeer.Encryption.Binary.{Bytes}
use backupeer.Encryption.{Aead}
use backupeer.Table.{Table, exec, update_where, delete_where}
use backupeer.Table.Laws.{exec_keeps, rows-query}
use backupeer.Storage.{Provider}
use backupeer.Storage.Repo as Repo
use backupeer.Storage.Repo.{has_id, not_default, updated, clear_rows, insert_row, update_row}
use backupeer.Storage.Service.{
  Nonces, create, create_error, prepared, merged, update, delete, clear_then,
}
use backupeer.Storage.Defaults.Rows.{
  others, defaults_absent, any-delete_where, delete-HasUniqueIds, defaults-delete_where,
  IsConsistent, IsCleared, clear_rows-IsCleared, insert_row-IsConsistent, update_row-IsConsistent,
}

-- A statement that fails leaves the rows, and one that does not makes its change.
clear_default_done :
    (id : String) (t : Table Provider)
    → (Repo.clear_default id t).0 ≡ none
    → (Repo.clear_default id t).1.rows ≡ clear_rows id t.rows
unfolding Repo.clear_default exec
clear_default_done id t e = ground arith

clear_default_failed :
    (id : String) (t : Table Provider) {x : String}
    → (Repo.clear_default id t).0 ≡ some x
    → (Repo.clear_default id t).1.rows ≡ t.rows
unfolding Repo.clear_default exec
clear_default_failed id t e = ground arith

clear_then-IsConsistent :
    (b : Bool) (id : String) (store : Table Provider → Option String × Table Provider)
    (t : Table Provider)
    → IsConsistent t.rows
    → ((t : Table Provider)
        → IsConsistent t.rows
        → (b ≡ false) ⊎ (others id t.rows ≡ 0)
        → IsConsistent (store t).1.rows)
    → IsConsistent (clear_then b id store t).1.rows
clear_then-IsConsistent false id store t h keeps = keeps t h (inl refl)
clear_then-IsConsistent true id store t h keeps = elim (Option-cases (Repo.clear_default id t).0) [
  | inl e ↦
      let after =
        subst (IsCleared id) (sym (clear_default_done id t e)) (clear_rows-IsCleared id t.rows h) in
      rw e (keeps (Repo.clear_default id t).1 after.consistent (inr after.only))
  | inr (x, e) ↦ rw e (subst IsConsistent (sym (clear_default_failed id t e)) h)
]

create_store-IsConsistent :
    (id : String) (now : ℕ) (p : Provider) (t : Table Provider)
    → (id == "") ≡ false
    → IsConsistent t.rows
    → (p.is_default ≡ false) ⊎ (others "" t.rows ≡ 0)
    → IsConsistent (Repo.create id now p t).1.rows
unfolding Repo.create
create_store-IsConsistent id now p t named h few = exec_keeps IsConsistent _ t h λ rows e.
    insert_row-IsConsistent (record p { id = id; created_at = now; updated_at = now }) t.rows rows h
      named (ground (arith, defaults_absent "" t.rows h.named, h.one_default)) e

update_store-IsConsistent :
    (now : ℕ) (p : Provider) (t : Table Provider)
    → IsConsistent t.rows
    → (p.is_default ≡ false) ⊎ (others p.id t.rows ≡ 0)
    → IsConsistent (Repo.update now p t).1.rows
unfolding Repo.update
update_store-IsConsistent now p t h few =
    exec_keeps IsConsistent _ t h
      λ rows e. update_row-IsConsistent (record p { updated_at = now }) t.rows rows h few e

get_by_id_rows : (id : String) (t : Table Provider) → (Repo.get_by_id id t).1.rows ≡ t.rows
unfolding Repo.get_by_id
get_by_id_rows id t = rows-query _ t

module _ (c : Aead) (key : Bytes) where
  -- Create keeps the table consistent (distinct identifiers, at most one default provider) whatever
  -- statements the database fails, if the new identifier is not empty.
  pub create-IsConsistent :
      (id : String) (now : ℕ) (ns : Nonces) (p : Provider) (t : Table Provider)
      → (id == "") ≡ false
      → IsConsistent t.rows
      → IsConsistent (create c key id now ns p t).1.rows
  unfolding create
  create-IsConsistent id now ns p t named h = elim (Option-cases (create_error p)) [
    | inl e ↦
        rw (e, create)
          (clear_then-IsConsistent p.is_default "" (Repo.create id now (prepared c key ns p)) t h
            λ t' h' few. create_store-IsConsistent id now (prepared c key ns p) t' named h' few)
    | inr (x, e) ↦ rw (e, create) h
  ]

  -- Update keeps it too, on every branch and with every pattern of failed statements.
  pub update-IsConsistent :
      (now : ℕ) (ns : Nonces) (p : Provider) (t : Table Provider)
      → IsConsistent t.rows
      → IsConsistent (update c key now ns p t).1.rows
  unfolding update
  update-IsConsistent now ns p t h =
      let found = Repo.get_by_id p.id t in
      let h' = subst IsConsistent (sym (get_by_id_rows p.id t)) h in
      elim (Result-cases found.0) [
        | inl (none, e) ↦ rw (e, update) h'
        | inl (some existing, e) ↦
            rw (e, update)
              (clear_then-IsConsistent p.is_default p.id
                (Repo.update now (merged c key ns existing p)) found.1 h'
                λ u k few. update_store-IsConsistent now (merged c key ns existing p) u k few)
        | inr (x, e) ↦ rw (e, update) h'
      ]

-- Delete keeps the table consistent.
pub delete-IsConsistent :
    (id : String) (t : Table Provider) → IsConsistent t.rows → IsConsistent (delete id t).1.rows
unfolding delete Repo.delete
delete-IsConsistent id t h = exec_keeps IsConsistent _ t h λ rows e.
    let inverted : delete_where (has_id id) t.rows ≡ rows = cc in
    subst IsConsistent inverted (record {
      unique = delete-HasUniqueIds id t.rows h.unique;
      named = any-delete_where "" id t.rows h.named;
      one_default = omega (arith, defaults-delete_where id t.rows);
    })
