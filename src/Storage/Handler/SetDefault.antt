-- ===== src/Storage/Handler/SetDefault.antt =====
-- handleSetDefault of internal/storage/provider_handler.go: a provider that was read with its secret
-- masked goes through Update.
use backupeer.Prelude.{
  ℕ, ◌≡◌, ◌∙◌, refl, ap, String, true, Option, none, some, Result, List, [], ◌∷◌, ok, length, arith,
  eq_iff, is_one_of, Bool-cases, inl, inr,
}
use backupeer.Encryption.Binary.{Bytes}
use backupeer.Encryption.{Aead, IsAead}
use backupeer.Table.{Table, query, exec, find, update_where}
use backupeer.Storage.{Provider}
use backupeer.Storage.Repo as Repo
use backupeer.Storage.Repo.{has_id, updated, clear_rows, not_default, provider_types}
use backupeer.Storage.Defaults.Rows.{others, others-clear_rows, others-update_where}
use backupeer.Storage.Credentials.{nonce_size, must_decrypt, must_decrypt-must_encrypt}
use backupeer.Storage.Service.{
  Nonces, mask, clear_then, is_masked, exposed, merged, kept_key, get_by_id, update,
}
use backupeer.Storage.Handler.{answer_update, handle_set_default}

find-clear_rows :
    (id : String) (rows : List Provider)
    → find (has_id id) (clear_rows id rows) ≡ find (has_id id) rows
find-clear_rows id [] = refl
find-clear_rows id (r ∷ rows) = ground (arith, find-clear_rows id rows)

find-update_where :
    (id : String) (p row : Provider) (rows : List Provider)
    → find (has_id id) rows ≡ some row
    → find (has_id id) (update_where (has_id id) (updated p) rows) ≡ some (updated p row)
find-update_where id p row [] h = cc
find-update_where id p row (r ∷ rows) h =
    let ih = find-update_where id p row rows in ground (arith, h, ih)

find-has_id :
    (id : String) (row : Provider) (rows : List Provider)
    → find (has_id id) rows ≡ some row
    → row.id ≡ id
find-has_id id row [] h = cc
find-has_id id row (r ∷ rows) h =
    let ih = find-has_id id row rows in ground (arith, h, ih, eq_iff r.id id)

clear_then_calm :
    (id : String) (store : Table Provider → Option String × Table Provider) (rows : List Provider)
    → clear_then true id store (record { faults = []; rows = rows })
      ≡ store (record { faults = []; rows = clear_rows id rows })
unfolding Repo.clear_default exec
clear_then_calm id store rows = refl

stored_calm :
    (now : ℕ) (p : Provider) (rows : List Provider)
    → is_one_of p.provider_type provider_types ≡ true
    → Repo.update now p (record { faults = []; rows = rows }) ≡ (
      none,
      record {
        faults = [];
        rows = update_where (has_id p.id) (updated (record p { updated_at = now })) rows;
      },
    )
unfolding Repo.update exec
stored_calm now p rows valid = ground (arith, valid)

abbrev chosen : Provider → Provider
chosen p = record p { is_default = true }

module _ (c : Aead) (key : Bytes) where
  -- The row that the UPDATE leaves of the default-to-be.
  abbrev made_default : ℕ → Nonces → Provider → Provider
  made_default now ns row = record (merged c key ns row (chosen (exposed c key row))) {
    updated_at = now;
  }

  update_calm :
      (now : ℕ) (ns : Nonces) (p row : Provider) (rows : List Provider)
      → find (has_id p.id) rows ≡ some row
      → is_one_of (merged c key ns row (chosen p)).provider_type provider_types ≡ true
      → update c key now ns (chosen p) (record { faults = []; rows = rows }) ≡ (
        none,
        record {
          faults = [];
          rows =
              update_where
                (has_id p.id)
                (updated (record (merged c key ns row (chosen p)) { updated_at = now }))
                (clear_rows p.id rows);
        },
      )
  unfolding update Repo.get_by_id query
  update_calm now ns p row rows there valid =
      rw (there, update)
        (clear_then_calm p.id (Repo.update now (merged c key ns row (chosen p))) rows
          ∙ stored_calm now (merged c key ns row (chosen p)) (clear_rows p.id rows) valid)

  status-answer_update :
      (now : ℕ) (ns : Nonces) (p : Provider) (t : Table Provider)
      → (update c key now ns p t).0 ≡ none
      → (answer_update c key now ns p t).0.status ≡ 200
  unfolding answer_update
  status-answer_update now ns p t h = rw (h, answer_update) refl

  set_default_calm :
      (now : ℕ) (ns : Nonces) (row : Provider) (rows : List Provider)
      → find (has_id row.id) rows ≡ some row
      → is_one_of row.provider_type provider_types ≡ true
      → (((handle_set_default c key row.id now ns (record { faults = []; rows = rows })).0.status)
          ≡ 200)
        × ((handle_set_default c key row.id now ns (record { faults = []; rows = rows })).1.rows
            ≡ update_where
                (has_id row.id)
                (updated (made_default now ns row))
                (clear_rows row.id rows))
  unfolding handle_set_default answer_update get_by_id Repo.get_by_id query
  set_default_calm now ns row rows there valid =
      let shown = chosen (exposed c key row) in
      let admitted : is_one_of (merged c key ns row shown).provider_type provider_types ≡ true =
        ground (arith, valid) in
      let stored = update_calm now ns (exposed c key row) row rows there admitted in
      rw (there, handle_set_default)
        (status-answer_update now ns shown _ (ap (λ a. a.0) stored), ap (λ a. a.1.rows) stored)

  kept_secret : (nonce : Result Bytes) (old : Bytes) → kept_key c key nonce old mask ≡ old
  unfolding is_masked
  kept_secret nonce old = refl

  module _ (lawful : IsAead c) (usable : c.new_cipher key ≡ none)
      (usable_gcm : c.new_gcm key ≡ none) where
    kept_access :
        (nonce old : Bytes)
        → length nonce ≡ nonce_size
        → must_decrypt c key (kept_key c key (ok nonce) old (must_decrypt c key old))
          ≡ must_decrypt c key old
    kept_access nonce old size = elim (Bool-cases (is_masked (must_decrypt c key old))) [
      | inl masked ↦ rw masked refl
      | inr shown ↦ rw shown (
          must_decrypt-must_encrypt c key lawful usable usable_gcm nonce (must_decrypt c key old)
            size)
    ]

    -- On a database that answers, making a stored provider the default succeeds: it is a default
    -- afterwards and no row with another identifier is, its access key decrypts to what it did before,
    -- and its secret key, which the request never held, is the one that was stored. The random nonce
    -- has 12 bytes.
    pub handle_set_default_keeps_keys :
        (now : ℕ) (a s : Bytes) (row : Provider) (rows : List Provider)
        → length a ≡ nonce_size
        → find (has_id row.id) rows ≡ some row
        → is_one_of row.provider_type provider_types ≡ true
        → ((handle_set_default c key row.id now
              (record { access_nonce = ok a; secret_nonce = ok s })
              (record { faults = []; rows = rows })).0.status
            ≡ 200)
          × (others row.id
                (handle_set_default c key row.id now
                  (record { access_nonce = ok a; secret_nonce = ok s })
                  (record { faults = []; rows = rows })).1.rows
              ≡ 0)
          × ((q : Provider) × (find
                  (has_id row.id)
                  (handle_set_default c key row.id now
                    (record { access_nonce = ok a; secret_nonce = ok s })
                    (record { faults = []; rows = rows })).1.rows
                ≡ some q)
              × (q.is_default ≡ true)
              × (must_decrypt c key q.access_key ≡ must_decrypt c key row.access_key)
              × (q.secret_key ≡ row.secret_key))
    handle_set_default_keeps_keys now a s row rows size there valid =
        let ns : Nonces = record { access_nonce = ok a; secret_nonce = ok s } in
        let made = made_default now ns row in
        let (answered, stored) = set_default_calm now ns row rows there valid in
        (
          answered,
          ap (others row.id) stored
              ∙ others-update_where made (clear_rows row.id rows)
              ∙ others-clear_rows row.id rows,
          (
            updated made row,
            ap (find (has_id row.id)) stored
                ∙ find-update_where row.id made row (clear_rows row.id rows)
                    (find-clear_rows row.id rows ∙ there),
            refl,
            kept_access a row.access_key size,
            kept_secret (ok s) row.secret_key,
          ),
        )
