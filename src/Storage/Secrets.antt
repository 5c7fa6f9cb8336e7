-- ===== src/Storage/Secrets.antt =====
-- Which credentials internal/storage/provider_service.go hands out, and to whom.
use backupeer.Prelude.{
  ℕ, ◌≡◌, refl, String, false, none, some, List, [], ◌∷◌, ok, arith, length, eq_iff, not, ◌⊎◌,
  if◌then◌else◌, ◌++◌, any,
}
use backupeer.Encryption.Binary.{Bytes}
use backupeer.Encryption.{Aead, IsAead}
use backupeer.Table.{Table, query, exec, find}
use backupeer.Storage.{Provider}
use backupeer.Storage.Repo as Repo
use backupeer.Storage.Repo.{has_id, clear_rows, not_default}
use backupeer.Storage.Defaults.Rows.{any-update_where}
use backupeer.Storage.Credentials.{nonce_size, must_decrypt-must_encrypt}
use backupeer.Storage.Service.{
  Nonces, mask, create, get_by_id, get_decrypted, get_default, revealed, prepared,
}

module _ (c : Aead) (key : Bytes) where
  -- Whatever provider GetDefault or GetByID returns, its secret key is the mask and not the
  -- stored secret, decrypted or not.
  pub get_default_masked :
      (t : Table Provider) (id : String) (p : Provider)
      → (get_default c key t).0 ≡ ok (some p) ⊎ ((get_by_id c key id t).0 ≡ ok (some p))
      → p.secret_key ≡ mask
  unfolding get_default get_by_id
  get_default_masked t id p h = ground arith

  find_last :
      (id : String) (rows : List Provider) (p : Provider)
      → any (has_id id) rows ≡ false
      → p.id ≡ id
      → find (has_id id) (rows ++ (p ∷ [])) ≡ some p
  find_last id [] p h e = ground (arith, eq_iff p.id id)
  find_last id (r ∷ rows) p h e = ground (arith, find_last id rows p)

  abbrev stored : String → ℕ → Nonces → Provider → Provider
  stored id now ns p = record (prepared c key ns p) { id = id; created_at = now; updated_at = now }

  -- The rows before the INSERT.
  abbrev base : Provider → List Provider → List Provider
  base p rows = if p.is_default then clear_rows "" rows else rows

  create_done :
      (id : String) (now : ℕ) (ns : Nonces) (p : Provider) (rows : List Provider)
      → (create c key id now ns p (record { faults = []; rows = rows })).0 ≡ none
      → (create c key id now ns p (record { faults = []; rows = rows })).1
        ≡ record { faults = []; rows = base p rows ++ (stored id now ns p ∷ []) }
  unfolding create Repo.create Repo.clear_default exec
  create_done id now ns p rows h = ground arith

  base_new :
      (id : String) (p : Provider) (rows : List Provider)
      → any (has_id id) rows ≡ false
      → any (has_id id) (base p rows) ≡ false
  base_new id p rows h =
      ground (arith, any-update_where id not_default (λ q. refl) (λ q. not (has_id "" q)) rows)

  get_decrypted_found :
      (id : String) (rows : List Provider) (p : Provider)
      → find (has_id id) rows ≡ some p
      → (get_decrypted c key id (record { faults = []; rows = rows })).0
        ≡ ok (some (revealed c key p))
  unfolding get_decrypted Repo.get_by_id query
  get_decrypted_found id rows p h = rw h

  module _ (lawful : IsAead c) (usable : c.new_cipher key ≡ none)
      (usable_gcm : c.new_gcm key ≡ none) where
    -- A provider that Create has stored is returned by GetDecrypted with the two keys that were
    -- given, if no statement fails, the random nonces have 12 bytes and the identifier is new.
    pub get_decrypted-create :
        (id : String) (now : ℕ) (a s : Bytes) (p : Provider) (rows : List Provider)
        → length a ≡ nonce_size
        → length s ≡ nonce_size
        → any (has_id id) rows ≡ false
        → (create c key id now
            (record { access_nonce = ok a; secret_nonce = ok s })
            p
            (record { faults = []; rows = rows })).0
          ≡ none
        → (q : Provider) × ((get_decrypted c key id
              (create c key id now
                (record { access_nonce = ok a; secret_nonce = ok s })
                p
                (record { faults = []; rows = rows })).1).0
            ≡ ok (some q))
          × (q.access_key ≡ p.access_key)
          × (q.secret_key ≡ p.secret_key)
    get_decrypted-create id now a s p rows la ls new accepted =
        let ns : Nonces = record { access_nonce = ok a; secret_nonce = ok s } in
        let row = stored id now ns p in
        (
          revealed c key row,
          rw (create_done id now ns p rows accepted) (
              get_decrypted_found id (base p rows ++ (row ∷ [])) row
                (find_last id (base p rows) row (base_new id p rows new) refl)),
          must_decrypt-must_encrypt c key lawful usable usable_gcm a p.access_key la,
          must_decrypt-must_encrypt c key lawful usable usable_gcm s p.secret_key ls,
        )
