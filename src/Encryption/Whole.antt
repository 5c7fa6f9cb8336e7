-- ===== src/Encryption/Whole.antt =====
-- Encrypt and Decrypt of whole backups (internal/encryption/service.go).
use backupeer.Prelude.{
  ◌+◌, ◌-◌, ◌≡◌, ◌++◌, ok, arith, length, take, drop, length-append, take-append_of_length,
  drop-append_of_length, drop-append_ge,
}
use backupeer.Encryption.Binary.{Bytes}
use backupeer.Encryption.{Aead, IsAead, encrypt, decrypt}

-- The three slices of `Decrypt`.
slices :
    (s n ys : Bytes)
    → length s ≡ 16
    → length n ≡ 12
    → (take 16 (s ++ (n ++ ys)) ≡ s)
      × (take 12 (drop 16 (s ++ (n ++ ys))) ≡ n)
      × (drop 28 (s ++ (n ++ ys)) ≡ ys)
slices s n ys hs hn =
    let two = drop-append_of_length 16 s (n ++ ys) hs in
    let gap : 28 - length s ≡ 12 = omega arith in
    (
      take-append_of_length 16 s (n ++ ys) hs,
      rw two (take-append_of_length 12 n ys hn),
      rw (drop-append_ge 28 s (n ++ ys) (omega arith)) (rw gap (drop-append_of_length 12 n ys hn)),
    )

module _ (c : Aead) (lawful : IsAead c) (master : Bytes) where
  -- What Encrypt returns for a 16-byte salt and a 12-byte nonce is exactly salt, nonce and sealed
  -- text, 44 bytes longer than the plaintext, and Decrypt under the same master key returns the
  -- plaintext.
  pub decrypt-encrypt :
      (salt nonce plaintext : Bytes)
      → length salt ≡ 16
      → length nonce ≡ 12
      → (ciphertext : Bytes) × (encrypt c master (ok salt) (ok nonce) plaintext ≡ ok ciphertext)
        × (length ciphertext ≡ length plaintext + 44)
        × (decrypt c master ciphertext ≡ ok plaintext)
  unfolding encrypt decrypt
  decrypt-encrypt salt nonce plaintext hs hn =
      let key = c.id_key master salt in
      let sealed = c.seal key nonce plaintext in
      let text = salt ++ (nonce ++ sealed) in
      let size : length text ≡ length plaintext + 44 = omega (
        arith,
        length-append salt (nonce ++ sealed),
        length-append nonce sealed,
        lawful.length-seal key nonce plaintext,
      ) in
      let (s, n, t) = slices salt nonce sealed hs hn in
      (
        text,
        ground (arith, lawful.cipher_ok master salt, lawful.gcm_ok master salt),
        size,
        rw (s, n, t)
            (ground (
              arith,
              size,
              lawful.cipher_ok master salt,
              lawful.gcm_ok master salt,
              lawful.unseal-seal key nonce plaintext,
            )),
      )
