-- ===== src/Storage/Credentials.antt =====
-- internal/storage/crypto.go: credentials encrypted at rest with AES-256-GCM.
use backupeer.Prelude.{
  ℕ, ◌≡◌, refl, String, Option, none, some, [], ◌∷◌, ◌++◌, Result, ok, err, ◌<>◌, wrap, ltb, eqb,
  length, take, drop, arith, length-append, take-append_of_length, drop-append_of_length,
  if◌then◌else◌,
}
use backupeer.Encryption.Binary.{Bytes}
use backupeer.Encryption.{Aead, IsAead}

-- `NonceSize()` of GCM
abbrev pub nonce_size : ℕ
nonce_size = 12

cipher_error : Aead → Bytes → Option String
cipher_error c key = elim (c.new_cipher key) [
  | some e ↦ some ("aes new cipher: " <> e)
  | none ↦ elim (c.new_gcm key) [ some e ↦ some ("new gcm: " <> e) | none ↦ none ]
]

module _ (c : Aead) (key : Bytes) where
  -- `Encrypt`, given what the random source answers for the nonce
  unfoldable pub encrypt : Result Bytes → Bytes → Result Bytes
  unfolding cipher_error
  encrypt nonce_read plaintext = elim (cipher_error c key) [
    | some e ↦ err e
    | none ↦ elim (wrap "generate nonce: " nonce_read) [
      | err e ↦ err e
      | ok nonce ↦ ok (nonce ++ c.seal key nonce plaintext)
    ]
  ]

  unfoldable pub decrypt : Bytes → Result Bytes
  unfolding cipher_error
  decrypt bs = elim (cipher_error c key) [
    | some e ↦ err e
    | none ↦
        if ltb (length bs) nonce_size
        then err "ciphertext too short"
        else wrap "decrypt: " (c.unseal key (take nonce_size bs) (drop nonce_size bs))
  ]

  -- `MustEncrypt`: nothing stays nothing, and a failure stores the plaintext.
  unfoldable pub must_encrypt : Result Bytes → Bytes → Bytes
  unfolding encrypt
  must_encrypt nonce_read plaintext =
      if eqb (length plaintext) 0
      then []
      else elim (encrypt nonce_read plaintext) [ ok bs ↦ bs | err _ ↦ plaintext ]

  -- `MustDecrypt`: what cannot be decrypted is returned as it is.
  unfoldable pub must_decrypt : Bytes → Bytes
  unfolding decrypt
  must_decrypt bs =
      if eqb (length bs) 0 then [] else elim (decrypt bs) [ ok plain ↦ plain | err _ ↦ bs ]

  module _ (lawful : IsAead c) (usable : c.new_cipher key ≡ none)
      (usable_gcm : c.new_gcm key ≡ none) where
    decrypt-encrypt :
        (nonce p : Bytes) → length nonce ≡ nonce_size → decrypt (nonce ++ c.seal key nonce p) ≡ ok p
    unfolding decrypt
    decrypt-encrypt nonce p h =
        let sealed = c.seal key nonce p in
        let a = take-append_of_length 12 nonce sealed h in
        let b = drop-append_of_length 12 nonce sealed h in
        ground (arith, length-append nonce sealed, lawful.unseal-seal key nonce p)

    -- A credential stored with a random nonce of the right size is read back as it was given,
    -- the empty one included.
    pub must_decrypt-must_encrypt :
        (nonce p : Bytes) → length nonce ≡ nonce_size → must_decrypt (must_encrypt (ok nonce) p) ≡ p
    unfolding must_encrypt must_decrypt
    must_decrypt-must_encrypt nonce [] h = refl
    must_decrypt-must_encrypt nonce (x ∷ p) h =
        let sealed = c.seal key nonce (x ∷ p) in
        rw (usable, usable_gcm)
          (ground (arith, length-append nonce sealed, decrypt-encrypt nonce (x ∷ p) h))
