-- ===== src/Encryption/Nonces.antt =====
-- The nonces of the framed stream (`encryptWriter` of internal/encryption/service.go): AES-GCM is
-- broken by a repeated nonce under one key.
use backupeer.Prelude.{
  ℕ, ◌+◌, ◌^◌, ◌<◌, ◌≡◌, ◌≢◌, ◌∙◌, refl, List, [], ◌∷◌, arith, length, drop, All,
}
use backupeer.Encryption.Binary.{Bytes, zeros, be32, be64, be64-injective}
use backupeer.Encryption.{Aead, EncryptWriter, nonce_of, header_of, write_frame}
use backupeer.Encryption.Stream.{next_counter}

-- Each element differs from all that follow it.
abbrev pub Distinct : List Bytes → Type 0
Distinct [] = Unit
Distinct (n ∷ ns) = All (λ m. n ≢ m) ns × Distinct ns

module _ (c : Aead) where
  -- The cipher whose ciphertext is its nonce.
  abbrev pub recorder : Aead
  recorder = record c { seal = λ key nonce plaintext. nonce }

  -- The nonce that a Write call seals its frame with: what the recorder leaves behind the header on
  -- a destination that takes every write.
  unfoldable pub sealed_with : Bytes → EncryptWriter → Bytes
  sealed_with p w =
      drop 16
        (write_frame recorder p (record w { dst = record { faults = []; bytes = [] } })).1.dst.bytes

  -- The nonces that a series of Write calls seals with, failed writes included.
  unfoldable pub nonces_used : List Bytes → EncryptWriter → List Bytes
  unfolding sealed_with
  nonces_used [] w = []
  nonces_used (p ∷ ps) w = sealed_with p w ∷ nonces_used ps (write_frame c p w).1

  write_frame_counter :
      (p : Bytes) (w : EncryptWriter) → (write_frame c p w).1.counter ≡ next_counter w.counter
  unfolding write_frame
  write_frame_counter p w = ground arith

  sealed_nonce : (p : Bytes) (w : EncryptWriter) → sealed_with p w ≡ nonce_of w.counter
  unfolding sealed_with write_frame header_of nonce_of be64 be32
  sealed_nonce p w = refl

  nonce_of-injective : (v w : ℕ) → v < 2 ^ 64 → w < 2 ^ 64 → nonce_of v ≡ nonce_of w → v ≡ w
  unfolding nonce_of
  nonce_of-injective v w h k e = be64-injective v w (zeros 4) h k e

  later_nonces_differ :
      (ps : List Bytes) (w : EncryptWriter) (v : ℕ)
      → v < w.counter
      → w.counter + length ps < 2 ^ 64
      → All (λ m. nonce_of v ≢ m) (nonces_used ps w)
  unfolding nonces_used
  later_nonces_differ [] w v h k = tt
  later_nonces_differ (p ∷ ps) w v h k =
      let step = write_frame_counter p w in
      (
        (λ e. absurd (
            omega (
              arith,
              nonce_of-injective v w.counter (omega arith) (omega arith) (e ∙ sealed_nonce p w),
            ))),
        later_nonces_differ ps (write_frame c p w).1 v (omega arith) (omega arith),
      )

  -- A series of Write calls that leaves the 64-bit counter below its limit never seals two frames
  -- with one nonce, also when writes fail, and never with the nonce that the counter value 0 would
  -- give.
  pub nonces_used-Distinct :
      (ps : List Bytes) (w : EncryptWriter)
      → 0 < w.counter
      → w.counter + length ps < 2 ^ 64
      → Distinct (nonce_of 0 ∷ nonces_used ps w)
  unfolding nonces_used
  nonces_used-Distinct ps w pos h = (later_nonces_differ ps w 0 pos h, distinct ps w h)
    where
      distinct :
          (ps : List Bytes) (w : EncryptWriter)
          → w.counter + length ps < 2 ^ 64
          → Distinct (nonces_used ps w)
      distinct [] w h = tt
      distinct (p ∷ ps) w h =
          let step = write_frame_counter p w in
          (
            rw (sealed_nonce p w) (
                later_nonces_differ ps (write_frame c p w).1 w.counter (omega arith) (omega arith)),
            distinct ps (write_frame c p w).1 (omega arith),
          )
