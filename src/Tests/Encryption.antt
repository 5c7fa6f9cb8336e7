-- ===== src/Tests/Encryption.antt =====
-- The theorems on internal/encryption/service.go and the credentials at concrete data.
use backupeer.Prelude.{suc, ◌+◌, ◌≡◌, refl, List, [], ◌∷◌, ◌++◌, ok, arith, length, concat}
use backupeer.Encryption.Binary.{Bytes}
use backupeer.Encryption.{DecryptReader, EncryptWriter, encrypt, decrypt, decrypt_stream, nonce_of}
use backupeer.Encryption.Stream.{encrypt_chunks}
use backupeer.Encryption.Copying.{copy_all, copied}
use backupeer.Encryption.RoundTrip.{decrypt_stream-encrypt_chunks}
use backupeer.Encryption.Whole.{decrypt-encrypt}
use backupeer.Encryption.Nonces.{Distinct, nonces_used, nonces_used-Distinct}
use backupeer.Tests.{plain_aead, plain_aead-IsAead, master, salt, nonce}

abbrev chunks : List Bytes
chunks = (1 ∷ 2 ∷ []) ∷ (3 ∷ []) ∷ []

abbrev garbage : Bytes
garbage = 9 ∷ []

decrypt_stream-encrypt_chunks_example :
    (sent : Bytes) × (r : DecryptReader) × (encrypt_chunks plain_aead master (ok salt) [] chunks
      ≡ ok sent)
    × (decrypt_stream plain_aead master (sent ++ garbage) ≡ ok r)
    × (copy_all plain_aead (suc (length (sent ++ garbage))) 4 r [] ≡ copied (concat chunks))
decrypt_stream-encrypt_chunks_example =
    decrypt_stream-encrypt_chunks plain_aead plain_aead-IsAead master salt chunks garbage 4 refl
      (omega arith, (omega arith, tt)) (omega arith)

decrypt-encrypt_example :
    (ciphertext : Bytes) × (encrypt plain_aead master (ok salt) (ok nonce) (8 ∷ []) ≡ ok ciphertext)
    × (length ciphertext ≡ 1 + 44)
    × (decrypt plain_aead master ciphertext ≡ ok (8 ∷ []))
decrypt-encrypt_example =
    decrypt-encrypt plain_aead plain_aead-IsAead master salt nonce (8 ∷ []) refl refl

abbrev writer : EncryptWriter
writer = record { dst = record { faults = []; bytes = [] }; key = master; counter = 1 }

nonces_used-Distinct_example : Distinct (nonce_of 0 ∷ nonces_used plain_aead chunks writer)
nonces_used-Distinct_example =
    nonces_used-Distinct plain_aead chunks writer (omega arith) (omega arith)
