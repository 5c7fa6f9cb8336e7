-- ===== src/Encryption/RoundTrip.antt =====
-- EncryptStream and DecryptStream of internal/encryption/service.go, end to end.
use backupeer.Prelude.{
  ℕ, suc, ◌<◌, ◌≡◌, ◌∙◌, ap, List, [], Option, String, ◌++◌, none, ok, arith, length, All, concat,
  length-append,
}
use mathlib.Core.List.{append_assoc}
use backupeer.Encryption.Binary.{Bytes}
use backupeer.Encryption.{
  Aead, IsAead, EncryptWriter, DecryptReader, encrypt_stream, close_writer, decrypt_stream,
}
use backupeer.Encryption.Stream.{
  frames, end_marker, write_all_ok, encrypt_chunks, encrypt_chunks_of_start, after_writes,
}
use backupeer.Encryption.Copying.{
  copied, copy_all, Fits, stream, reader, read_full-append, copy_all-stream,
}

module _ (c : Aead) (lawful : IsAead c) (master : Bytes) where
  encrypt_stream_ok :
      (salt : Bytes)
      → encrypt_stream c master (ok salt) (record { faults = []; bytes = [] })
        ≡ ok (record {
          dst = record { faults = []; bytes = salt };
          key = c.id_key master salt;
          counter = 1;
        })
  unfolding encrypt_stream
  encrypt_stream_ok salt = ground (arith, lawful.cipher_ok master salt, lawful.gcm_ok master salt)

  after_writes_ok :
      (finish : Option String) (w : EncryptWriter) (bs : Bytes)
      → finish ≡ none
      → w.dst ≡ record { faults = []; bytes = bs }
      → after_writes c (finish, w) ≡ ok (bs ++ end_marker)
  unfolding close_writer
  after_writes_ok finish w bs e d = ground arith

  encrypt_chunks_ok :
      (salt : Bytes) (ps : List Bytes)
      → encrypt_chunks c master (ok salt) [] ps
        ≡ ok (salt ++ stream c (c.id_key master salt) 1 ps [])
  encrypt_chunks_ok salt ps =
      let key = c.id_key master salt in
      let (no_error, left) = write_all_ok c ps key 1 salt in
      encrypt_chunks_of_start c master salt key ps 1 (encrypt_stream_ok salt)
      ∙ (after_writes_ok _ _ _ no_error left
          ∙ ap ok (append_assoc salt (frames c key 1 ps) end_marker))

  decrypt_stream_ok :
      (salt rest : Bytes)
      → length salt ≡ 16
      → decrypt_stream c master (salt ++ rest) ≡ ok (reader rest (c.id_key master salt) [] 0)
  unfolding decrypt_stream
  decrypt_stream_ok salt rest h = ground (
    arith,
    read_full-append 16 salt rest h,
    lawful.cipher_ok master salt,
    lawful.gcm_ok master salt,
  )

  -- For a 16-byte salt, chunks whose ciphertexts have 32-bit lengths and a destination that takes
  -- every write, EncryptStream, one Write for each chunk and Close produce a stream; DecryptStream
  -- under the same master key opens it, whatever bytes follow it, and io.Copy with any buffer of at
  -- least one byte ends without an error and delivers exactly the chunks, joined.
  pub decrypt_stream-encrypt_chunks :
      (salt : Bytes) (ps : List Bytes) (rest : Bytes) (room : ℕ)
      → length salt ≡ 16
      → All Fits ps
      → 0 < room
      → (sent : Bytes) × (r : DecryptReader) × (encrypt_chunks c master (ok salt) [] ps ≡ ok sent)
        × (decrypt_stream c master (sent ++ rest) ≡ ok r)
        × (copy_all c (suc (length (sent ++ rest))) room r [] ≡ copied (concat ps))
  decrypt_stream-encrypt_chunks salt ps rest room h f p =
      let key = c.id_key master salt in
      let whole = stream c key 1 ps [] in
      let src = stream c key 1 ps rest in
      let joined : (salt ++ whole) ++ rest ≡ salt ++ src =
        append_assoc salt whole rest
        ∙ ap (λ (t : Bytes). salt ++ t) (append_assoc (frames c key 1 ps) end_marker rest) in
      (
        salt ++ whole,
        reader src key [] 0,
        encrypt_chunks_ok salt ps,
        rw joined (decrypt_stream_ok salt src h),
        rw joined (
            copy_all-stream c lawful _ room ps key rest [] 1 0 [] p f (omega arith)
              (omega (arith, length-append salt src))),
      )
