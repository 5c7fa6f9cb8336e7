-- ===== src/Encryption/Stream.antt =====
-- The stream format of internal/encryption/service.go, and the two sides of it: what a writer that
-- meets no error leaves in its destination, and what one Read does at a frame and at the end marker.
use backupeer.Prelude.{
  ℕ, ◌+◌, ◌%◌, ◌^◌, ◌≡◌, refl, ap, String, List, [], ◌∷◌, ◌++◌, Option, none, some, Result, ok, err,
  length, ◌∙◌,
}
use mathlib.Core.List.{append_assoc, append-nil}
use backupeer.Encryption.Binary.{Bytes, zeros}
use backupeer.Encryption.{
  Aead, EncryptWriter, nonce_of, header_of, write_frame, close_writer, encrypt_stream,
}

abbrev pub next_counter : ℕ → ℕ
next_counter n = (n + 1) % 2 ^ 64

-- The end marker: a zero nonce and a zero length.
abbrev pub end_marker : Bytes
end_marker = zeros 16

module _ (c : Aead) where
  -- [nonce:12][frameLen:4][ciphertext]
  unfoldable pub frame : Bytes → ℕ → Bytes → Bytes
  frame key counter p = header_of c key counter p ++ c.seal key (nonce_of counter) p

  abbrev pub frames : Bytes → ℕ → List Bytes → Bytes
  frames key counter [] = []
  frames key counter (p ∷ ps) = frame key counter p ++ frames key (next_counter counter) ps

  -- A caller that writes the chunks one by one and stops at the first error.
  pub write_all : List Bytes → EncryptWriter → Option String × EncryptWriter
  write_all [] w = (none, w)
  write_all (p ∷ ps) w =
      let sent = write_frame c p w in
      let more = write_all ps sent.1 in elim sent.0 [ err e ↦ (some e, sent.1) | ok n ↦ more ]

  abbrev pub after_writes : Option String × EncryptWriter → Result Bytes
  after_writes (some e, w) = err e
  after_writes (none, w) =
      let end = close_writer c w in elim end.0 [ none ↦ ok end.1.dst.bytes | some e ↦ err e ]

  pub write_chunks : List Bytes → Result EncryptWriter → Result Bytes
  unfolding write_all
  write_chunks ps (err e) = err e
  write_chunks ps (ok w) = after_writes (write_all ps w)

  -- EncryptStream, a Write for each chunk, and Close, into an empty destination.
  unfoldable pub encrypt_chunks :
      Bytes → Result Bytes → List (Option String) → List Bytes → Result Bytes
  unfolding write_chunks
  encrypt_chunks master salt_read faults ps =
      write_chunks ps (encrypt_stream c master salt_read (record { faults = faults; bytes = [] }))

  pub encrypt_chunks_of_start :
      (master salt key : Bytes) (ps : List Bytes) (counter : ℕ)
      → encrypt_stream c master (ok salt) (record { faults = []; bytes = [] })
        ≡ ok (record { dst = record { faults = []; bytes = salt }; key = key; counter = counter })
      → encrypt_chunks master (ok salt) [] ps
        ≡ after_writes (
            write_all ps
              (record { dst = record { faults = []; bytes = salt }; key = key; counter = counter }))
  unfolding encrypt_chunks
  encrypt_chunks_of_start master salt key ps counter e = ap (write_chunks ps) e

  write_frame_ok :
      (p : Bytes) (key : Bytes) (counter : ℕ) (bs : Bytes)
      → write_frame c p
          (record { dst = record { faults = []; bytes = bs }; key = key; counter = counter })
        ≡ (
          ok (length p),
          record {
            dst = record { faults = []; bytes = bs ++ frame key counter p };
            key = key;
            counter = next_counter counter;
          },
        )
  unfolding write_frame frame
  write_frame_ok p key counter bs = rw append_assoc

  write_all-cons :
      (p : Bytes) (ps : List Bytes) (w w' : EncryptWriter) (n : ℕ)
      → write_frame c p w ≡ (ok n, w')
      → write_all (p ∷ ps) w ≡ write_all ps w'
  unfolding write_all
  write_all-cons p ps w w' n e = cc

  pub write_all_ok :
      (ps : List Bytes) (key : Bytes) (counter : ℕ) (bs : Bytes)
      → let end =
          write_all ps
            (record { dst = record { faults = []; bytes = bs }; key = key; counter = counter }) in
        (end.0 ≡ none) × (end.1.dst ≡ record { faults = []; bytes = bs ++ frames key counter ps })
  unfolding write_all
  write_all_ok [] key counter bs = (refl, rw append-nil)
  write_all_ok (p ∷ ps) key counter bs =
      let step = write_all-cons p ps _ _ _ (write_frame_ok p key counter bs) in
      let (ok_writes, left) =
        write_all_ok ps key (next_counter counter) (bs ++ frame key counter p) in
      (
        ap (λ (e : Option String × EncryptWriter). e.0) step ∙ ok_writes,
        ap (λ (e : Option String × EncryptWriter). e.1.dst) step
            ∙ (left ∙ ap (λ (b : Bytes). record { faults = []; bytes = b }) (append_assoc bs _ _)),
      )
