-- ===== src/Encryption/Copying.antt =====
-- `io.Copy` over the decrypting reader of internal/encryption/service.go: what reading a whole
-- stream gives.
use backupeer.Prelude.{
  ℕ, dec_lt, min, All, concat, drop-add, take-append-drop_taken, length-take, drop_all, ◌+◌, ◌-◌,
  ◌%◌, ◌^◌, ◌<◌, ◌≤◌, ◌≡◌, ◌≢◌, refl, ap, String, true, false, List, [], ◌∷◌, ◌++◌, ok, arith,
  length, take, drop, length-append, length-drop, take-append_of_length, drop-append_of_length,
  zero, suc, sym, ◌∙◌,
}
use mathlib.Core.List.{append_assoc, append-nil}
use backupeer.Encryption.Binary.{Bytes, be32, be64, from_be32, from_be32-be32}
use backupeer.Encryption.{
  Aead, IsAead, DecryptReader, got, eof, failed, nonce_of, header_of, next_frame, read, read_full,
}
use backupeer.Encryption.Stream.{frame, frames, end_marker, next_counter}

pub data Copied : Type 0 where
  copied : Bytes → Copied
  stopped : Bytes → String → Copied
  out_of_fuel : Copied

-- The loop of `io.Copy` with a buffer of `room` bytes, over what was written so far.
unfoldable pub copy_all : Aead → ℕ → ℕ → DecryptReader → Bytes → Copied
copy_all c zero room r written = out_of_fuel
copy_all c (suc fuel) room r written =
    let step = read c room r in
    elim step.0 [
      | got bs ↦ copy_all c fuel room step.1 (written ++ bs)
      | eof ↦ copied written
      | failed e ↦ stopped written e
    ]

pub read_full-append :
    (n : ℕ) (xs ys : Bytes) → length xs ≡ n → read_full n (xs ++ ys) ≡ (ok xs, ys)
unfolding read_full
read_full-append n xs ys h =
    ground
      (arith, length-append xs ys, take-append_of_length n xs ys h, drop-append_of_length n xs ys h)

abbrev pub reader : Bytes → Bytes → Bytes → ℕ → DecryptReader
reader src key buf pos = record { src = src; key = key; done = false; buf = buf; pos = pos }

-- A chunk whose ciphertext has a length of 32 bits.
abbrev pub Fits : Bytes → Type 0
Fits p = length p + 16 < 2 ^ 32

abbrev pub stream : Aead → Bytes → ℕ → List Bytes → Bytes → Bytes
stream c key counter ps rest = frames c key counter ps ++ (end_marker ++ rest)

module _ (c : Aead) (lawful : IsAead c) where
  pub header_parts :
      (key : Bytes) (counter : ℕ) (p : Bytes)
      → let header = header_of c key counter p in
        (length header ≡ 16)
        × (take 12 header ≡ nonce_of counter)
        × (drop 12 header ≡ be32 (length (c.seal key (nonce_of counter) p) % 2 ^ 32))
  unfolding header_of nonce_of be64 be32
  header_parts key counter p = (refl, refl, refl)

  read-header :
      (room : ℕ) (src key buf : Bytes) (pos : ℕ) (header rest : Bytes)
      → length buf ≤ pos
      → read_full 16 src ≡ (ok header, rest)
      → from_be32 (drop 12 header) ≢ 0
      → read c room (reader src key buf pos) ≡ next_frame c room header (reader rest key buf pos)
  unfolding read
  read-header room src key buf pos header rest h e n = ground arith

  next_frame_ok :
      (room : ℕ) (header src rest key buf sealed p : Bytes) (pos : ℕ)
      → read_full (from_be32 (drop 12 header)) src ≡ (ok sealed, rest)
      → c.unseal key (take 12 header) sealed ≡ ok p
      → next_frame c room header (reader src key buf pos)
        ≡ (got (take room p), reader rest key p (length (take room p)))
  unfolding next_frame
  next_frame_ok room header src rest key buf sealed p pos e u = ground arith

  -- One Read at the start of a frame delivers the head of its plaintext.
  read-frame :
      (room : ℕ) (key : Bytes) (counter : ℕ) (p rest buf : Bytes) (pos : ℕ)
      → length buf ≤ pos
      → length p + 16 < 2 ^ 32
      → read c room (reader (frame c key counter p ++ rest) key buf pos)
        ≡ (got (take room p), reader rest key p (length (take room p)))
  unfolding frame
  read-frame room key counter p rest buf pos h small =
      let header = header_of c key counter p in
      let sealed = c.seal key (nonce_of counter) p in
      let (l16, nonce, size_field) = header_parts key counter p in
      let l = lawful.length-seal key (nonce_of counter) p in
      let size : from_be32 (drop 12 header) ≡ length sealed =
        ap from_be32 size_field
        ∙ (from_be32-be32 (length sealed % 2 ^ 32) (omega arith) ∙ omega arith) in
      rw (append_assoc header sealed rest) (
        read-header room _ key buf pos header (sealed ++ rest) h (read_full-append 16 header _ l16)
          (omega arith)
        ∙ next_frame_ok room header _ rest key buf sealed p pos
            (rw size (read_full-append _ sealed rest refl))
            (rw nonce (lawful.unseal-seal key (nonce_of counter) p)))

  -- One Read at the end marker is io.EOF.
  read-end :
      (room : ℕ) (key rest buf : Bytes) (pos : ℕ)
      → length buf ≤ pos
      → read c room (reader (end_marker ++ rest) key buf pos)
        ≡ (eof, record (reader rest key buf pos) { done = true })
  unfolding read from_be32
  read-end room key rest buf pos h = ground (arith, read_full-append 16 end_marker rest refl)

  read-buffered :
      (room : ℕ) (src key buf : Bytes) (pos : ℕ)
      → pos < length buf
      → read c room (reader src key buf pos) ≡ (
        got (take room (drop pos buf)),
        reader src key buf (pos + length (take room (drop pos buf))),
      )
  unfolding read
  read-buffered room src key buf pos h = ground arith

  copy_all-got :
      (fuel room : ℕ) (r r' : DecryptReader) (bs written : Bytes)
      → read c room r ≡ (got bs, r')
      → copy_all c (suc fuel) room r written ≡ copy_all c fuel room r' (written ++ bs)
  unfolding copy_all
  copy_all-got fuel room r r' bs written e = cc

  copy_all-eof :
      (fuel room : ℕ) (r r' : DecryptReader) (written : Bytes)
      → read c room r ≡ (eof, r')
      → copy_all c (suc fuel) room r written ≡ copied written
  unfolding copy_all
  copy_all-eof fuel room r r' written e = cc

  pub length-frame :
      (key : Bytes) (counter : ℕ) (p : Bytes) → length (frame c key counter p) ≡ length p + 32
  unfolding frame
  length-frame key counter p = omega (
    arith,
    length-append (header_of c key counter p) (c.seal key (nonce_of counter) p),
    (header_parts key counter p).0,
    lawful.length-seal key (nonce_of counter) p,
  )

  copy_buffered :
      (fuel room : ℕ) (ps : List Bytes) (key src buf : Bytes) (pos : ℕ) (written : Bytes)
      → 0 < room
      → pos < length buf
      → copy_all c fuel room
          (reader src key buf (pos + length (take room (drop pos buf))))
          (written ++ take room (drop pos buf))
        ≡ copied (
            (written ++ take room (drop pos buf))
            ++ (drop (pos + length (take room (drop pos buf))) buf ++ concat ps))
      → copy_all c (suc fuel) room (reader src key buf pos) written
        ≡ copied (written ++ (drop pos buf ++ concat ps))
  copy_buffered fuel room ps key src buf pos written h lt ih =
      let given = take room (drop pos buf) in
      let left = drop (length given) (drop pos buf) in
      copy_all-got fuel room _ _ given written (read-buffered room src key buf pos lt)
      ∙ (ih
          ∙ ap copied (
              append_assoc written given _
              ∙ ap (λ (t : Bytes). written ++ t)
                  (ap (λ (t : Bytes). given ++ (t ++ concat ps)) (drop-add pos (length given) buf)
                    ∙ (sym (append_assoc given left (concat ps))
                        ∙ ap (λ (t : Bytes). t ++ concat ps)
                            (take-append-drop_taken room (drop pos buf))))))

  regroup :
      (room : ℕ) (p t written : Bytes)
      → (written ++ take room p) ++ (drop (length (take room p)) p ++ t) ≡ written ++ (p ++ t)
  regroup room p t written =
      let given = take room p in
      append_assoc written given _
      ∙ ap (λ (u : Bytes). written ++ u)
          (sym (append_assoc given _ t)
            ∙ ap (λ (u : Bytes). u ++ t) (take-append-drop_taken room p))

  length-given :
      (room pos : ℕ) (buf : Bytes) → length (take room (drop pos buf)) ≡ min room (length buf - pos)
  length-given room pos buf = length-take room (drop pos buf) ∙ ap (min room) (length-drop pos buf)

  -- The invariant of the loop: what is written, then the unread buffer, then the frames to come.
  pub copy_all-stream :
      (fuel room : ℕ) (ps : List Bytes) (key rest buf : Bytes) (counter pos : ℕ) (written : Bytes)
      → 0 < room
      → All Fits ps
      → pos ≤ length buf
      → length (stream c key counter ps rest) + (length buf - pos) < fuel
      → copy_all c fuel room (reader (stream c key counter ps rest) key buf pos) written
        ≡ copied (written ++ (drop pos buf ++ concat ps))
  copy_all-stream zero room ps key rest buf counter pos written h f p l = absurd (omega arith)
  copy_all-stream (suc fuel) room [] key rest buf counter pos written h f p l =
      let given = take room (drop pos buf) in
      let size = length-given room pos buf in
      elim (dec_lt pos (length buf)) [
        | yes lt ↦ copy_buffered fuel room [] key _ buf pos written h lt (
            copy_all-stream fuel room [] key rest buf counter (pos + length given)
              (written ++ given) h f (omega arith) (omega arith))
        | no ge ↦
            copy_all-eof fuel room _ _ written (read-end room key rest buf pos (omega arith))
            ∙ ap copied (sym (rw (drop_all pos buf (omega arith)) (append-nil written)))
      ]
  copy_all-stream (suc fuel) room (p ∷ ps) key rest buf counter pos written h f b l =
      let given = take room (drop pos buf) in
      let size = length-given room pos buf in
      let later = stream c key (next_counter counter) ps rest in
      let split : stream c key counter (p ∷ ps) rest ≡ frame c key counter p ++ later =
        append_assoc (frame c key counter p) _ _ in
      elim (dec_lt pos (length buf)) [
        | yes lt ↦ copy_buffered fuel room (p ∷ ps) key _ buf pos written h lt (
            copy_all-stream fuel room (p ∷ ps) key rest buf counter (pos + length given)
              (written ++ given) h f (omega arith) (omega arith))
        | no ge ↦
            rw (split, drop_all pos buf (omega arith))
              (copy_all-got fuel room _ _ (take room p) written
                  (read-frame room key counter p later buf pos (omega arith) f.0)
                ∙ (copy_all-stream fuel room ps key rest p (next_counter counter)
                      (length (take room p)) (written ++ take room p) h f.1
                      (omega (arith, length-take room p))
                      (omega (
                        arith,
                        ap length split,
                        length-append (frame c key counter p) later,
                        length-frame key counter p,
                      ))
                    ∙ ap copied (regroup room p (concat ps) written)))
      ]
