-- ===== src/Encryption.antt =====
-- internal/encryption/service.go: AES-256-GCM encryption of a backup, whole and as a framed stream.
-- Bytes are numbers; `crypto/aes`, `crypto/cipher` and `argon2` are the record `Aead`, and what
-- `rand.Read` returns is an argument.
pub mod Binary
pub mod Whole
pub mod Stream
pub mod Copying
pub mod RoundTrip
pub mod Nonces
use backupeer.Prelude.{
  ℕ, ◌+◌, ◌-◌, ◌%◌, ◌^◌, ◌≡◌, String, Bool, true, false, Option, none, some, List, [], ◌∷◌, ◌++◌,
  Result, ok, err, ◌>>=◌, ◌<>◌, wrap, ltb, leb, eqb, length, take, drop, if◌then◌else◌,
}
use backupeer.Encryption.Binary.{Bytes, zeros, be32, be64, from_be32}

pub record Aead : Type 0 where
  -- `argon2.IDKey(masterKey, salt, 1, 64*1024, 4, 32)`
  pub id_key : Bytes → Bytes → Bytes
  -- the errors of `aes.NewCipher` and `cipher.NewGCM` for a key
  pub new_cipher : Bytes → Option String
  pub new_gcm : Bytes → Option String
  pub seal : Bytes → Bytes → Bytes → Bytes
  pub unseal : Bytes → Bytes → Bytes → Result Bytes

-- What the packages document: a derived key fits, `Open` undoes `Seal`, and a tag has 16 bytes.
pub record IsAead (c : Aead) : Type 0 where
  pub cipher_ok : (m s : Bytes) → c.new_cipher (c.id_key m s) ≡ none
  pub gcm_ok : (m s : Bytes) → c.new_gcm (c.id_key m s) ≡ none
  pub unseal-seal : (k n p : Bytes) → c.unseal k n (c.seal k n p) ≡ ok p
  pub length-seal : (k n p : Bytes) → length (c.seal k n p) ≡ length p + 16

abbrev check : String → Option String → Result (Unit {0})
check label none = ok tt
check label (some e) = err (label <> e)

-- A destination `io.Writer`: the bytes written, and the errors of the coming writes.
pub record Sink : Type 0 where
  pub faults : List (Option String)
  pub bytes : Bytes

abbrev pub sink_write : Bytes → List (Option String) → Sink → Option String × Sink
sink_write bs [] s = (none, record s { bytes = s.bytes ++ bs })
sink_write bs (none ∷ fs) s = (none, record s { bytes = s.bytes ++ bs; faults = fs })
sink_write bs (some e ∷ fs) s = (some e, record s { faults = fs })

abbrev pub write : Bytes → Sink → Option String × Sink
write bs s = sink_write bs s.faults s

-- `io.ReadFull` on a source that holds the bytes and then ends.
unfoldable pub read_full : ℕ → Bytes → Result Bytes × Bytes
read_full n src =
    if leb n (length src)
    then (ok (take n src), drop n src)
    else (err (if eqb (length src) 0 then "EOF" else "unexpected EOF"), [])

pub record EncryptWriter : Type 0 where
  pub dst : Sink
  pub key : Bytes
  pub counter : ℕ

pub record DecryptReader : Type 0 where
  pub src : Bytes
  pub key : Bytes
  pub done : Bool
  pub buf : Bytes
  pub pos : ℕ

-- The answer of one `Read`: bytes (`n, nil`), `io.EOF`, or another error.
pub data Answer : Type 0 where
  got : Bytes → Answer
  eof : Answer
  failed : String → Answer

abbrev pub frame_header_size : ℕ
frame_header_size = 16

module _ (c : Aead) (master : Bytes) where
  pub derive_key : Bytes → Bytes
  derive_key salt = c.id_key master salt

  -- `aes.NewCipher` and `cipher.NewGCM`
  pub cipher_for : Bytes → Result (Unit {0})
  cipher_for key =
      check "new cipher: " (c.new_cipher key) >>= λ _. check "new gcm: " (c.new_gcm key)

  -- The random salt and nonce, or the error of the random source, are the first two arguments.
  unfoldable pub encrypt : Result Bytes → Result Bytes → Bytes → Result Bytes
  unfolding derive_key cipher_for
  encrypt salt_read nonce_read plaintext = do
    salt ← wrap "generate salt: " salt_read
    let key = derive_key salt
    _ ← cipher_for key
    nonce ← wrap "generate nonce: " nonce_read
    ok (salt ++ (nonce ++ c.seal key nonce plaintext))

  unfoldable pub decrypt : Bytes → Result Bytes
  unfolding derive_key cipher_for
  decrypt ciphertext =
      if ltb (length ciphertext) 28
      then err "ciphertext too short"
      else (let key = derive_key (take 16 ciphertext) in
          cipher_for key >>= λ _.
          wrap "decrypt: " (c.unseal key (take 12 (drop 16 ciphertext)) (drop 28 ciphertext)))

  unfoldable pub encrypt_stream : Result Bytes → Sink → Result EncryptWriter
  unfolding derive_key cipher_for
  encrypt_stream salt_read dst = do
    salt ← wrap "generate salt: " salt_read
    let key = derive_key salt
    _ ← cipher_for key
    let sent = write salt dst
    _ ← check "write salt: " sent.0
    ok (record { dst = sent.1; key = key; counter = 1 })

  unfoldable pub decrypt_stream : Bytes → Result DecryptReader
  unfolding derive_key cipher_for
  decrypt_stream src = do
    let taken = read_full 16 src
    salt ← wrap "read salt: " taken.0
    let key = derive_key salt
    _ ← cipher_for key
    ok (record { src = taken.1; key = key; done = false; buf = []; pos = 0 })

-- The nonce that `Write` builds from its counter: 8 bytes big-endian, then 4 zero bytes.
unfoldable pub nonce_of : ℕ → Bytes
nonce_of counter = be64 counter ++ zeros 4

module _ (c : Aead) where
  unfoldable pub header_of : Bytes → ℕ → Bytes → Bytes
  header_of key counter p =
      let nonce = nonce_of counter in nonce ++ be32 (length (c.seal key nonce p) % 2 ^ 32)

  -- `encryptWriter.Write`
  unfoldable pub write_frame : Bytes → EncryptWriter → Result ℕ × EncryptWriter
  unfolding header_of nonce_of
  write_frame p w =
      let ciphertext = c.seal w.key (nonce_of w.counter) p in
      let next = (w.counter + 1) % 2 ^ 64 in
      let head = write (header_of w.key w.counter p) w.dst in
      elim head.0 [
        | some e ↦ (err ("encrypt frame header: " <> e), record w { dst = head.1; counter = next })
        | none ↦
            let body = write ciphertext head.1 in
            elim body.0 [
              | some e ↦
                  (err ("encrypt frame data: " <> e), record w { dst = body.1; counter = next })
              | none ↦ (ok (length p), record w { dst = body.1; counter = next })
            ]
      ]

  -- `encryptWriter.Close`
  unfoldable pub close_writer : EncryptWriter → Option String × EncryptWriter
  close_writer w =
      let sent = write (zeros frame_header_size) w.dst in (sent.0, record w { dst = sent.1 })

  -- The frame after the header, whose length is not zero.
  next_frame : ℕ → Bytes → DecryptReader → Answer × DecryptReader
  next_frame room header r =
      let body = read_full (from_be32 (drop 12 header)) r.src in
      elim body.0 [
        | err e ↦ (failed ("read frame data: " <> e), record r { src = body.1 })
        | ok ciphertext ↦ elim (c.unseal r.key (take 12 header) ciphertext) [
          | err e ↦ (failed ("decrypt frame: " <> e), record r { src = body.1 })
          | ok plaintext ↦
              let given = take room plaintext in
              (got given, record r { src = body.1; buf = plaintext; pos = length given })
        ]
      ]

  -- `decryptReader.Read` into a buffer of `room` bytes
  unfoldable pub read : ℕ → DecryptReader → Answer × DecryptReader
  unfolding next_frame read_full
  read room r =
      if ltb r.pos (length r.buf)
      then (let given = take room (drop r.pos r.buf) in
          (got given, record r { pos = r.pos + length given }))
      else if r.done
      then (eof, r)
      else (let head = read_full frame_header_size r.src in
          elim head.0 [
            | err e ↦ (failed ("read frame header: " <> e), record r { src = head.1 })
            | ok header ↦
                if eqb (from_be32 (drop 12 header)) 0
                then (eof, record r { src = head.1; done = true })
                else next_frame room header (record r { src = head.1 })
          ])
