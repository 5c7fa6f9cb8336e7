-- ===== src/Encryption/Binary.antt =====
-- `encoding/binary`: big-endian integers of 4 and 8 bytes, as the frame header uses them.
use backupeer.Prelude.{
  ℕ, ◌+◌, ◌*◌, ◌/◌, ◌%◌, ◌^◌, ◌<◌, ◌≡◌, sym, ap, ◌∙◌, ◌++◌, List, [], ◌∷◌, arith, replicate,
}

abbrev pub Bytes : Type 0
Bytes = List ℕ

abbrev pub zeros : ℕ → Bytes
zeros n = replicate n 0

-- `binary.BigEndian.PutUint32`
unfoldable pub be32 : ℕ → Bytes
be32 v = (v / 2 ^ 24 % 256) ∷ (v / 2 ^ 16 % 256) ∷ (v / 2 ^ 8 % 256) ∷ (v % 256) ∷ []

-- `binary.BigEndian.PutUint64`
unfoldable pub be64 : ℕ → Bytes
be64 v =
    (v / 2 ^ 56 % 256)
    ∷ (v / 2 ^ 48 % 256)
    ∷ (v / 2 ^ 40 % 256)
    ∷ (v / 2 ^ 32 % 256)
    ∷ (v / 2 ^ 24 % 256)
    ∷ (v / 2 ^ 16 % 256)
    ∷ (v / 2 ^ 8 % 256)
    ∷ (v % 256)
    ∷ []

-- `binary.BigEndian.Uint32`, of the first four bytes
unfoldable pub from_be32 : Bytes → ℕ
from_be32 (a ∷ b ∷ c ∷ d ∷ rest) = a * 2 ^ 24 + b * 2 ^ 16 + c * 2 ^ 8 + d
from_be32 _ = 0

pub from_be32-be32 : (v : ℕ) → v < 2 ^ 32 → from_be32 (be32 v) ≡ v
unfolding from_be32 be32
from_be32-be32 v h = omega arith

from_be64 : Bytes → ℕ
from_be64 (a ∷ b ∷ c ∷ d ∷ e ∷ f ∷ g ∷ h ∷ rest) =
    a * 2 ^ 56 + b * 2 ^ 48 + c * 2 ^ 40 + d * 2 ^ 32 + e * 2 ^ 24 + f * 2 ^ 16 + g * 2 ^ 8 + h
from_be64 _ = 0

from_be64-be64 : (v : ℕ) (rest : Bytes) → v < 2 ^ 64 → from_be64 (be64 v ++ rest) ≡ v
unfolding from_be64 be64
from_be64-be64 v rest h = omega arith

pub be64-injective :
    (v w : ℕ) (rest : Bytes) → v < 2 ^ 64 → w < 2 ^ 64 → be64 v ++ rest ≡ be64 w ++ rest → v ≡ w
be64-injective v w rest h k e =
    sym (from_be64-be64 v rest h) ∙ (ap from_be64 e ∙ from_be64-be64 w rest k)
