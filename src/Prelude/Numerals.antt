-- ===== src/Prelude/Numerals.antt =====
-- Decimal numbers in text: `strconv.Atoi` and what it answers.
use Prim.Native.Nat.{ℕ, zero, suc, ◌+◌, ◌-◌, ◌*◌, ◌^◌}
use Prim.Native.Char.{code}
use Prim.Native.String.{String}
use mathlib.Core.Bool.{Bool, ◌&&◌}
use mathlib.Core.Option.{Option, none, some}
use mathlib.Core.List.{List, [], ◌∷◌}
use backupeer.Prelude.Tests.{leb, ltb, eqb, if◌then◌else◌}

-- An `int`: `negsuc n` is -(n + 1).
pub data ℤ : Type 0 where
  pos : ℕ → ℤ
  negsuc : ℕ → ℤ

-- The code points of a text: its bytes, if it is ASCII.
abbrev pub codes : String → List ℕ
codes String.[] = []
codes (String.◌∷◌ c s) = code c ∷ codes s

abbrev pub is_digit : ℕ → Bool
is_digit c = leb b'0' c && leb c b'9'

-- The digits after a number that was read.
unfoldable pub read_digits : ℕ → List ℕ → Option ℕ
read_digits n [] = some n
read_digits n (c ∷ s) =
    let rest = read_digits (n * 10 + (c - b'0')) s in if is_digit c then rest else none

unfoldable pub read_number : List ℕ → Option ℕ
unfolding read_digits
read_number [] = none
read_number (c ∷ s) = read_digits 0 (c ∷ s)

negative : ℕ → ℤ
negative zero = pos 0
negative (suc n) = negsuc n

-- An optional sign, digits, and the range of an int64.
signed : List ℕ → Option ℤ
unfolding read_number negative
signed [] = none
signed (c ∷ s) =
    if eqb c b'-'
    then (elim (read_number s) [
      | none ↦ none
      | some n ↦ if leb n (2 ^ 63) then some (negative n) else none
    ])
    else (elim (read_number (if eqb c b'+' then s else c ∷ s)) [
      | none ↦ none
      | some n ↦ if ltb n (2 ^ 63) then some (pos n) else none
    ])

unfoldable pub atoi : String → Option ℤ
unfolding signed
atoi s = signed (codes s)
