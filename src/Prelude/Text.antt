-- ===== src/Prelude/Text.antt =====
-- Text: the comparison of strings, `strings.HasPrefix`, concatenation and the decimal `%d`.
use Prim.Native.Nat.{ℕ, zero, suc, ◌/◌, ◌%◌}
use Prim.Native.String.{String, ◌++◌}
use mathlib.Core.Bool.{Bool}
use mathlib.Core.List.{List, [], ◌∷◌}
use text.Mathlib.Text
use backupeer.Prelude.Tests.{ltb, if◌then◌else◌}

infix 50 ◌==◌
abbrev pub ◌==◌ : String → String → Bool
s == t = Text.◌==◌ s t

infixr 66 ◌<>◌
abbrev pub ◌<>◌ : String → String → String
s <> t = s ++ t

abbrev pub has_prefix : String → String → Bool
has_prefix s t = Text.starts_with s t

-- `slices.Contains`
abbrev pub is_one_of : String → List String → Bool
is_one_of s [] = Bool.false
is_one_of s (t ∷ ts) = if s == t then Bool.true else is_one_of s ts

digit : ℕ → String
digit d =
    if ltb d 1
    then "0"
    else if ltb d 2
    then "1"
    else if ltb d 3
    then "2"
    else if ltb d 4
    then "3"
    else if ltb d 5
    then "4"
    else if ltb d 6
    then "5"
    else if ltb d 7
    then "6"
    else if ltb d 8
    then "7"
    else if ltb d 9
    then "8"
    else "9"

-- The digits before `acc`; the fuel bounds their number.
decimal : ℕ → ℕ → String → String
decimal zero n acc = acc
decimal (suc f) n acc =
    let more = decimal f (n / 10) (digit (n % 10) ++ acc) in
    if ltb n 10 then digit n ++ acc else more

-- What `%d` prints for an int64 that is not negative: it has at most 19 digits.
unfoldable pub format_int : ℕ → String
unfolding decimal digit
format_int n = decimal 25 n ""
