-- ===== src/Backup/Handler/Query.antt =====
-- The numbers in the queries of internal/backup/handler.go.
use backupeer.Prelude.{
  ℕ, zero, suc, ◌+◌, ◌-◌, ◌*◌, ◌^◌, String, Option, none, some, List, [], ◌∷◌, ltb, eqb, is_digit,
  codes, ℤ, pos, negsuc, atoi, if◌then◌else◌,
}

-- A positive number in a query, up to a bound where there is one.
unfoldable pub positive_up_to : Option ℕ → ℕ → String → ℕ
positive_up_to bound default_value s = elim (atoi s) [
  | none ↦ default_value
  | some (negsuc n) ↦ default_value
  | some (pos zero) ↦ default_value
  | some (pos (suc n)) ↦ elim bound [
    | none ↦ suc n
    | some top ↦ if ltb n top then suc n else default_value
  ]
]

-- `strconv.ParseUint` in base 10: a digit too many is reported before what follows it.
pub data Parsed : Type 0 where
  number : ℕ → Parsed
  too_big : Parsed
  malformed : Parsed

parse_digits : ℕ → List ℕ → Parsed
parse_digits n [] = number n
parse_digits n (c ∷ s) =
    let n' = n * 10 + (c - b'0') in
    let rest = parse_digits n' s in
    if is_digit c then (if ltb n' (2 ^ 64) then rest else too_big) else malformed

parse_uint : List ℕ → Parsed
unfolding parse_digits
parse_uint [] = malformed
parse_uint (c ∷ s) = parse_digits 0 (c ∷ s)

up_to_max : Parsed → ℤ
up_to_max (number n) = if ltb n (2 ^ 63) then pos n else pos (2 ^ 63 - 1)
up_to_max too_big = pos (2 ^ 63 - 1)
up_to_max malformed = pos 0

down_to_min : Parsed → ℤ
down_to_min (number zero) = pos 0
down_to_min (number (suc n)) = if ltb n (2 ^ 63) then negsuc n else negsuc (2 ^ 63 - 1)
down_to_min too_big = negsuc (2 ^ 63 - 1)
down_to_min malformed = pos 0

signed_value : List ℕ → ℤ
unfolding parse_uint up_to_max down_to_min
signed_value [] = pos 0
signed_value (c ∷ s) =
    if eqb c b'-'
    then down_to_min (parse_uint s)
    else up_to_max (parse_uint (if eqb c b'+' then s else c ∷ s))

-- `n, _ := strconv.Atoi(s)`: the value beside an error is kept.
unfoldable pub atoi_value : String → ℤ
unfolding signed_value
atoi_value s = signed_value (codes s)
