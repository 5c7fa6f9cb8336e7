-- ===== src/Monitoring/Collect/Numbers.antt =====
-- The numbers that internal/monitoring/collector.go reads from text.
use Prim.Native.Char.{code}
use backupeer.Prelude.{
  ℕ, zero, suc, ◌+◌, ◌-◌, ◌*◌, ◌^◌, String, Bool, true, false, Option, none, some, ltb, eqb,
  is_digit, ℤ, pos, negsuc, if◌then◌else◌,
}
use backupeer.Monitoring.Samples.{Floats}

-- The arithmetic on float64 that the collector does.
module _ (R : Floats) where
  open R use {F}

  pub record Arithmetic : Type 0 where
    pub nought : F
    pub percent : ℕ → ℕ → F  -- float64(a) / float64(b) * 100
    pub interval : ℤ → ℤ → F → F  -- hours, minutes and seconds, in seconds
    pub scan_float : String → Option F  -- %f of `Sscanf`, at the front of a text
    pub over_a_minute : F → Bool

-- The digits at the front after some that were read, whether there were any, and what follows.
scan_digits : Bool → ℕ → String → Option (ℕ × String)
scan_digits any n String.[] = if any then some (n, "") else none
scan_digits any n (String.◌∷◌ c s) =
    let rest = scan_digits true (n * 10 + (code c - b'0')) s in
    if is_digit (code c) then rest else if any then some (n, String.◌∷◌ c s) else none

abbrev signed : Bool → Option (ℕ × String) → Option (ℤ × String)
signed minus none = none
signed false (some (n, s)) = if ltb n (2 ^ 63) then some (pos n, s) else none
signed true (some (zero, s)) = some (pos zero, s)
signed true (some (suc n, s)) = if ltb n (2 ^ 63) then some (negsuc n, s) else none

-- %d of `Sscanf` at the front of a text, which the servers print without a blank in front.
unfoldable pub scan_int : String → Option (ℤ × String)
unfolding scan_digits
scan_int String.[] = none
scan_int (String.◌∷◌ c s) =
    if eqb (code c) b'-'
    then signed true (scan_digits false 0 s)
    else signed false (scan_digits false 0 (if eqb (code c) b'+' then s else String.◌∷◌ c s))

-- A colon of the format.
after_colon : String → Option String
after_colon String.[] = none
after_colon (String.◌∷◌ c s) = if eqb (code c) b':' then some s else none

-- %d:
unfoldable pub scan_part : String → Option (ℤ × String)
unfolding scan_int after_colon
scan_part s = elim (scan_int s) [
  | none ↦ none
  | some (n, rest) ↦ elim (after_colon rest) [ none ↦ none | some rest' ↦ some (n, rest') ]
]

-- `parseInt` and `parseInt64`. The servers print no number below 0 there.
unfoldable pub parse_int : String → ℕ
unfolding scan_int
parse_int s = elim (scan_int s) [ none ↦ 0 | some (pos n, _) ↦ n | some (negsuc n, _) ↦ 0 ]

module _ {R : Floats} (A : Arithmetic R) where
  open A use {nought, interval, scan_float}
  open R use {F}

  -- `parseIntervalSeconds`: all three numbers, or 0.
  unfoldable pub parse_interval_seconds : String → F
  unfolding scan_part
  parse_interval_seconds s = elim (scan_part s) [
    | none ↦ nought
    | some (hours, s') ↦ elim (scan_part s') [
      | none ↦ nought
      | some (minutes, s'') ↦ elim (scan_float s'') [
        | none ↦ nought
        | some seconds ↦ interval hours minutes seconds
      ]
    ]
  ]
