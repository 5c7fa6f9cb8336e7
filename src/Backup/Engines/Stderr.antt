-- ===== src/Backup/Engines/Stderr.antt =====
-- `parseXtraStderr` of internal/backup/xtrabackup.go: what xtrabackup prints about its progress.
pub mod Defaults
use Prim.Native.Char.{Char, code}
use backupeer.Prelude.{
  ℕ, zero, suc, String, Bool, true, false, ◌&&◌, ◌||◌, Option, none, some, List, [], ◌∷◌, ◌==◌,
  is_digit, has_prefix, eqb, leb, if◌then◌else◌,
}

-- The map that is answered: a missing key reads as "".
pub record LsnMap : Type 0 where
  pub to_lsn : String
  pub from_lsn : String
  pub backup_type : String

-- `unicode.IsSpace`
abbrev is_space : ℕ → Bool
is_space c =
    (leb 9 c && leb c 13)
    || (eqb c 32
        || (eqb c 0x85
            || (eqb c 0xa0
                || (eqb c 0x1680
                    || (leb 0x2000 c && leb c 0x200a
                        || (eqb c 0x2028
                            || (eqb c 0x2029
                                || (eqb c 0x202f || (eqb c 0x205f || eqb c 0x3000)))))))))

trim_left : String → String
trim_left String.[] = ""
trim_left (String.◌∷◌ c s) =
    let rest = trim_left s in if is_space (code c) then rest else String.◌∷◌ c s

trim_right : String → String
trim_right String.[] = ""
trim_right (String.◌∷◌ c s) =
    let rest = trim_right s in if rest == "" && is_space (code c) then "" else String.◌∷◌ c rest

-- `strings.TrimSpace`
unfoldable pub trim_space : String → String
unfolding trim_left trim_right
trim_space s = trim_right (trim_left s)

abbrev put_first : Char → List String → List String
put_first c [] = String.◌∷◌ c "" ∷ []
put_first c (l ∷ ls) = String.◌∷◌ c l ∷ ls

-- `strings.Split(s, "\n")`
unfoldable pub split_lines : String → List String
split_lines String.[] = "" ∷ []
split_lines (String.◌∷◌ c s) =
    let rest = split_lines s in if eqb (code c) 10 then "" ∷ rest else put_first c rest

abbrev with_key : Char → Option (String × String) → Option (String × String)
with_key c none = none
with_key c (some (k, v)) = some (String.◌∷◌ c k, v)

-- `strings.SplitN(s, "=", 2)`, where it has two parts
unfoldable pub split_equals : String → Option (String × String)
split_equals String.[] = none
split_equals (String.◌∷◌ c s) =
    let rest = with_key c (split_equals s) in if eqb (code c) b'=' then some ("", s) else rest

-- The digits at the front, and what follows them.
take_digits : String → String × String
take_digits String.[] = ("", "")
take_digits (String.◌∷◌ c s) =
    let rest = take_digits s in
    if is_digit (code c) then (String.◌∷◌ c rest.0, rest.1) else ("", String.◌∷◌ c s)

drop_text : ℕ → String → String
drop_text zero s = s
drop_text (suc n) String.[] = ""
drop_text (suc n) (String.◌∷◌ c s) = drop_text n s

-- What follows the next quote: `[^']*'`
after_quote : String → Option String
after_quote String.[] = none
after_quote (String.◌∷◌ c s) = let rest = after_quote s in if eqb (code c) 39 then some s else rest

-- `(\d+)'`
abbrev quoted : String × String → Option String
quoted (digits, rest) =
    if digits == "" then none else if has_prefix rest "'" then some digits else none

-- The regular expression at one place.
match_here : String → Option String
unfolding after_quote drop_text take_digits
match_here s =
    if has_prefix s "The latest check point"
    then elim (after_quote (drop_text 22 s)) [ none ↦ none | some r ↦ quoted (take_digits r) ]
    else none

-- `FindStringSubmatch`: the first place where it matches.
unfoldable pub find_check_point : String → Option String
unfolding match_here
find_check_point String.[] = none
find_check_point (String.◌∷◌ c s) =
    let later = find_check_point s in
    elim (match_here (String.◌∷◌ c s)) [ some digits ↦ some digits | none ↦ later ]

abbrev pub set_key : String → String → LsnMap → LsnMap
set_key k v m =
    if k == "backup_type"
    then record m { backup_type = v }
    else if k == "from_lsn"
    then record m { from_lsn = v }
    else if k == "to_lsn"
    then record m { to_lsn = v }
    else m

-- The loop over the lines.
unfoldable pub read_lines : List String → LsnMap → LsnMap
unfolding trim_space split_equals
read_lines [] m = m
read_lines (l ∷ ls) m = elim (split_equals (trim_space l)) [
  | none ↦ read_lines ls m
  | some (k, v) ↦ read_lines ls (set_key (trim_space k) (trim_space v) m)
]

abbrev pub or_default : String → String → String
or_default s d = if s == "" then d else s

abbrev found_point : Option String → String
found_point none = ""
found_point (some digits) = digits

unfoldable pub parse_xtra_stderr : String → LsnMap
unfolding find_check_point read_lines split_lines
parse_xtra_stderr stderr =
    let m = read_lines (split_lines stderr) (record {
      to_lsn = found_point (find_check_point stderr);
      from_lsn = "";
      backup_type = "";
    }) in
    record m {
      backup_type = or_default m.backup_type "full-prepared";
      from_lsn = or_default m.from_lsn "0";
    }
