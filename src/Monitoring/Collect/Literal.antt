-- ===== src/Monitoring/Collect/Literal.antt =====
-- The names of databases in the SQL text of internal/monitoring/collector.go (`escapePGString`).
use Prim.Native.Char.{Char, code}
use Prim.Native.String.append
use backupeer.Prelude.{
  ◌≡◌, ◌∙◌, refl, ap, String, Bool, true, false, Option, none, some, ◌<>◌, eqb, Bool-cases, inl,
  inr, if◌then◌else◌,
}

abbrev pub is_quote : Char → Bool
is_quote c = eqb (code c) 39

-- `escapePGString`: every quote is written twice.
unfoldable pub escape_pg_string : String → String
escape_pg_string String.[] = ""
escape_pg_string (String.◌∷◌ c s) =
    let rest = escape_pg_string s in
    if is_quote c then String.◌∷◌ c (String.◌∷◌ c rest) else String.◌∷◌ c rest

abbrev with_char : Char → Option (String × String) → Option (String × String)
with_char c none = none
with_char c (some (s, rest)) = some (String.◌∷◌ c s, rest)

-- How PostgreSQL reads a string constant after its first quote (standard_conforming_strings): two
-- quotes stand for one, and one ends it. The flag says that a quote was read. The answer is the
-- constant and what follows it.
unfoldable pub read_literal : Bool → String → Option (String × String)
read_literal quoted String.[] = if quoted then some ("", "") else none
read_literal false (String.◌∷◌ c s) =
    let after = read_literal true s in
    let more = with_char c (read_literal false s) in if is_quote c then after else more
read_literal true (String.◌∷◌ c s) =
    let more = with_char c (read_literal false s) in
    if is_quote c then more else some ("", String.◌∷◌ c s)

read_once :
    (c : Char) (t : String)
    → is_quote c ≡ false
    → read_literal false (String.◌∷◌ c t) ≡ with_char c (read_literal false t)
unfolding read_literal
read_once c t plain = rw plain refl

read_twice :
    (c : Char) (t : String)
    → is_quote c ≡ true
    → read_literal false (String.◌∷◌ c (String.◌∷◌ c t)) ≡ with_char c (read_literal false t)
unfolding read_literal
read_twice c t quote = rw quote refl

-- Whatever a name holds, PostgreSQL reads its escaped form between quotes as exactly the name, and
-- goes on with the text of the query after it.
pub read_literal-escape_pg_string :
    (name : String) → read_literal false (escape_pg_string name <> "')") ≡ some (name, ")")
unfolding read_literal escape_pg_string
read_literal-escape_pg_string String.[] = refl
read_literal-escape_pg_string (String.◌∷◌ c s) =
    let ih = ap (with_char c) (read_literal-escape_pg_string s) in
    let rest = escape_pg_string s in
    elim (Bool-cases (is_quote c)) [
      | inl quote ↦ rw quote (
          ap (read_literal false)
            (append.cons c (String.◌∷◌ c rest) "')" ∙ ap (String.◌∷◌ c) (append.cons c rest "')"))
          ∙ read_twice c (rest <> "')") quote
          ∙ ih)
      | inr plain ↦ rw plain (
          ap (read_literal false) (append.cons c rest "')") ∙ read_once c (rest <> "')") plain ∙ ih)
    ]
