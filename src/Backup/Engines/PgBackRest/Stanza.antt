-- ===== src/Backup/Engines/PgBackRest/Stanza.antt =====
-- `sanitizeStanzaName` of internal/backup/pgbackrest.go: the stanza's name is made of a connection's.
use Prim.Native.Char.{code}
use backupeer.Prelude.{
  ℕ, ◌≡◌, ◌≢◌, ◌↔◌, refl, subst, String, Bool, true, false, ◌&&◌, ◌||◌, ◌==◌, leb, eqb, eq_iff,
  is_digit, arith, if◌then◌else◌,
}

-- Letters, digits, hyphens and underscores.
abbrev pub is_stanza_char : ℕ → Bool
is_stanza_char c =
    (leb b'a' c && leb c b'z')
    || ((leb b'A' c && leb c b'Z') || (is_digit c || (eqb c 45 || eqb c b'_')))

-- A byte beyond ASCII is dropped, so the bytes and the code points give the same name.
unfoldable pub sanitized : String → String
sanitized String.[] = ""
sanitized (String.◌∷◌ c s) =
    let rest = sanitized s in
    if is_stanza_char (code c)
    then String.◌∷◌ c rest
    else if eqb (code c) b' ' || eqb (code c) b'.'
    then String.◌∷◌ "-" rest
    else rest

unfoldable pub sanitize_stanza_name : String → String
unfolding sanitized
sanitize_stanza_name name =
    let result = sanitized name in if result == "" then "default" else result

abbrev all_valid : String → Bool
all_valid String.[] = true
all_valid (String.◌∷◌ c s) = is_stanza_char (code c) && all_valid s

-- A name that pgbackrest accepts.
abbrev pub IsStanza : String → Type 0
IsStanza s = (all_valid s ≡ true) × (s ≢ "")

all_valid-sanitized : (s : String) → all_valid (sanitized s) ≡ true
unfolding sanitized
all_valid-sanitized String.[] = refl
all_valid-sanitized (String.◌∷◌ c s) = let ih = all_valid-sanitized s in ground (arith, ih)

sanitized-all_valid : (s : String) → all_valid s ≡ true → sanitized s ≡ s
unfolding sanitized
sanitized-all_valid String.[] h = refl
sanitized-all_valid (String.◌∷◌ c s) h = let ih = sanitized-all_valid s in ground (arith, ih, h)

or_default-IsStanza :
    (r : String) (b : Bool)
    → (r == "") ≡ b
    → all_valid r ≡ true
    → IsStanza (if b then "default" else r)
or_default-IsStanza r true e valid = (refl, ground (arith, eq_iff "default" ""))
or_default-IsStanza r false e valid = (valid, ground (arith, e, eq_iff r ""))

sanitize_stanza_name-IsStanza : (name : String) → IsStanza (sanitize_stanza_name name)
unfolding sanitize_stanza_name
sanitize_stanza_name-IsStanza name =
    or_default-IsStanza (sanitized name) _ refl (all_valid-sanitized name)

IsStanza-sanitize_stanza_name : (name : String) → IsStanza name → sanitize_stanza_name name ≡ name
unfolding sanitize_stanza_name
IsStanza-sanitize_stanza_name name (valid, given) =
    let kept = sanitized-all_valid name valid in
    ground (arith, kept, given, eq_iff (sanitized name) "")

-- The stanza is a name that pgbackrest accepts, and a connection keeps its name exactly when it is
-- one.
pub sanitize_stanza_name_fixed_iff :
    (name : String)
    → IsStanza (sanitize_stanza_name name) × ((sanitize_stanza_name name ≡ name) ↔ IsStanza name)
sanitize_stanza_name_fixed_iff name =
    let valid = sanitize_stanza_name-IsStanza name in
    (valid, ((λ same. subst IsStanza same valid), IsStanza-sanitize_stanza_name name))
