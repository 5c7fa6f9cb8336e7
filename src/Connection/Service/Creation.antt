-- ===== src/Connection/Service/Creation.antt =====
-- What Create of internal/connection/service.go stores.
use backupeer.Prelude.{
  ℕ, ◌≡◌, refl, String, true, false, Option, none, some, List, [], ◌∷◌, ◌++◌, arith, any, is_one_of,
  Option-cases, Bool-cases, inl, inr,
}
use backupeer.Table.{exec}
use backupeer.Connection.{Connection}
use backupeer.Connection.Service.{has_id, db_types, insert_row, refusal, with_default_mode, create}

abbrev pub new_row : String → ℕ → Connection → Connection
new_row id now c = record (with_default_mode c) { id = id; created_at = now; updated_at = now }

refusal-none :
    (test : Connection → Option String) (c : Connection)
    → refusal test c ≡ none
    → is_one_of c.db_type db_types ≡ true
unfolding refusal
refusal-none test c h = elim (Bool-cases (is_one_of c.db_type db_types)) [
  | inl known ↦ known
  | inr unknown ↦ ground (arith, h, unknown)
]

-- When the database answers and the identifier is new, Create reports what the validation and the
-- connection test refuse and then stores nothing, and otherwise stores the connection, whose TLS mode
-- is filled in, and reports no error: what it accepts never breaks the CHECK constraint.
pub create_calm :
    (test : Connection → Option String) (id : String) (now : ℕ) (c : Connection)
    (rows : List Connection)
    → any (has_id id) rows ≡ false
    → ((create test id now c (record { faults = []; rows = rows })).0 ≡ refusal test c)
      × ((create test id now c (record { faults = []; rows = rows })).1.rows
          ≡ (elim (refusal test c) [ none ↦ rows ++ (new_row id now c ∷ []) | some _ ↦ rows ]))
unfolding create exec
create_calm test id now c rows fresh = elim (Option-cases (refusal test c)) [
  | inl e ↦
      let known = refusal-none test c e in
      rw (e, create, exec, insert_row, fresh, known) (refl, refl)
  | inr (x, e) ↦ rw (e, create) (refl, refl)
]
