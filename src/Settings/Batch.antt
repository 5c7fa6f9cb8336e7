-- ===== src/Settings/Batch.antt =====
-- A batch of settings is stored as a whole or not at all.
use backupeer.Prelude.{
  ◌≡◌, ◌∙◌, Option-cases, inl, inr, refl, String, Bool, true, false, Option, none, some, List, [],
  ◌∷◌, arith, eq_iff, map_get, map_set, map_get-map_set, if_both, if◌then◌else◌,
}
use backupeer.Table.{Table}
use backupeer.Table.Laws.{rows-transaction_failed, transaction_calm}
use backupeer.Settings.{Setting, is_allowed, set_each, update_batch}

-- A batch that is refused changes no row, whatever fails: a key, a statement or the commit.
pub update_batch_refused :
    (settings : List Setting) (t : Table Setting) (e : String)
    → (update_batch settings t).0 ≡ some e
    → (update_batch settings t).1.rows ≡ t.rows
unfolding update_batch
update_batch_refused settings t e h = rows-transaction_failed "prepare: " (set_each settings) t h

unfoldable pub are_allowed : List Setting → Bool
are_allowed [] = true
are_allowed ((k, v) ∷ rest) = let more = are_allowed rest in if is_allowed k then more else false

-- A request is a map: it has a key once.
unfoldable pub HasDistinctKeys : List Setting → Type 0
HasDistinctKeys [] = Unit
HasDistinctKeys ((k, v) ∷ rest) = (map_get k rest ≡ none) × HasDistinctKeys rest

abbrev pub or_else : Option String → Option String → Option String
or_else none b = b
or_else (some a) b = some a

abbrev pub calm_table : List Setting → Table Setting
calm_table rows = record { faults = []; rows = rows }

abbrev pub is_none : Option String → Bool
is_none none = true
is_none (some e) = false

faults-set_each :
    (settings rows : List Setting) → (set_each settings (calm_table rows)).1.faults ≡ []
unfolding set_each
faults-set_each [] rows = refl
faults-set_each ((j, v) ∷ rest) rows =
    let ih = faults-set_each rest (map_set j v rows) in
    if_both (λ (r : Option String × Table Setting). r.1.faults ≡ []) (is_allowed j) ih refl

set_each_accepts :
    (settings rows : List Setting)
    → is_none (set_each settings (calm_table rows)).0 ≡ are_allowed settings
unfolding set_each are_allowed
set_each_accepts [] rows = refl
set_each_accepts ((j, v) ∷ rest) rows =
    let ih = set_each_accepts rest (map_set j v rows) in ground (arith, ih)

rows-set_each :
    (settings rows : List Setting) (k : String)
    → HasDistinctKeys settings
    → are_allowed settings ≡ true
    → map_get k (set_each settings (calm_table rows)).1.rows
      ≡ or_else (map_get k settings) (map_get k rows)
unfolding set_each are_allowed HasDistinctKeys
rows-set_each [] rows k distinct all = refl
rows-set_each ((j, v) ∷ rest) rows k (fresh, distinct) all =
    let ih = rows-set_each rest (map_set j v rows) k distinct in
    let set = map_get-map_set k j v rows in ground (arith, ih, set, fresh, all, eq_iff j k)

-- When the database answers, a request is accepted exactly when all of its keys are allowed; then
-- each setting has the value of the request, and the others their old value.
pub update_batch_calm :
    (settings rows : List Setting)
    → HasDistinctKeys settings
    → (is_none (update_batch settings (calm_table rows)).0 ≡ are_allowed settings)
      × ((k : String)
          → map_get k (update_batch settings (calm_table rows)).1.rows ≡ (
              if are_allowed settings
              then or_else (map_get k settings) (map_get k rows)
              else map_get k rows))
unfolding update_batch
update_batch_calm settings rows distinct =
    let accepts = set_each_accepts settings rows in
    let (same, stored) =
      transaction_calm "prepare: " (set_each settings) rows (faults-set_each settings rows) in
    (
      ground (arith, accepts, same),
      (λ k.
          let read = rows-set_each settings rows k distinct in
          elim (Option-cases (set_each settings (calm_table rows)).0) [
            | inl e ↦ let kept = stored e in ground (arith, accepts, e, kept, read)
            | inr (x, e) ↦
                let kept =
                  rows-transaction_failed "prepare: " (set_each settings) (calm_table rows)
                    (same ∙ e) in
                ground (arith, accepts, e, kept)
          ]),
    )
