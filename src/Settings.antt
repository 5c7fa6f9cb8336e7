-- ===== src/Settings.antt =====
-- internal/settings/service.go: the key-value table of the application's settings.
pub mod Batch
pub mod Handler
use backupeer.Prelude.{
  String, Bool, true, false, Option, none, some, List, [], ◌∷◌, Result, ok, err, ◌<>◌, ◌==◌,
  is_one_of, map_set, wrap, if◌then◌else◌,
}
use backupeer.Table.{Table, transaction, query, next_fault, later_faults}

-- A row or an entry of a request: the key and the value.
abbrev pub Setting : Type 0
Setting = String × String

unfoldable pub get_all : Table Setting → Result (List Setting) × Table Setting
get_all t = let answer = query (λ rows. rows) t in (wrap "get settings: " answer.0, answer.1)

abbrev pub allowed : List String
allowed =
    "retention_full_default" ∷ "retention_incr_default" ∷ "concurrent_backups" ∷ "compression"
    ∷ "timezone" ∷ "notify_on_success" ∷ "notify_on_failure" ∷ []

unfoldable pub is_allowed : String → Bool
is_allowed k = is_one_of k allowed

-- The loop of UpdateBatch inside its transaction, over the map in the order that Go takes it.
unfoldable pub set_each : List Setting → Table Setting → Option String × Table Setting
set_each [] t = (none, t)
set_each ((k, v) ∷ rest) t =
    let next =
      set_each rest (record { faults = later_faults t.faults; rows = map_set k v t.rows }) in
    if is_allowed k
    then elim (next_fault t.faults) [
      | some e ↦ (some ("set " <> k <> ": " <> e), record t { faults = later_faults t.faults })
      | none ↦ next
    ]
    else (some ("unknown setting: " <> k), t)

unfoldable pub update_batch : List Setting → Table Setting → Option String × Table Setting
update_batch settings t = transaction "prepare: " (set_each settings) t
