-- ===== src/Settings/Handler/Resent.antt =====
-- A client that sends back the settings it got (internal/settings/service.go).
use backupeer.Prelude.{
  ◌≡◌, ◌≢◌, ◌==◌, sym, subst, Option-cases, Result-cases, inl, inr, refl, String, true, false, none,
  some, List, [], ◌∷◌, ok, arith, eq_iff, map_get, map_set,
}
use backupeer.Table.{Table, later_faults}
use backupeer.Table.Laws.{transaction_done}
use backupeer.Settings.Batch.{update_batch_refused}
use backupeer.Settings.{Setting, is_allowed, set_each, get_all, update_batch}
use backupeer.Settings.Handler.{handle_get, handle_update}

is_allowed-version : is_allowed "version" ≡ false
unfolding is_allowed
is_allowed-version = refl

is_allowed_named : (k : String) → (k == "version") ≡ true → is_allowed k ≡ false
is_allowed_named k same =
    subst (λ k. is_allowed k ≡ false) (sym ((eq_iff k "version").0 same)) is_allowed-version

set_each-version :
    (settings : List Setting) (version : String) (t : Table Setting)
    → map_get "version" settings ≡ some version
    → (set_each settings t).0 ≢ none
unfolding set_each
set_each-version [] version t h = ground (arith, h)
set_each-version ((k, v) ∷ rest) version t h =
    let ih =
      set_each-version rest version
        (record { faults = later_faults t.faults; rows = map_set k v t.rows }) in
    let refused = is_allowed_named k in ground (arith, h, ih, refused)

update_batch-version :
    (settings : List Setting) (version : String) (t : Table Setting)
    → map_get "version" settings ≡ some version
    → (update_batch settings t).0 ≢ none
unfolding update_batch
update_batch-version settings version t h done =
    set_each-version settings version _ h
      (transaction_done "prepare: " (set_each settings) t done).0

handle_get-version :
    (version : String) (shown : List Setting) (t : Table Setting)
    → (handle_get version t).0.body ≡ ok shown
    → map_get "version" shown ≡ some version
unfolding handle_get
handle_get-version version shown t h = elim (Result-cases (get_all t).0) [
  | inl (rows, e) ↦
      let same : map_set "version" version rows ≡ shown = ground (arith, h, e) in
      subst (λ m. map_get "version" m ≡ some version) same refl
  | inr (x, e) ↦ ground (arith, h, e)
]

-- What handle_get answers is refused by handle_update, and nothing is stored: "version" is shown,
-- but is no setting.
pub update_settings-handle_get :
    (version : String) (shown : List Setting) (t t' : Table Setting)
    → (handle_get version t).0.body ≡ ok shown
    → ((handle_update (some shown) t').0.status ≢ 200)
      × ((handle_update (some shown) t').1.rows ≡ t'.rows)
unfolding handle_get handle_update
update_settings-handle_get version shown t t' h =
    let refused = update_batch-version shown version t' (handle_get-version version shown t h) in
    elim (Option-cases (update_batch shown t').0) [
      | inl e ↦ absurd (refused e)
      | inr (x, e) ↦
          let kept = update_batch_refused shown t' x e in
          (ground (arith, e), ground (arith, e, kept))
    ]
