-- ===== src/Settings/Handler.antt =====
-- The HTTP handlers of internal/settings/service.go.
pub mod Resent
use backupeer.Prelude.{
  String, Bool, true, false, Option, none, some, List, Result, ok, err, ◌||◌, has_prefix, map_set,
  if◌then◌else◌,
}
use backupeer.Http.{Response, write_error, write_json}
use backupeer.Table.{Table}
use backupeer.Settings.{Setting, get_all, update_batch}

-- `strings.Contains`
unfoldable pub contains : String → String → Bool
contains String.[] sub = has_prefix "" sub
contains (String.◌∷◌ c s) sub = has_prefix (String.◌∷◌ c s) sub || contains s sub

-- The version of the program is shown among the settings.
unfoldable pub handle_get : String → Table Setting → Response (List Setting) × Table Setting
handle_get version t =
    let answer = get_all t in
    (
      elim answer.0 [
        | err e ↦ write_error 500 e
        | ok settings ↦ write_json 200 (map_set "version" version settings)
      ],
      answer.1,
    )

-- `none` stands for a body that cannot be decoded.
unfoldable pub handle_update :
    Option (List Setting) → Table Setting → Response (List Setting) × Table Setting
unfolding contains
handle_update none t = (write_error 400 "invalid request", t)
handle_update (some settings) t =
    let done = update_batch settings t in
    let answer = get_all done.1 in
    elim done.0 [
      | some e ↦
          (if contains e "unknown setting" then write_error 400 e else write_error 500 e, done.1)
      | none ↦ (elim answer.0 [ err e ↦ write_error 500 e | ok now ↦ write_json 200 now ], answer.1)
    ]
