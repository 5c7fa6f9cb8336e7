-- ===== src/Auth/Handler.antt =====
-- The HTTP handlers of internal/auth/service.go.
use backupeer.Prelude.{ℕ, String, Bool, true, false, Option, none, some, ok, err}
use backupeer.Http.{Response, write_error, write_json}
use backupeer.Auth.{
  Service, Session, Request, cookie_token, login, logout, change_password, handle_check,
}

-- `http.Cookie`, the session's: its value, HttpOnly and SameSite=Lax, and the age in seconds, where
-- `none` deletes it.
pub record Cookie : Type 0 where
  pub value : String
  pub http_only : Bool
  pub same_site_lax : Bool
  pub max_age : Option ℕ

abbrev pub session_cookie : String → Cookie
session_cookie token = record {
  value = token;
  http_only = true;
  same_site_lax = true;
  max_age = some 86400;
}

abbrev pub cleared_cookie : Cookie
cleared_cookie = record { value = ""; http_only = false; same_site_lax = false; max_age = none }

-- An answer with the cookie that it sets.
abbrev pub Answer : Type 0 → Type 0
Answer A = Response A × Option Cookie

-- `none` stands for a body that cannot be decoded. The answer has the token and the user.
unfoldable pub handle_login :
    (String → String)
    → Option (String × String)
    → String
    → ℕ
    → Service
    → Answer (String × String) × Service
handle_login digest none token now s = ((write_error 400 "invalid request", none), s)
handle_login digest (some (user, password)) token now s =
    let done = login digest user password token now s in
    elim done.0 [
      | none ↦ ((write_error 401 "invalid credentials", none), done.1)
      | some t ↦ ((write_json 200 (t, user), some (session_cookie t)), done.1)
    ]

unfoldable pub handle_logout : Request → Service → Answer Bool × Service
handle_logout r s = ((write_json 200 true, some cleared_cookie), logout (cookie_token r) s)

-- `HandleCheck` as it answers.
unfoldable pub answer_check : ℕ → Request → Service → Response Session
answer_check now r s = elim (handle_check now r s) [
  | err e ↦ write_error 401 e
  | ok session ↦ write_json 200 session
]

unfoldable pub handle_change_password :
    (String → String) → Option (String × String) → Service → Answer Bool × Service
handle_change_password digest none s = ((write_error 400 "invalid request", none), s)
handle_change_password digest (some (current, new)) s =
    let done = change_password digest current new s in
    elim done.0 [
      | some e ↦ ((write_error 400 e, none), done.1)
      | none ↦ ((write_json 200 true, some cleared_cookie), done.1)
    ]
