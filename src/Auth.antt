-- ===== src/Auth.antt =====
-- internal/auth/service.go: the administrator's password and the sessions. A time is a number of
-- nanoseconds. The operations run one after the other.
pub mod History
pub mod Handler
use Prim.Native.String.{len}
use backupeer.Prelude.{
  ℕ, ◌+◌, String, Bool, true, false, not, Option, none, some, List, [], ◌∷◌, ◌&&◌, ◌||◌, Result, ok,
  err, ◌==◌, ltb, map_get, map_set, map_delete, if◌then◌else◌,
}

pub record Session : Type 0 where
  pub user : String
  pub expires_at : ℕ

-- `Service`; `secretKey` is stored and never read.
pub record Service : Type 0 where
  pub admin_user : String
  pub admin_pass : String
  pub sessions : List (String × Session)

-- 24 hours
abbrev pub session_life : ℕ
session_life = 86400000000000

-- `digest` is the hexadecimal SHA-256 of the standard library.
unfoldable pub new_service : (String → String) → String → String → Service
new_service digest admin_user admin_pass = record {
  admin_user = admin_user;
  admin_pass = digest admin_pass;
  sessions = [];
}

-- The conditions on which Login gives out a token.
abbrev pub accepts : (String → String) → String → String → Service → Bool
accepts digest user password s = user == s.admin_user && digest password == s.admin_pass

-- `token` is the hexadecimal form of 32 random bytes.
unfoldable pub login :
    (String → String) → String → String → String → ℕ → Service → Option String × Service
login digest user password token now s =
    if accepts digest user password s
    then (
      some token,
      record s {
        sessions =
            map_set token (record { user = user; expires_at = now + session_life }) s.sessions;
      },
    )
    else (none, s)

unfoldable pub validate : String → ℕ → Service → Bool × Service
validate token now s = elim (map_get token s.sessions) [
  | none ↦ (false, s)
  | some session ↦
      if ltb session.expires_at now
      then (false, record s { sessions = map_delete token s.sessions })
      else (true, s)
]

unfoldable pub logout : String → Service → Service
logout token s = record s { sessions = map_delete token s.sessions }

unfoldable pub change_password :
    (String → String) → String → String → Service → Option String × Service
change_password digest current new s =
    if not (digest current == s.admin_pass)
    then (some "current password is incorrect", s)
    else if ltb (len new) 6
    then (some "new password must be at least 6 characters", s)
    else (none, record s { admin_pass = digest new; sessions = [] })

-- What the handlers read of a request.
pub record Request : Type 0 where
  pub path : String
  pub cookie : Option String
  pub authorization : String

abbrev pub cookie_token : Request → String
cookie_token r = elim r.cookie [ none ↦ "" | some t ↦ t ]

abbrev pub request_token : Request → String
request_token r = if cookie_token r == "" then r.authorization else cookie_token r

abbrev pub is_public : Request → Bool
is_public r = r.path == "/api/auth/login" || (r.path == "/api/health" || r.path == "/")

-- Whether Middleware hands the request on.
unfoldable pub middleware : ℕ → Request → Service → Bool × Service
unfolding validate
middleware now r s = if is_public r then (true, s) else validate (request_token r) now s

-- HandleCheck answers the session, or an error.
unfoldable pub handle_check : ℕ → Request → Service → Result Session
handle_check now r s =
    if cookie_token r == ""
    then err "not authenticated"
    else elim (map_get (cookie_token r) s.sessions) [
      | none ↦ err "session expired"
      | some session ↦ if ltb session.expires_at now then err "session expired" else ok session
    ]
