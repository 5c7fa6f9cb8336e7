-- ===== src/Auth/History.antt =====
-- A session is valid from the login that gave it out, for a day, until a logout or a new password.
use Prim.Native.String.{len}
use backupeer.Prelude.{
  ℕ, ◌+◌, ◌≤◌, ◌≡◌, ◌∙◌, refl, String, Bool, true, false, not, Option, none, some, List, [], ◌∷◌,
  ok, err, ◌&&◌, arith, ◌==◌, eq_iff, ltb, leb, map_get, map_get-map_set, map_get-map_delete,
  Option-cases, inl, inr, if◌then◌else◌,
}
use backupeer.Auth.{
  Service, Session, Request, new_service, session_life, login, validate, logout, change_password,
  cookie_token, handle_check,
}

-- One call of the service.
pub data Event : Type 0 where
  logged_in : (user password token : String) (now : ℕ) → Event
  validated : (token : String) (now : ℕ) → Event
  logged_out : (token : String) → Event
  changed_password : (current new : String) → Event

-- No call of the history is later than a time.
unfoldable pub IsBefore : ℕ → List Event → Type 0
IsBefore now [] = Unit
IsBefore now (Event.logged_in _ _ _ t ∷ es) = (t ≤ now) × IsBefore t es
IsBefore now (Event.validated _ t ∷ es) = (t ≤ now) × IsBefore t es
IsBefore now (_ ∷ es) = IsBefore now es

IsBefore-le : (t now : ℕ) (es : List Event) → t ≤ now → IsBefore t es → IsBefore now es
unfolding IsBefore
IsBefore-le t now [] h b = tt
IsBefore-le t now (Event.logged_in _ _ _ _ ∷ es) h (le, b) = (omega arith, b)
IsBefore-le t now (Event.validated _ _ ∷ es) h (le, b) = (omega arith, b)
IsBefore-le t now (Event.logged_out _ ∷ es) h b = IsBefore-le t now es h b
IsBefore-le t now (Event.changed_password _ _ ∷ es) h b = IsBefore-le t now es h b

abbrev is_alive : Option Session → ℕ → Bool
is_alive none now = false
is_alive (some session) now = leb now session.expires_at

alive_step :
    (token : String) (now : ℕ) (t : String) (n : ℕ) (s : Service)
    → n ≤ now
    → is_alive (map_get token (validate t n s).1.sessions) now
      ≡ is_alive (map_get token s.sessions) now
unfolding validate
alive_step token now t n s le =
    let gone = map_get-map_delete token t s.sessions in
    elim (Option-cases (map_get t s.sessions)) [
      | inl e ↦ ground (arith, e)
      | inr (session, e) ↦ ground (arith, e, gone, eq_iff t token)
    ]

module _ (digest : String → String) (admin_user admin_pass : String) where
  unfoldable pub step : Event → Service → Service
  step (Event.logged_in user password token now) s = (login digest user password token now s).1
  step (Event.validated token now) s = (validate token now s).1
  step (Event.logged_out token) s = logout token s
  step (Event.changed_password current new) s = (change_password digest current new s).1

  -- The service after a history, whose newest call stands first.
  unfoldable pub after : List Event → Service
  unfolding step new_service
  after [] = new_service digest admin_user admin_pass
  after (e ∷ es) = step e (after es)

  -- The digest of the password in force.
  unfoldable pub password_of : List Event → String
  password_of [] = digest admin_pass
  password_of (Event.changed_password current new ∷ es) =
      let old = password_of es in
      if digest current == old && not (ltb (len new) 6) then digest new else old
  password_of (_ ∷ es) = password_of es

  -- Whether a token is valid at a time, read off the history alone.
  unfoldable pub is_valid : List Event → String → ℕ → Bool
  unfolding password_of
  is_valid [] token now = false
  is_valid (Event.logged_in user password issued given_at ∷ es) token now =
      let before = is_valid es token now in
      if user == admin_user && digest password == password_of es && issued == token
      then leb now (given_at + session_life)
      else before
  is_valid (Event.validated _ _ ∷ es) token now = is_valid es token now
  is_valid (Event.logged_out gone ∷ es) token now =
      let before = is_valid es token now in if gone == token then false else before
  is_valid (Event.changed_password current new ∷ es) token now =
      let before = is_valid es token now in
      if digest current == password_of es && not (ltb (len new) 6) then false else before

  admin_user-after : (es : List Event) → (after es).admin_user ≡ admin_user
  unfolding after step new_service login validate logout change_password
  admin_user-after [] = refl
  admin_user-after (Event.logged_in u p t n ∷ es) =
      let ih = admin_user-after es in ground (arith, ih)
  admin_user-after (Event.validated t n ∷ es) = let ih = admin_user-after es in ground (arith, ih)
  admin_user-after (Event.logged_out t ∷ es) = admin_user-after es
  admin_user-after (Event.changed_password c n ∷ es) =
      let ih = admin_user-after es in ground (arith, ih)

  admin_pass-after : (es : List Event) → (after es).admin_pass ≡ password_of es
  unfolding after step new_service login validate logout change_password password_of
  admin_pass-after [] = refl
  admin_pass-after (Event.logged_in u p t n ∷ es) =
      let ih = admin_pass-after es in ground (arith, ih)
  admin_pass-after (Event.validated t n ∷ es) = let ih = admin_pass-after es in ground (arith, ih)
  admin_pass-after (Event.logged_out t ∷ es) = admin_pass-after es
  admin_pass-after (Event.changed_password c n ∷ es) =
      let ih = admin_pass-after es in ground (arith, ih)

  alive-after :
      (es : List Event) (token : String) (now : ℕ)
      → IsBefore now es
      → is_alive (map_get token (after es).sessions) now ≡ is_valid es token now
  unfolding after step new_service login logout change_password is_valid IsBefore
  alive-after [] token now b = refl
  alive-after (Event.logged_in u p t n ∷ es) token now (le, b) =
      let ih = alive-after es token now (IsBefore-le n now es le b) in
      let set =
        map_get-map_set token t (record { user = u; expires_at = n + session_life })
          (after es).sessions in
      rw (admin_user-after es, admin_pass-after es) (ground (arith, ih, set, eq_iff t token))
  alive-after (Event.validated t n ∷ es) token now (le, b) =
      alive_step token now t n (after es) le ∙ alive-after es token now (IsBefore-le n now es le b)
  alive-after (Event.logged_out t ∷ es) token now b =
      let ih = alive-after es token now b in
      let gone = map_get-map_delete token t (after es).sessions in
      ground (arith, ih, gone, eq_iff t token)
  alive-after (Event.changed_password c n ∷ es) token now b =
      let ih = alive-after es token now b in rw (admin_pass-after es) (ground (arith, ih))

  -- HandleCheck answers a session exactly when the cookie holds a token that is valid by the history,
  -- and not the empty one; the Authorization header does not count.
  pub handle_check-after :
      (es : List Event) (r : Request) (now : ℕ)
      → IsBefore now es
      → (elim (handle_check now r (after es)) [ ok _ ↦ true | err _ ↦ false ])
        ≡ (if cookie_token r == "" then false else is_valid es (cookie_token r) now)
  unfolding handle_check
  handle_check-after es r now b =
      let valid = alive-after es (cookie_token r) now b in ground (arith, valid)
