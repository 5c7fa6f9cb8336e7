-- ===== src/Http.antt =====
-- What the HTTP handlers of the packages answer (internal/httputil/response.go): a status, and the
-- error or the value that is written as JSON.
use backupeer.Prelude.{ℕ, String, Result, ok, err}

pub record Response {ℓ} (A : Type ℓ) : Type ℓ where
  pub status : ℕ
  pub body : Result A

-- `WriteError`
abbrev pub write_error {ℓ} : {A : Type ℓ} → ℕ → String → Response A
write_error code message = record { status = code; body = err message }

-- `WriteJSON`
abbrev pub write_json {ℓ} : {A : Type ℓ} → ℕ → A → Response A
write_json code value = record { status = code; body = ok value }
