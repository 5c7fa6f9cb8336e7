-- ===== src/Prelude/Results.antt =====
-- Go's pair of a value and an `error`: an error is its message.
use Prim.Native.String.{String}
use mathlib.Core.Path.{◌≡◌, refl}
use mathlib.Core.Logic.{◌⊎◌, inl, inr}
use mathlib.Core.Option.{Option, none, some}
use backupeer.Prelude.Text.{◌<>◌}

pub data Result {ℓ} (A : Type ℓ) : Type ℓ where
  ok : A → Result A
  err : String → Result A

pub Result-cases {ℓ} :
    {A : Type ℓ} (r : Result A) → ((a : A) × (r ≡ ok a)) ⊎ ((e : String) × (r ≡ err e))
Result-cases (ok a) = inl (a, refl)
Result-cases (err e) = inr (e, refl)

infixl 5 ◌>>=◌
abbrev pub ◌>>=◌ {ℓ κ} : {A : Type ℓ} {B : Type κ} → Result A → (A → Result B) → Result B
ok a >>= f = f a
err e >>= f = err e

-- `fmt.Errorf("...: %w", err)` on an error result, and on an error alone.
abbrev pub wrap {ℓ} : {A : Type ℓ} → String → Result A → Result A
wrap label (ok a) = ok a
wrap label (err e) = err (label <> e)

abbrev pub wrap_error : String → Option String → Option String
wrap_error label none = none
wrap_error label (some e) = some (label <> e)
