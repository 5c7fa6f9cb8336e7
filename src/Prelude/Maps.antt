-- ===== src/Prelude/Maps.antt =====
-- A Go map as an association list.
use mathlib.Core.Path.{◌≡◌}
use mathlib.Core.Option.{Option, none, some}
use mathlib.Core.List.{List, [], ◌∷◌}
use Prim.Native.String.{String}
use text.Mathlib.TextEquality.{eq_iff}
use native.Mathlib.Omega.{arith}
use backupeer.Prelude.Tests.{if◌then◌else◌}
use backupeer.Prelude.Text.{◌==◌}

module _ {ℓ} {A : Type ℓ} where
  -- `v, ok := m[k]`
  abbrev pub map_get : String → List (String × A) → Option A
  map_get k [] = none
  map_get k ((j, a) ∷ m) = if j == k then some a else map_get k m

  -- `delete(m, k)`
  abbrev pub map_delete : String → List (String × A) → List (String × A)
  map_delete k [] = []
  map_delete k ((j, a) ∷ m) = let rest = map_delete k m in if j == k then rest else (j, a) ∷ rest

  -- `m[k] = a`
  abbrev pub map_set : String → A → List (String × A) → List (String × A)
  map_set k a m = (k, a) ∷ map_delete k m

  pub map_get-map_delete :
      (k j : String) (m : List (String × A))
      → map_get k (map_delete j m) ≡ (if j == k then none else map_get k m)
  map_get-map_delete k j [] = ground (arith, eq_iff j k)
  map_get-map_delete k j ((i, a) ∷ m) =
      let ih = map_get-map_delete k j m in ground (arith, ih, eq_iff i j, eq_iff i k, eq_iff j k)

  pub map_get-map_set :
      (k j : String) (a : A) (m : List (String × A))
      → map_get k (map_set j a m) ≡ (if j == k then some a else map_get k m)
  map_get-map_set k j a m = ground (arith, map_get-map_delete k j m, eq_iff j k)
