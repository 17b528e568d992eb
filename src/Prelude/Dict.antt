-- ===== src/Prelude/Dict.antt =====
-- A Go map with text keys as an association list.
use Prim.Native.String.{String}
use text.Mathlib.Text.{◌==◌}
use text.Mathlib.TextEquality.{eq_iff}
use mathlib.Core.Path.{◌≡◌}
use mathlib.Core.List.{List, [], ◌∷◌}
use mathlib.Core.Option.{Option, none, some}
use native.Mathlib.Omega.{arith}
use free5gc_workspace.Prelude.Tests.{if◌then◌else◌}

module _ {V : Type 0} where
  unfoldable pub lookup : String → List (String × V) → Option V
  lookup k [] = none
  lookup k ((j, v) ∷ m) = if j == k then some v else lookup k m

  -- `delete(m, k)`
  unfoldable pub delete_key : String → List (String × V) → List (String × V)
  delete_key k [] = []
  delete_key k ((j, v) ∷ m) = let rest = delete_key k m in if j == k then rest else (j, v) ∷ rest

  pub lookup-delete_key :
      (j k : String) (m : List (String × V))
      → lookup j (delete_key k m) ≡ (if j == k then none else lookup j m)
  unfolding lookup delete_key
  lookup-delete_key j k [] = ground arith
  lookup-delete_key j k ((i, v) ∷ m) =
      ground (arith, eq_iff j k, eq_iff i k, eq_iff i j, lookup-delete_key j k m)
