-- ===== src/Base/Map.antt =====
-- A Go map with string keys, as the list of its entries, latest first.
use Prim.Native.String.{String}
use mathlib.Core.Option.{Option, none, some}
use mathlib.Core.List.{List, [], ◌∷◌}
use text.Mathlib.Text.{◌==◌}
use package.heimdall.Base.Tests.{if◌then◌else◌}

module _ {ℓ} {V : Type ℓ} where
  -- `m[k]`
  abbrev pub get : String → List (String × V) → Option V
  get k [] = none
  get k ((j, v) ∷ m) = if j == k then some v else get k m

  -- `m[k] = v`
  abbrev pub put : String → V → List (String × V) → List (String × V)
  put k v m = (k, v) ∷ m
