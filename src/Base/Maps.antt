-- ===== src/Base/Maps.antt =====
-- Go's `map[string]V`. The program reads, assigns and deletes single keys and never ranges over
-- such a map, so a map is the function that reads it.
use Prim.Native.String.{String}
use mathlib.Core.Path.{◌≡◌}
use mathlib.Core.Logic.{◌≢◌}
use mathlib.Core.Option.{Option, none, some}
use native.Mathlib.Omega.{arith}
use text.Mathlib.Text.{◌==◌}
use text.Mathlib.TextEquality.{eq_iff}
use text.Mathlib.TextPositions.{eq_refl}
use package.ams_push_server.Base.Tests.{if◌then◌else◌}

abbrev pub Dict {ℓ} : Type ℓ → Type ℓ
Dict V = String → Option V

module _ {ℓ} {V : Type ℓ} where
  -- make(map[string]V)
  abbrev pub empty : Dict V
  empty k = none

  -- m[k] = v
  abbrev pub assign : String → V → Dict V → Dict V
  assign k v m j = if k == j then some v else m j

  -- delete(m, k)
  abbrev pub delete : String → Dict V → Dict V
  delete k m j = if k == j then none else m j

  pub assign_self : (k : String) (v : V) (m : Dict V) → assign k v m k ≡ some v
  assign_self k v m = rw (eq_refl k)

  pub assign_ne : (k j : String) (v : V) (m : Dict V) → k ≢ j → assign k v m j ≡ m j
  assign_ne k j v m h = ground (arith, eq_iff k j)

  pub delete_self : (k : String) (m : Dict V) → delete k m k ≡ none
  delete_self k m = rw (eq_refl k)

  pub delete_ne : (k j : String) (m : Dict V) → k ≢ j → delete k m j ≡ m j
  delete_ne k j m h = ground (arith, eq_iff k j)
