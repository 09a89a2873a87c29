-- ===== src/Common/Dict.antt =====
-- Go's `map[string]V` as an association list, read through `lookup`. A `range` visits the keys in
-- no fixed order, so loops over a map go through the list as it stands.
use addp.Common.Tests.{if◌then◌else◌}
use Prim.Native.String.{String}
use mathlib.Core.Path.{◌≡◌, refl}
use mathlib.Core.Option
use mathlib.Core.Option.{Option, none, some}
use mathlib.Core.List.{List, [], ◌∷◌}
use native.Mathlib.Omega.{arith}
use text.Mathlib.Text.{◌==◌ as str_eq}
use text.Mathlib.TextEquality.{eq_iff}

abbrev pub Dict {ℓ} : Type ℓ → Type ℓ
Dict V = List (String × V)

module _ {ℓ} {V : Type ℓ} where
  -- m[name]
  unfoldable pub lookup : String → Dict V → Option V
  lookup name [] = none
  lookup name ((field, old) ∷ rest) = if str_eq field name then some old else lookup name rest

  -- m[name] = new
  unfoldable pub insert : String → V → Dict V → Dict V
  insert name new [] = (name, new) ∷ []
  insert name new ((field, old) ∷ rest) =
      if str_eq field name then (name, new) ∷ rest else (field, old) ∷ insert name new rest

  pub lookup-insert :
      (name other : String) (new : V) (m : Dict V)
      → lookup other (insert name new m) ≡ (if str_eq name other then some new else lookup other m)
  unfolding lookup insert
  lookup-insert name other new [] = refl
  lookup-insert name other new ((field, old) ∷ rest) = ground (
    arith,
    eq_iff name other,
    eq_iff field name,
    eq_iff field other,
    lookup-insert name other new rest,
  )

-- for k, v := range m { out[k] = f(k, v) }
unfoldable pub map_entries {ℓ} : {V : Type ℓ} → (String → V → V) → Dict V → Dict V
unfolding insert
map_entries f [] = []
map_entries f ((k, v) ∷ m) = insert k (f k v) (map_entries f m)

pub lookup-map_entries {ℓ} :
    {V : Type ℓ} (f : String → V → V) (j : String) (m : Dict V)
    → lookup j (map_entries f m) ≡ Option.map (f j) (lookup j m)
unfolding map_entries lookup
lookup-map_entries f j [] = refl
lookup-map_entries f j ((k, v) ∷ m) =
    rw lookup-insert (ground (arith, eq_iff k j, lookup-map_entries f j m))
