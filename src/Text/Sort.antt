-- ===== src/Text/Sort.antt =====
-- sort.Slice and sort.Strings by a text. Where two keys are equal, Go leaves their order open.
use addp.Common.{String, Bool, true, false, List, [], ◌∷◌, if◌then◌else◌}
use Prim.Native.Nat.{Ordering}
use Prim.Native.String.{compare}

-- a < b
abbrev pub less : String → String → Bool
less a b = elim (compare a b) [ Ordering.lt ↦ true | _ ↦ false ]

module _ {A : Type 0} (name : A → String) where
  unfoldable pub place : A → List A → List A
  place x [] = x ∷ []
  place x (y ∷ ys) =
      let rest = place x ys in if less (name y) (name x) then y ∷ rest else x ∷ y ∷ ys

  unfoldable pub sort_by : List A → List A
  unfolding place
  sort_by [] = []
  sort_by (x ∷ xs) = place x (sort_by xs)
