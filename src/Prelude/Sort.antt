-- ===== src/Prelude/Sort.antt =====
-- `slice::sort_by`: a stable sort by a comparison function. Where the comparison is a total
-- preorder, every stable sort gives this result.
pub mod Least
use mathlib.Core.Path.{◌≡◌, refl}
use mathlib.Core.Logic.{◌≢◌, ◌⊎◌, inl, inr}
use mathlib.Core.List.{List, [], ◌∷◌}
use native.Mathlib.Omega.{arith}
use Prim.Native.Nat.{Ordering}
use furcate_mesh.Prelude.Lists.{All, Member}

abbrev pub head_or {ℓ} : {A : Type ℓ} → A → List A → A
head_or d [] = d
head_or d (x ∷ xs) = x

module _ {ℓ} {A : Type ℓ} (cmp : A → A → Ordering) where
  -- `x` goes before the elements that it is not greater than
  insert_by : A → List A → List A
  insert_by x [] = x ∷ []
  insert_by x (y ∷ ys) = elim (cmp x y) [ Ordering.gt ↦ y ∷ insert_by x ys | _ ↦ x ∷ y ∷ ys ]

  unfoldable pub sort_by : List A → List A
  unfolding insert_by
  sort_by [] = []
  sort_by (x ∷ xs) = insert_by x (sort_by xs)
