-- ===== src/Prelude/Dict.antt =====
-- `std::collections::HashMap` with the calls that the code makes: `get`, `insert`, and
-- `entry(k).or_insert_with(d)` followed by a change of the entry. The list stands in the order in
-- which the map happens to be iterated; theorems about iteration hold for every order.
pub mod Keys
use furcate_mesh.Prelude.{
  ◌≡◌, refl, Bool, true, false, Option, none, some, List, [], ◌∷◌, arith, All, Bool-cases, inl, inr,
  if◌then◌else◌,
}
use furcate_mesh.Prelude.Equality.{Eq}

abbrev pub or_default {ℓ} : {V : Type ℓ} → V → Option V → V
or_default d none = d
or_default d (some v) = v

module _ {ℓ κ} {K : Type ℓ} {V : Type κ} ⦃e : Eq K⦄ where
  unfoldable pub get : K → List (K × V) → Option V
  get k [] = none
  get k ((j, v) ∷ m) = if e.same j k then some v else get k m

  unfoldable pub insert : K → V → List (K × V) → List (K × V)
  insert k v [] = (k, v) ∷ []
  insert k v ((j, w) ∷ m) = if e.same j k then (j, v) ∷ m else (j, w) ∷ insert k v m

  -- `f(entry(k).or_insert_with(d))`
  unfoldable pub upsert : K → V → (V → V) → List (K × V) → List (K × V)
  upsert k d f [] = (k, f d) ∷ []
  upsert k d f ((j, w) ∷ m) = if e.same j k then (j, f w) ∷ m else (j, w) ∷ upsert k d f m

  pub get-insert :
      (k j : K) (v : V) (m : List (K × V))
      → get j (insert k v m) ≡ (if e.same k j then some v else get j m)
  unfolding get insert
  get-insert k j v [] = refl
  get-insert k j v ((i, w) ∷ m) =
      ground (arith, e.same_iff k j, e.same_iff i k, e.same_iff i j, get-insert k j v m)

  pub get-upsert :
      (k j : K) (d : V) (f : V → V) (m : List (K × V))
      → get j (upsert k d f m) ≡ (if e.same k j then some (f (or_default d (get k m))) else get j m)
  unfolding get upsert
  get-upsert k j d f [] = refl
  get-upsert k j d f ((i, w) ∷ m) =
      ground (arith, e.same_iff k j, e.same_iff i k, e.same_iff i j, get-upsert k j d f m)

  -- `HashMap::remove`, and the removal of a file from a directory
  unfoldable pub remove : K → List (K × V) → List (K × V)
  remove k [] = []
  remove k ((j, v) ∷ m) = let rest = remove k m in if e.same j k then rest else (j, v) ∷ rest

  pub get-remove :
      (k j : K) (m : List (K × V)) → get j (remove k m) ≡ (if e.same k j then none else get j m)
  unfolding get remove
  get-remove k j [] = ground arith
  get-remove k j ((i, v) ∷ m) =
      ground (arith, e.same_iff k j, e.same_iff i k, e.same_iff i j, get-remove k j m)

  pub ruleset dict_laws = (get-insert, get-remove, get-upsert)
