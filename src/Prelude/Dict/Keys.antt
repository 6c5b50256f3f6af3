-- ===== src/Prelude/Dict/Keys.antt =====
-- A map holds each key once, so that `get` and membership of an entry say the same.
use furcate_mesh.Prelude.{
  ◌≡◌, refl, false, some, none, List, [], ◌∷◌, arith, Member, inl, inr, Bool-cases,
}
use furcate_mesh.Prelude.Equality.{Eq}
use furcate_mesh.Prelude.Dict.{get, upsert}

module _ {K V : Type 0} ⦃e : Eq K⦄ where
  abbrev pub Absent : K → List (K × V) → Type 0
  Absent k m = get k m ≡ none

  abbrev pub Distinct : List (K × V) → Type 0
  Distinct [] = Unit
  Distinct ((k, v) ∷ m) = Absent k m × Distinct m

  pub Absent-upsert :
      (j k : K) (d : V) (f : V → V) (m : List (K × V))
      → e.same k j ≡ false
      → Absent j m
      → Absent j (upsert k d f m)
  unfolding get upsert
  Absent-upsert j k d f [] h a = ground arith
  Absent-upsert j k d f ((i, w) ∷ m) h a =
      ground (arith, Absent-upsert j k d f m, e.same_iff i k, e.same_iff i j, e.same_iff k j)

  pub Distinct-upsert :
      (k : K) (d : V) (f : V → V) (m : List (K × V)) → Distinct m → Distinct (upsert k d f m)
  unfolding upsert
  Distinct-upsert k d f [] h = (unfold get in refl, tt)
  Distinct-upsert k d f ((i, w) ∷ m) (a, h) = elim (Bool-cases (e.same i k)) [
    | inl q ↦ rw q (a, h)
    | inr q ↦ rw q (
      Absent-upsert i k d f m (ground (arith, e.same_iff k i, e.same_iff i k)) a,
      Distinct-upsert k d f m h,
    )
  ]

  pub get_of_Member :
      (k : K) (v : V) (m : List (K × V)) → Distinct m → Member (k, v) m → get k m ≡ some v
  unfolding get
  get_of_Member k v [] h n = absurd n
  get_of_Member k v ((i, w) ∷ m) (a, h) (inl q) = ground (arith, e.same_iff i k)
  get_of_Member k v ((i, w) ∷ m) (a, h) (inr n) =
      ground (arith, get_of_Member k v m h n, e.same_iff i k)

  pub Member_of_get : (k : K) (v : V) (m : List (K × V)) → get k m ≡ some v → Member (k, v) m
  unfolding get
  Member_of_get k v [] h = cc
  Member_of_get k v ((i, w) ∷ m) h = elim (Bool-cases (e.same i k)) [
    | inl q ↦ inl (ground (arith, e.same_iff i k))
    | inr q ↦ inr (Member_of_get k v m (ground arith))
  ]
