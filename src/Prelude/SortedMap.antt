-- ===== src/Prelude/SortedMap.antt =====
-- `std::collections::BTreeMap`: a list in the strictly increasing order of its keys, which is the
-- order of its iterator.
pub mod Entries
use Prim.Native.Nat.{ℕ, Ordering}
use mathlib.Core.Path.{◌≡◌, refl, ap}
use mathlib.Core.Option.{Option, none, some}
use mathlib.Core.List.{List, [], ◌∷◌}
use native.Mathlib.Omega.{arith}
use furcate_mesh.Prelude.Lists.{All}
use furcate_mesh.Prelude.Text.{then_with, bytes_cmp}
use furcate_mesh.Prelude.Text.Order.{
  reverse, bytes_cmp_refl, eq_of_bytes_cmp, bytes_cmp_swap, bytes_cmp_lt_trans,
}

-- `Ord`: a comparison that is a strict total order.
pub record Ord (K : Type 0) : Type 0 where
  pub cmp : K → K → Ordering
  pub cmp_refl : (k : K) → cmp k k ≡ Ordering.eq
  pub eq_of_cmp : (j k : K) → cmp j k ≡ Ordering.eq → j ≡ k
  pub cmp_swap : (j k : K) → cmp k j ≡ reverse (cmp j k)
  pub lt_trans : (i j k : K) → cmp i j ≡ Ordering.lt → cmp j k ≡ Ordering.lt → cmp i k ≡ Ordering.lt

instance abbrev pub text_ord : Ord (List ℕ)
text_ord = record {
  cmp = bytes_cmp;
  cmp_refl = bytes_cmp_refl;
  eq_of_cmp = eq_of_bytes_cmp;
  cmp_swap = bytes_cmp_swap;
  lt_trans = bytes_cmp_lt_trans;
}

-- the derived order of pairs
module _ {J K : Type 0} (a : Ord J) (b : Ord K) where
  abbrev pub pair_cmp : J × K → J × K → Ordering
  pair_cmp p q = then_with (a.cmp p.0 q.0) (b.cmp p.1 q.1)

  pub pair_cmp_refl : (p : J × K) → pair_cmp p p ≡ Ordering.eq
  pair_cmp_refl (j, k) = ground (arith, a.cmp_refl j, b.cmp_refl k)

  pub eq_of_pair_cmp : (p q : J × K) → pair_cmp p q ≡ Ordering.eq → p ≡ q
  eq_of_pair_cmp (i, k) (j, l) h = ground (arith, a.eq_of_cmp i j, b.eq_of_cmp k l)

  pub pair_cmp_swap : (p q : J × K) → pair_cmp q p ≡ reverse (pair_cmp p q)
  pair_cmp_swap (i, k) (j, l) = ground (arith, a.cmp_swap i j, b.cmp_swap k l)

  pub pair_cmp_trans :
      (p q r : J × K)
      → pair_cmp p q ≡ Ordering.lt
      → pair_cmp q r ≡ Ordering.lt
      → pair_cmp p r ≡ Ordering.lt
  pair_cmp_trans (i, k) (j, l) (m, n) h g =
      ground
        (arith, a.eq_of_cmp i j, a.eq_of_cmp j m, a.lt_trans i j m, a.cmp_refl i, b.lt_trans k l n)

  abbrev pub pair_ord : Ord (J × K)
  pair_ord = record {
    cmp = pair_cmp;
    cmp_refl = pair_cmp_refl;
    eq_of_cmp = eq_of_pair_cmp;
    cmp_swap = pair_cmp_swap;
    lt_trans = pair_cmp_trans;
  }

module _ {K V : Type 0} ⦃o : Ord K⦄ where
  unfoldable pub lookup : K → List (K × V) → Option V
  lookup k [] = none
  lookup k ((j, v) ∷ m) = elim (o.cmp k j) [ Ordering.eq ↦ some v | _ ↦ lookup k m ]

  -- `BTreeMap::insert`, which keeps the key of an entry that is there
  unfoldable pub insert : K → V → List (K × V) → List (K × V)
  insert k v [] = (k, v) ∷ []
  insert k v ((j, w) ∷ m) = elim (o.cmp k j) [
    | Ordering.lt ↦ (k, v) ∷ (j, w) ∷ m
    | Ordering.eq ↦ (j, v) ∷ m
    | Ordering.gt ↦ (j, w) ∷ insert k v m
  ]

  -- whether a key comes before an entry
  abbrev pub Before : K → K × V → Type 0
  Before k e = o.cmp k e.0 ≡ Ordering.lt

  abbrev pub IsSorted : List (K × V) → Type 0
  IsSorted [] = Unit
  IsSorted (e ∷ m) = All (Before e.0) m × IsSorted m
