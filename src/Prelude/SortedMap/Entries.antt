-- ===== src/Prelude/SortedMap/Entries.antt =====
-- What a sorted map holds after an insertion, and its entries as its lookups.
use Prim.Native.Nat.{Ordering}
use mathlib.Core.Path.{◌≡◌, refl}
use mathlib.Core.Logic.{◌↔◌, ◌⊎◌, inl, inr}
use mathlib.Core.Option.{some}
use mathlib.Core.List.{List, [], ◌∷◌}
use native.Mathlib.Omega.{arith}
use furcate_mesh.Prelude.Lists.{All, Member, All-Member}
use furcate_mesh.Prelude.SortedMap.{Ord, lookup, insert, Before, IsSorted}

cases : (o : Ordering) → (o ≡ Ordering.lt) ⊎ ((o ≡ Ordering.eq) ⊎ (o ≡ Ordering.gt))
cases Ordering.lt = inl refl
cases Ordering.eq = inr (inl refl)
cases Ordering.gt = inr (inr refl)

module _ {K V : Type 0} ⦃o : Ord K⦄ where
  All-insert :
      (P : K × V → Type 0) (k : K) (v : V) (m : List (K × V))
      → P (k, v)
      → ((j : K) → o.cmp k j ≡ Ordering.eq → P (j, v))
      → All P m
      → All P (insert k v m)
  unfolding insert
  All-insert P k v [] p q h = (p, tt)
  All-insert P k v ((j, w) ∷ m) p q (h, hs) = elim (cases (o.cmp k j)) [
    | inl e ↦ rw (e, insert) (p, (h, hs))
    | inr (inl e) ↦ rw (e, insert) (q j e, hs)
    | inr (inr e) ↦ rw (e, insert) (h, All-insert P k v m p q hs)
  ]

  Before-trans :
      (j k : K) (m : List (K × V)) → o.cmp j k ≡ Ordering.lt → All (Before k) m → All (Before j) m
  Before-trans j k [] h hs = tt
  Before-trans j k ((i, w) ∷ m) h (b, hs) = (o.lt_trans j k i h b, Before-trans j k m h hs)

  pub insert-IsSorted : (k : K) (v : V) (m : List (K × V)) → IsSorted m → IsSorted (insert k v m)
  unfolding insert
  insert-IsSorted k v [] h = (tt, tt)
  insert-IsSorted k v ((j, w) ∷ m) (b, h) = elim (cases (o.cmp k j)) [
    | inl e ↦ rw (e, insert) ((e, Before-trans k j m e b), (b, h))
    | inr (inl e) ↦ rw (e, insert) (b, h)
    | inr (inr e) ↦
        rw (e, insert)
          (
            All-insert (Before j) k v m (ground (arith, o.cmp_swap k j, e))
                (λ i q. ground (arith, o.cmp_swap k j, e, o.eq_of_cmp k i q)) b,
            insert-IsSorted k v m h,
          )
  ]

  pub lookup-insert :
      (k j : K) (v : V) (m : List (K × V))
      → lookup j (insert k v m) ≡ (elim (o.cmp j k) [ Ordering.eq ↦ some v | _ ↦ lookup j m ])
  unfolding lookup insert
  lookup-insert k j v [] = refl
  lookup-insert k j v ((i, w) ∷ m) = ground (
    arith,
    lookup-insert k j v m,
    o.cmp_swap k i,
    o.eq_of_cmp k i,
    o.eq_of_cmp j k,
    o.eq_of_cmp j i,
    o.cmp_refl j,
    o.cmp_refl k,
  )

  Member_of_lookup : (k : K) (v : V) (m : List (K × V)) → lookup k m ≡ some v → Member (k, v) m
  unfolding lookup
  Member_of_lookup k v [] h = cc
  Member_of_lookup k v ((j, w) ∷ m) h = ground (arith, o.eq_of_cmp k j, Member_of_lookup k v m)

  lookup_of_Member :
      (k : K) (v : V) (m : List (K × V)) → IsSorted m → Member (k, v) m → lookup k m ≡ some v
  unfolding lookup
  lookup_of_Member k v [] s h = absurd h
  lookup_of_Member k v ((j, w) ∷ m) s (inl e) = ground (arith, o.cmp_refl k)
  lookup_of_Member k v ((j, w) ∷ m) (b, s) (inr n) =
      let lt = All-Member (Before j) (k, v) m b n in
      ground (arith, o.cmp_swap j k, lookup_of_Member k v m s n)

  -- In a sorted map the entries are the lookups.
  pub Member_iff_lookup :
      (k : K) (v : V) (m : List (K × V)) → IsSorted m → (Member (k, v) m) ↔ (lookup k m ≡ some v)
  Member_iff_lookup k v m s = (lookup_of_Member k v m s, Member_of_lookup k v m)
