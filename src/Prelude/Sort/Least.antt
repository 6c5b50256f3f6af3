-- ===== src/Prelude/Sort/Least.antt =====
-- The first element of a sorted list is the least one: what `sort_by` followed by `[0]` picks.
use Prim.Native.Nat.{Ordering}
use mathlib.Core.Path.{◌≡◌, refl}
use mathlib.Core.Logic.{◌≢◌, ◌⊎◌, inl, inr}
use mathlib.Core.List.{List, [], ◌∷◌}
use native.Mathlib.Omega.{arith}
use furcate_mesh.Prelude.Lists.{All, Member, All-Member}
use furcate_mesh.Prelude.Sort.{insert_by, sort_by, head_or}

cases : (o : Ordering) → (o ≡ Ordering.gt) ⊎ ((o ≡ Ordering.lt) ⊎ (o ≡ Ordering.eq))
cases Ordering.lt = inr (inl refl)
cases Ordering.eq = inr (inr refl)
cases Ordering.gt = inl refl

module _ {A : Type 0} (cmp : A → A → Ordering) where
  -- the one of two that comes first
  pick : A → A → A
  pick x h = elim (cmp x h) [ Ordering.gt ↦ h | _ ↦ x ]

  least : A → List A → A
  least x [] = x
  least x (y ∷ ys) = pick x (least y ys)

  head-insert_by : (d x : A) (s : List A) → head_or d (insert_by cmp x s) ≡ pick x (head_or x s)
  unfolding insert_by pick
  head-insert_by d x [] = ground arith
  head-insert_by d x (h ∷ t) = ground arith

  head-sort_by : (d x : A) (xs : List A) → head_or d (sort_by cmp (x ∷ xs)) ≡ least x xs
  unfolding sort_by least
  head-sort_by d x [] = refl
  head-sort_by d x (y ∷ ys) = cc (head-insert_by d x (sort_by cmp (y ∷ ys)), head-sort_by x y ys)

  pub record IsLeast (h : A) (xs : List A) : Type 0 where
    pub belongs : Member h xs
    pub first : All (λ c. cmp h c ≢ Ordering.gt) xs

  module _ (N : A → Type 0) (reflexive : (x : A) → N x → cmp x x ≢ Ordering.gt)
      (total : (x y : A) → N x → N y → cmp x y ≡ Ordering.gt → cmp y x ≢ Ordering.gt)
      (trans : (x y z : A)
        → N x
        → N y
        → N z
        → cmp x y ≢ Ordering.gt
        → cmp y z ≢ Ordering.gt
        → cmp x z ≢ Ordering.gt) where
    below-All :
        (x h : A) (xs : List A)
        → N x
        → N h
        → All N xs
        → cmp x h ≢ Ordering.gt
        → All (λ c. cmp h c ≢ Ordering.gt) xs
        → All (λ c. cmp x c ≢ Ordering.gt) xs
    below-All x h [] nx nh ns le hs = tt
    below-All x h (c ∷ cs) nx nh (nc, ns) le (hc, hs) =
        (trans x h c nx nh nc le hc, below-All x h cs nx nh ns le hs)

    IsLeast-pick :
        (x h : A) (xs : List A) → All N (x ∷ xs) → IsLeast h xs → IsLeast (pick x h) (x ∷ xs)
    unfolding pick
    IsLeast-pick x h xs (nx, ns) l =
        let nh = All-Member N h xs ns l.belongs in
        elim (cases (cmp x h)) [
          | inl e ↦
              rw (e, pick)
                (record { belongs = inr l.belongs; first = (total x h nx nh e, l.first) })
          | inr (inl e) ↦
              rw (e, pick)
                (record {
                  belongs = inl refl;
                  first = (reflexive x nx, below-All x h xs nx nh ns (ground arith) l.first);
                })
          | inr (inr e) ↦
              rw (e, pick)
                (record {
                  belongs = inl refl;
                  first = (reflexive x nx, below-All x h xs nx nh ns (ground arith) l.first);
                })
        ]

    IsLeast-least : (x : A) (xs : List A) → All N (x ∷ xs) → IsLeast (least x xs) (x ∷ xs)
    unfolding least
    IsLeast-least x [] (nx, _) = record { belongs = inl refl; first = (reflexive x nx, tt) }
    IsLeast-least x (y ∷ ys) (nx, ns) =
        IsLeast-pick x (least y ys) (y ∷ ys) (nx, ns) (IsLeast-least y ys ns)

    -- Under a total preorder the first element after sorting belongs to the list and no element
    -- comes before it.
    pub IsLeast-sort_by :
        (x : A) (xs : List A) → All N (x ∷ xs) → IsLeast (head_or x (sort_by cmp (x ∷ xs))) (x ∷ xs)
    IsLeast-sort_by x xs ns = rw (head-sort_by x x xs) (IsLeast-least x xs ns)
