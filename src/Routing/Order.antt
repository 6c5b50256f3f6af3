-- ===== src/Routing/Order.antt =====
-- The comparison of candidates in `route`: a total preorder where no load is NaN.
use furcate_mesh.Prelude.{◌≡◌, ◌≢◌, Ordering, none, some, arith, refl, ◌⊎◌, inl, inr, Option-cases}
use furcate_mesh.Prelude.Text.{bytes_cmp}
use furcate_mesh.Prelude.Text.Order.{
  bytes_cmp_refl, bytes_cmp_swap, bytes_cmp_trans, eq_of_bytes_cmp,
}
use furcate_mesh.Core.PeerId.{PeerId}
use furcate_mesh.Core.Float.{Float, IsIeee, IsNumber}
use furcate_mesh.Routing.{candidate_cmp}

-- One candidate does not come after another: it has less load, or as much and an id that is not
-- greater in the order of its bytes.
abbrev pub NotAfter : {F : Type 0} → Float F → PeerId × F → PeerId × F → Type 0
NotAfter f a b =
    (f.partial_cmp a.1 b.1 ≡ some Ordering.lt)
    ⊎ ((f.partial_cmp a.1 b.1 ≡ some Ordering.eq) × (bytes_cmp a.0.key b.0.key ≢ Ordering.gt))

pub candidate_cmp-of_NotAfter :
    {F : Type 0} (f : Float F) (a b : PeerId × F)
    → NotAfter f a b
    → candidate_cmp f a b ≢ Ordering.gt
unfolding candidate_cmp
candidate_cmp-of_NotAfter f a b (inl h) = ground (arith, h)
candidate_cmp-of_NotAfter f a b (inr (h, g)) = ground (arith, h, g)

module _ {F : Type 0} {f : Float F} (laws : IsIeee f) where
  -- what the laws say of two numbers, in one fact for the case splits below
  pub candidate_cmp_refl : (a : PeerId × F) → IsNumber f a.1 → candidate_cmp f a a ≢ Ordering.gt
  unfolding candidate_cmp
  candidate_cmp_refl a n = ground (arith, bytes_cmp_refl a.0.key)

  pub candidate_cmp_total :
      (a b : PeerId × F)
      → IsNumber f a.1
      → IsNumber f b.1
      → candidate_cmp f a b ≡ Ordering.gt
      → candidate_cmp f b a ≢ Ordering.gt
  unfolding candidate_cmp
  candidate_cmp_total a b n m h = ground (
    arith,
    bytes_cmp_swap a.0.key b.0.key,
    laws.compares a.1 b.1 n m,
    laws.antisymmetric a.1 b.1 Ordering.lt,
    laws.antisymmetric a.1 b.1 Ordering.eq,
    laws.antisymmetric a.1 b.1 Ordering.gt,
  )

  pub candidate_cmp_trans :
      (a b c : PeerId × F)
      → IsNumber f a.1
      → IsNumber f b.1
      → IsNumber f c.1
      → candidate_cmp f a b ≢ Ordering.gt
      → candidate_cmp f b c ≢ Ordering.gt
      → candidate_cmp f a c ≢ Ordering.gt
  unfolding candidate_cmp
  candidate_cmp_trans a b c n m k h g = ground (
    arith,
    bytes_cmp_trans a.0.key b.0.key c.0.key,
    laws.compares a.1 b.1 n m,
    laws.compares b.1 c.1 m k,
    laws.lt_trans a.1 b.1 c.1,
    laws.eq_left a.1 b.1 c.1,
    laws.eq_left c.1 b.1 a.1,
    laws.antisymmetric b.1 c.1 Ordering.eq,
    laws.antisymmetric a.1 b.1 Ordering.lt,
    laws.antisymmetric c.1 a.1 Ordering.gt,
  )

  pub NotAfter-of_candidate_cmp :
      (a b : PeerId × F)
      → IsNumber f a.1
      → IsNumber f b.1
      → candidate_cmp f a b ≢ Ordering.gt
      → NotAfter f a b
  unfolding candidate_cmp
  NotAfter-of_candidate_cmp a b n m h = elim (Option-cases (f.partial_cmp a.1 b.1)) [
    | inl e ↦ absurd (laws.compares a.1 b.1 n m e)
    | inr (Ordering.lt, e) ↦ inl e
    | inr (Ordering.eq, e) ↦ inr (e, rw e at h)
    | inr (Ordering.gt, e) ↦ absurd (h (rw e refl))
  ]

  -- Two candidates neither of which comes after the other have the same peer.
  pub peer_eq_of_candidate_cmp :
      (a b : PeerId × F)
      → IsNumber f a.1
      → IsNumber f b.1
      → candidate_cmp f a b ≢ Ordering.gt
      → candidate_cmp f b a ≢ Ordering.gt
      → a.0 ≡ b.0
  unfolding candidate_cmp
  peer_eq_of_candidate_cmp a b n m h g = ground (
    arith,
    bytes_cmp_swap a.0.key b.0.key,
    eq_of_bytes_cmp a.0.key b.0.key,
    laws.compares a.1 b.1 n m,
    laws.antisymmetric a.1 b.1 Ordering.lt,
    laws.antisymmetric a.1 b.1 Ordering.eq,
    laws.antisymmetric a.1 b.1 Ordering.gt,
  )

  -- With three peers in ascending order of their ids, of which the middle one has a NaN load and
  -- the first a greater load than the last, the comparison function of the sort has a cycle.
  pub candidate_cmp_nan_cycle :
      (p q r : PeerId) (x y nan : F)
      → bytes_cmp p.key q.key ≡ Ordering.lt
      → bytes_cmp q.key r.key ≡ Ordering.lt
      → f.partial_cmp nan nan ≡ none
      → f.partial_cmp x y ≡ some Ordering.gt
      → (candidate_cmp f (p, x) (q, nan) ≡ Ordering.lt)
        × (candidate_cmp f (q, nan) (r, y) ≡ Ordering.lt)
        × (candidate_cmp f (r, y) (p, x) ≡ Ordering.lt)
  unfolding candidate_cmp
  candidate_cmp_nan_cycle p q r x y nan hp hq hn hx = ground (
    arith,
    laws.nan_compares nan y hn,
    laws.nan_compares nan x hn,
    laws.antisymmetric x nan Ordering.lt,
    laws.antisymmetric x nan Ordering.eq,
    laws.antisymmetric x nan Ordering.gt,
    laws.antisymmetric x y Ordering.gt hx,
  )
