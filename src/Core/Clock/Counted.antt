-- ===== src/Core/Clock/Counted.antt =====
-- Clocks of few events: `bump_past` where no counter is at its end.
use furcate_mesh.Prelude.{ℕ, suc, ◌≤◌, ◌<◌, ◌≡◌, ◌≢◌, Option, Ordering, arith}
use furcate_mesh.Core.Clock.{HybridLogicalClock, IsClock, u32_max, clock_cmp, later, bump_past, now}
use furcate_mesh.Core.Clock.Bump.{now-IsClock, bump_past-IsClock, bump_past_iff}

-- a clock whose counter counts no more than `n` events
pub record AtMost (n : ℕ) (c : HybridLogicalClock) : Type 0 where
  pub fits : IsClock c
  pub counted : c.counter ≤ n

pub AtMost-now : (n : ℕ) (t : Option ℕ) → AtMost n (now t)
unfolding now
AtMost-now n t = record { fits = now-IsClock t; counted = ground arith }

pub AtMost-suc : (n : ℕ) (c : HybridLogicalClock) → AtMost n c → AtMost (suc n) c
AtMost-suc n c h = record { fits = h.fits; counted = omega (arith, h.counted) }

pub AtMost-bump_past :
    (n : ℕ) (c d : HybridLogicalClock) → AtMost n c → AtMost n d → AtMost (suc n) (bump_past c d)
unfolding bump_past
AtMost-bump_past n c d h k = record {
  fits = bump_past-IsClock c d h.fits k.fits;
  counted = ground (arith, h.counted, k.counted);
}

later_counted :
    (n : ℕ) (c d : HybridLogicalClock)
    → n < u32_max
    → AtMost n c
    → AtMost n d
    → (later c d).counter < u32_max
unfolding later
later_counted n c d few h k = ground (arith, h.counted, k.counted)

-- `bump_past` goes strictly past both clocks while few events are counted
pub bump_past_lt :
    (n : ℕ) (c d : HybridLogicalClock)
    → n < u32_max
    → AtMost n c
    → AtMost n d
    → (clock_cmp c (bump_past c d) ≡ Ordering.lt) × (clock_cmp d (bump_past c d) ≡ Ordering.lt)
bump_past_lt n c d few h k = (bump_past_iff c d h.fits k.fits).1 (later_counted n c d few h k)

pub clock_cmp_trans :
    (a b c : HybridLogicalClock)
    → clock_cmp a b ≢ Ordering.gt
    → clock_cmp b c ≡ Ordering.lt
    → clock_cmp a c ≡ Ordering.lt
unfolding clock_cmp
clock_cmp_trans a b c h k = ground arith

pub clock_cmp_refl : (c : HybridLogicalClock) → clock_cmp c c ≢ Ordering.gt
unfolding clock_cmp
clock_cmp_refl c = ground arith
