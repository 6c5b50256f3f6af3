-- ===== src/Core/Clock/Bump.antt =====
-- `bump_past` against the order of clocks: strictly past both clocks, except at the counter's end.
use furcate_mesh.Prelude.{ℕ, ◌<◌, ◌≡◌, ◌≢◌, Ordering, arith, ◌↔◌, Option}
use furcate_mesh.Core.Clock.{HybridLogicalClock, IsClock, u32_max, clock_cmp, later, bump_past, now}

-- The clock that is read from the system fits its machine integers.
pub now-IsClock : (t : Option ℕ) → IsClock (now t)
unfolding now
now-IsClock t = ground arith

pub bump_past-IsClock :
    (self other : HybridLogicalClock)
    → IsClock self
    → IsClock other
    → IsClock (bump_past self other)
unfolding bump_past
bump_past-IsClock self other u v = ground arith

-- For valid clocks, `bump_past` gives a clock after both its arguments exactly when the counter of
-- the later one is below `u32::MAX`.
pub bump_past_iff :
    (self other : HybridLogicalClock)
    → IsClock self
    → IsClock other
    → ((clock_cmp self (bump_past self other) ≡ Ordering.lt)
        × (clock_cmp other (bump_past self other) ≡ Ordering.lt))
      ↔ ((later self other).counter < u32_max)
unfolding bump_past
bump_past_iff self other u v = ground arith

-- For valid clocks, `bump_past` never gives a clock before either of its arguments.
pub bump_past_mono :
    (self other : HybridLogicalClock)
    → IsClock self
    → IsClock other
    → (clock_cmp self (bump_past self other) ≢ Ordering.gt)
      × (clock_cmp other (bump_past self other) ≢ Ordering.gt)
      × IsClock (bump_past self other)
unfolding bump_past
bump_past_mono self other u v = ground arith
