-- ===== src/Core/Clock.antt =====
-- `HybridLogicalClock` of crates/furcate-mesh-core/src/lib.rs. `wall_ms` is a u64 and `counter` a
-- u32; the derived order compares them in this order.
pub mod Bump
pub mod Counted
pub mod Causal
use furcate_mesh.Prelude.{
  ℕ, ◌+◌, ◌-◌, ◌^◌, ◌≤◌, ◌≡◌, Ordering, compare, Option, none, some, min, ltb, if◌then◌else◌,
}
use furcate_mesh.Prelude.Text.{then_with}

abbrev pub u32_max : ℕ
u32_max = 2 ^ 32 - 1

abbrev pub u64_max : ℕ
u64_max = 2 ^ 64 - 1

-- `u32::saturating_add`
abbrev pub saturating_add : ℕ → ℕ → ℕ
saturating_add a b = min (a + b) u32_max

pub record HybridLogicalClock : Type 0 where
  pub wall_ms : ℕ
  pub counter : ℕ

pub record IsClock (c : HybridLogicalClock) : Type 0 where
  pub wall_fits : c.wall_ms ≤ u64_max
  pub counter_fits : c.counter ≤ u32_max

unfoldable pub clock_cmp : HybridLogicalClock → HybridLogicalClock → Ordering
clock_cmp a b = then_with (compare a.wall_ms b.wall_ms) (compare a.counter b.counter)

-- The argument is the result of `duration_since(UNIX_EPOCH)` in milliseconds, `none` where the
-- wall clock stands before the epoch.
unfoldable pub now : Option ℕ → HybridLogicalClock
now none = record { wall_ms = 0; counter = 0 }
now (some ms) = record { wall_ms = if ltb u64_max ms then u64_max else ms; counter = 0 }

-- `if other > *self { *self = other; }`
unfoldable pub later : HybridLogicalClock → HybridLogicalClock → HybridLogicalClock
unfolding clock_cmp
later self other = elim (clock_cmp other self) [ Ordering.gt ↦ other | _ ↦ self ]

unfoldable pub bump_past : HybridLogicalClock → HybridLogicalClock → HybridLogicalClock
unfolding later
bump_past self other = let c = later self other in record c { counter = saturating_add c.counter 1 }
