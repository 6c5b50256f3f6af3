-- ===== src/Core/Clock/Causal.antt =====
-- The use that the documentation of `bump_past` has for it: peers that bump their clocks before each
-- of their events, past the system clock or past an event that they observed.
use furcate_mesh.Prelude.{
  ℕ, suc, ◌≤◌, ◌<◌, ◌≡◌, ◌≢◌, ◌⊎◌, refl, Option, List, [], ◌∷◌, inl, inr, length, Ordering, arith,
}
use furcate_mesh.Prelude.Equality.{nat_eq_instance, update, update_same, update_other, update_cases}
use furcate_mesh.Core.Clock.{HybridLogicalClock, u32_max, clock_cmp, bump_past, now}
use furcate_mesh.Core.Clock.Counted.{
  AtMost, AtMost-now, AtMost-suc, AtMost-bump_past, bump_past_lt, clock_cmp_trans, clock_cmp_refl,
}

-- What precedes an event of a peer: a reading of the system clock, or the receipt of an earlier
-- event.
pub data Action : Type 0 where
  produces : (peer : ℕ) (time : Option ℕ) → Action
  observes : (peer event : ℕ) → Action

abbrev pub actor : Action → ℕ
actor (produces p t) = p
actor (observes p e) = p

-- the clock of each peer, and the clock that each event has
pub record Clocks : Type 0 where
  pub own : ℕ → HybridLogicalClock
  pub stamp : ℕ → HybridLogicalClock

abbrev pub observed : Action → Clocks → HybridLogicalClock
observed (produces p t) c = now t
observed (observes p e) c = c.stamp e

module _ (boots : ℕ → Option ℕ) where
  -- The clocks after some acts, the last one first; the acts are numbered from the first one on.
  -- Each peer starts from its system clock. An event that has not happened has the clock 0.
  unfoldable pub clocks : List Action → Clocks
  clocks [] = record { own = λ p. now (boots p); stamp = λ e. now Option.none }
  clocks (a ∷ past) =
      let c = clocks past in
      let bumped = bump_past (c.own (actor a)) (observed a c) in
      record { own = update (actor a) bumped c.own; stamp = update (length past) bumped c.stamp }

-- An event is one of a peer.
pub data By : List Action → ℕ → ℕ → Type 0 where
  newest : (a : Action) (past : List Action) → By (a ∷ past) (length past) (actor a)
  older : (a : Action) (past : List Action) (e p : ℕ) → By past e p → By (a ∷ past) e p

-- One event happens before another: at one peer, by being observed, or through others.
pub data Before : List Action → ℕ → ℕ → Type 0 where
  same_peer :
      (a : Action) (past : List Action) (e : ℕ)
      → By past e (actor a)
      → Before (a ∷ past) e (length past)
  message :
      (p e : ℕ) (past : List Action)
      → e < length past
      → Before (observes p e ∷ past) e (length past)
  earlier : (a : Action) (past : List Action) (d e : ℕ) → Before past d e → Before (a ∷ past) d e
  through : (past : List Action) (d e f : ℕ) → Before past d e → Before past e f → Before past d f

By-le : (past : List Action) (e p : ℕ) → By past e p → e < length past
By-le _ _ _ (newest a past) = omega arith
By-le _ _ _ (older a past e p b) = omega (arith, By-le past e p b)

Before-lt : (past : List Action) (d e : ℕ) → Before past d e → (d < e) × (e < length past)
Before-lt _ _ _ (same_peer a past e b) = (By-le past e (actor a) b, omega arith)
Before-lt _ _ _ (message p e past h) = (h, omega arith)
Before-lt _ _ _ (earlier a past d e b) = let (h, k) = Before-lt past d e b in (h, omega arith)
Before-lt _ _ _ (through past d e f b c) =
    let (h, k) = Before-lt past d e b in let (i, j) = Before-lt past e f c in (omega arith, j)

module _ (boots : ℕ → Option ℕ) where
  -- No clock counts more events than have happened, and a peer's clock is not before its events.
  record IsHistory (past : List Action) : Type 0 where
    own : (p : ℕ) → AtMost (length past) ((clocks boots past).own p)
    stamp : (e : ℕ) → AtMost (length past) ((clocks boots past).stamp e)
    by :
        (e p : ℕ)
        → By past e p
        → clock_cmp ((clocks boots past).stamp e) ((clocks boots past).own p) ≢ Ordering.gt

  observed-AtMost :
      (a : Action) (past : List Action)
      → IsHistory past
      → AtMost (length past) (observed a (clocks boots past))
  observed-AtMost (produces p t) past h = AtMost-now (length past) t
  observed-AtMost (observes p e) past h = h.stamp e

  -- the clock of a new event
  abbrev bumped : Action → List Action → HybridLogicalClock
  bumped a past = bump_past ((clocks boots past).own (actor a)) (observed a (clocks boots past))

  bumped-AtMost :
      (a : Action) (past : List Action)
      → IsHistory past
      → AtMost (suc (length past)) (bumped a past)
  bumped-AtMost a past h =
      AtMost-bump_past (length past) _ _ (h.own (actor a)) (observed-AtMost a past h)

  bumped_lt :
      (a : Action) (past : List Action)
      → length past < u32_max
      → IsHistory past
      → (clock_cmp ((clocks boots past).own (actor a)) (bumped a past) ≡ Ordering.lt)
        × (clock_cmp (observed a (clocks boots past)) (bumped a past) ≡ Ordering.lt)
  bumped_lt a past few h =
      bump_past_lt (length past) _ _ few (h.own (actor a)) (observed-AtMost a past h)

  stamp_newest :
      (a : Action) (past : List Action)
      → (clocks boots (a ∷ past)).stamp (length past) ≡ bumped a past
  unfolding clocks
  stamp_newest a past = update_same (length past) (bumped a past) (clocks boots past).stamp

  stamp_older :
      (a : Action) (past : List Action) (e : ℕ)
      → e < length past
      → (clocks boots (a ∷ past)).stamp e ≡ (clocks boots past).stamp e
  unfolding clocks
  stamp_older a past e h =
      update_other (length past) e (bumped a past) (clocks boots past).stamp λ q. omega arith

  own_cases :
      (a : Action) (past : List Action) (p : ℕ)
      → ((actor a ≡ p) × ((clocks boots (a ∷ past)).own p ≡ bumped a past))
        ⊎ ((actor a ≢ p) × ((clocks boots (a ∷ past)).own p ≡ (clocks boots past).own p))
  unfolding clocks
  own_cases a past p = update_cases (actor a) p (bumped a past) (clocks boots past).own

  stamp_cases :
      (a : Action) (past : List Action) (e : ℕ)
      → ((length past ≡ e) × ((clocks boots (a ∷ past)).stamp e ≡ bumped a past))
        ⊎ ((length past ≢ e) × ((clocks boots (a ∷ past)).stamp e ≡ (clocks boots past).stamp e))
  unfolding clocks
  stamp_cases a past e = update_cases (length past) e (bumped a past) (clocks boots past).stamp

  By-step :
      (a : Action) (past : List Action) (e p : ℕ)
      → length past < u32_max
      → IsHistory past
      → By (a ∷ past) e p
      → clock_cmp ((clocks boots (a ∷ past)).stamp e) ((clocks boots (a ∷ past)).own p)
        ≢ Ordering.gt
  By-step a past _ _ few h (newest _ _) = elim (own_cases a past (actor a)) [
    | inl (same, q) ↦ rw q (rw (stamp_newest a past) (clock_cmp_refl (bumped a past)))
    | inr (other, q) ↦ absurd (other refl)
  ]
  By-step a past _ _ few h (older _ _ e p b) =
      let before = h.by e p b in
      let behind = λ (same : actor a ≡ p).
        clock_cmp_trans ((clocks boots past).stamp e) ((clocks boots past).own (actor a))
          (bumped a past) (rw same before) (bumped_lt a past few h).0 in
      rw (stamp_older a past e (By-le past e p b)) (elim (own_cases a past p) [
        | inl (same, q) ↦ rw q (cc (behind same))
        | inr (other, q) ↦ rw q before
      ])

  start-IsHistory : IsHistory []
  unfolding clocks
  start-IsHistory = record {
    own = λ p. AtMost-now 0 (boots p);
    stamp = λ e. AtMost-now 0 Option.none;
    by = λ e p b. elim b [ ];
  }

  clocks-IsHistory : (past : List Action) → length past ≤ u32_max → IsHistory past
  clocks-IsHistory [] few = start-IsHistory
  clocks-IsHistory (a ∷ past) few =
      let h = clocks-IsHistory past (omega arith) in
      record {
        own = λ p. elim (own_cases a past p) [
          | inl (same, q) ↦ rw q (bumped-AtMost a past h)
          | inr (other, q) ↦ rw q (AtMost-suc (length past) _ (h.own p))
        ];
        stamp = λ e. elim (stamp_cases a past e) [
          | inl (same, q) ↦ rw q (bumped-AtMost a past h)
          | inr (other, q) ↦ rw q (AtMost-suc (length past) _ (h.stamp e))
        ];
        by = λ e p b. By-step a past e p (omega arith) h b;
      }

  -- Whatever the system clocks of the peers say, also where they go backwards: while no more than
  -- `u32::MAX` events have happened, an event that happens before another one, at its own peer, by
  -- being observed or through others, has the lesser clock.
  pub Before-clock_lt :
      (past : List Action) (d e : ℕ)
      → length past ≤ u32_max
      → Before past d e
      → clock_cmp ((clocks boots past).stamp d) ((clocks boots past).stamp e) ≡ Ordering.lt
  Before-clock_lt _ _ _ few (same_peer a past e b) =
      let h = clocks-IsHistory past (omega arith) in
      rw (stamp_newest a past) (
        rw (stamp_older a past e (By-le past e (actor a) b))
          (clock_cmp_trans _ _ _ (h.by e (actor a) b) (bumped_lt a past (omega arith) h).0))
  Before-clock_lt _ _ _ few (message p e past before) = rw (stamp_newest (observes p e) past) (
      rw (stamp_older (observes p e) past e before)
        (bumped_lt (observes p e) past (omega arith) (clocks-IsHistory past (omega arith))).1)
  Before-clock_lt _ _ _ few (earlier a past d e b) =
      let (h, k) = Before-lt past d e b in
      rw (stamp_older a past e k)
        (rw (stamp_older a past d (omega arith)) (Before-clock_lt past d e (omega arith) b))
  Before-clock_lt _ _ _ few (through past d e f b c) =
      clock_cmp_trans _ _ _ (cc (Before-clock_lt past d e few b)) (Before-clock_lt past e f few c)
