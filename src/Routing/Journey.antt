-- ===== src/Routing/Journey.antt =====
-- A request on its way through the mesh: each router that it reaches is asked, with the number of
-- forwards so far, and where the router forwards, the request goes on to that peer.
use furcate_mesh.Prelude.{
  ℕ, zero, suc, ◌+◌, ◌<◌, ◌≤◌, ◌≡◌, ◌≢◌, refl, ◌∙◌, Bool, true, false, Option, none, some, List, [],
  ◌∷◌, arith, length, inl, inr, Result, ok, err, Result-cases,
}
use furcate_mesh.Prelude.Text.{Text}
use furcate_mesh.Core.PeerId.{PeerId}
use furcate_mesh.Core.Config.{MeshConfig}
use furcate_mesh.Core.Float.{Float, IsIeee}
use furcate_mesh.Routing.{RoutingError, Decision, local, forward, route}
use furcate_mesh.Routing.History.{Call}
use furcate_mesh.Routing.Reached.{CanServe, reached, reached_cfg, AllNumbers}
use furcate_mesh.Routing.Target.{IsTarget, forward-IsTarget, forward_exists}

-- What the peers know when the request reaches them after some forwards: their settings, the calls
-- of their routers, the clock, and whether they have the model loaded.
pub record Mesh (F : Type 0) : Type 0 where
  pub cfg : PeerId → MeshConfig
  pub calls : ℕ → PeerId → List (Call F)
  pub now : ℕ → ℕ
  pub local_has : ℕ → PeerId → Bool

-- The peers that a request reaches, and the peer that serves it or the error that it ends with.
pub record Journey : Type 0 where
  pub path : List PeerId
  pub answer : Option (Result RoutingError PeerId)

abbrev onward : PeerId → Journey → Journey
onward p j = record { path = p ∷ j.path; answer = j.answer }

module _ {F : Type 0} (f : Float F) (mesh : Mesh F) (model_name : Text) where
  unfoldable pub decide : (hops : ℕ) → PeerId → Result RoutingError Decision
  decide hops p =
      route f (reached f p (mesh.cfg p) (mesh.calls hops p)) (mesh.now hops) model_name
        (mesh.local_has hops p) hops

  -- There is no answer where the fuel ends.
  unfoldable pub follow : (fuel hops : ℕ) → PeerId → Journey
  follow zero hops p = record { path = []; answer = none }
  follow (suc fuel) hops p = elim (decide hops p) [
    | err e ↦ record { path = p ∷ []; answer = some (err e) }
    | ok local ↦ record { path = p ∷ []; answer = some (ok p) }
    | ok (forward to) ↦ onward p (follow fuel (suc hops) to)
  ]

  forward_below :
      (hops : ℕ) (p to : PeerId) → decide hops p ≡ ok (forward to) → hops < (mesh.cfg p).max_hops
  unfolding decide route
  forward_below hops p to h = ground (arith, reached_cfg f p (mesh.cfg p) (mesh.calls hops p))

  module _ (bound : ℕ) (budget : (p : PeerId) → (mesh.cfg p).max_hops ≤ bound) where
    abbrev Ends : (fuel hops : ℕ) → PeerId → Type 0
    Ends fuel hops p =
        (r : Result RoutingError PeerId) × ((follow fuel hops p).answer ≡ some r)
        × (length (follow fuel hops p).path + hops ≤ suc bound)

    Ends-of_next :
        (fuel hops : ℕ) (p : PeerId)
        → hops ≤ bound
        → ((to : PeerId) → hops < bound → Ends fuel (suc hops) to)
        → Ends (suc fuel) hops p
    unfolding follow
    Ends-of_next fuel hops p below next = elim (Result-cases (decide hops p)) [
      | inl (e, q) ↦ (err e, rw (q, follow) refl, rw (q, follow) (omega arith))
      | inr (local, q) ↦ (ok p, rw (q, follow) refl, rw (q, follow) (omega arith))
      | inr (forward to, q) ↦
          let (r, a, l) = next to (omega (arith, forward_below hops p to q, budget p)) in
          (r, rw (q, follow) a, rw (q, follow) (omega (arith, l)))
    ]

    Ends-from :
        (fuel hops : ℕ) (p : PeerId) → hops ≤ bound → bound ≤ fuel + hops → Ends (suc fuel) hops p
    Ends-from zero hops p below enough =
        Ends-of_next zero hops p below λ to less. absurd (omega arith)
    Ends-from (suc fuel) hops p below enough =
        Ends-of_next (suc fuel) hops p below
          λ to less. Ends-from fuel (suc hops) to (omega arith) (omega arith)

    -- A request ends, wherever it begins and whatever the routers know and learn on its way: where
    -- no peer's hop budget is above a bound, and the fuel is, it is served or refused after at most
    -- that many forwards.
    pub follow_ends :
        (fuel : ℕ) (p : PeerId)
        → bound < fuel
        → (r : Result RoutingError PeerId) × ((follow fuel 0 p).answer ≡ some r)
          × (length (follow fuel 0 p).path ≤ suc bound)
    follow_ends zero p enough = absurd (omega arith)
    follow_ends (suc fuel) p enough =
        let (r, a, l) = Ends-from fuel 0 p (omega arith) (omega arith) in (r, a, omega arith)

  decide_here : (hops : ℕ) (p : PeerId) → mesh.local_has hops p ≡ true → decide hops p ≡ ok local
  unfolding decide route
  decide_here hops p h = rw h refl

  module _ (laws : IsIeee f) (start : PeerId) (numbers : AllNumbers f (mesh.calls 0 start))
      (away : mesh.local_has 0 start ≡ false) where
    decide_away :
        decide 0 start
        ≡ route f
            (reached f start (mesh.cfg start) (mesh.calls 0 start))
            (mesh.now 0)
            model_name
            false
            0
    unfolding decide
    decide_away = rw away refl

    -- A request for a model that the first peer does not have is served after one forward, by the
    -- right target of the first peer's router, if that router's hop budget is not 0, some other
    -- peer announced the model to it and was heard of within the dead-peer interval, no heartbeat
    -- that it got carried a NaN load, and every peer that it may so believe in has the model; the
    -- fuel is to be for two routers.
    pub follow_once :
        (p : PeerId) (fuel : ℕ)
        → 0 < (mesh.cfg start).max_hops
        → p ≢ start
        → CanServe f (mesh.cfg start) (mesh.calls 0 start) (mesh.now 0) model_name p
        → ((q : PeerId)
            → CanServe f (mesh.cfg start) (mesh.calls 0 start) (mesh.now 0) model_name q
            → mesh.local_has 1 q ≡ true)
        → (to : PeerId) × IsTarget f start
            (mesh.cfg start)
            (mesh.calls 0 start)
            (mesh.now 0)
            model_name
            0
            to
          × (follow (suc (suc fuel)) 0 start
              ≡ record { path = start ∷ to ∷ []; answer = some (ok to) })
    unfolding follow
    follow_once p fuel budget other serves honest =
        let (to, q) =
          forward_exists laws start (mesh.cfg start) (mesh.calls 0 start) numbers (mesh.now 0)
            model_name 0 p other serves budget in
        let target =
          forward-IsTarget laws start (mesh.cfg start) (mesh.calls 0 start) numbers (mesh.now 0)
            model_name 0 to q in
        (
          to,
          target,
          rw (decide_away ∙ q, follow)
              (rw (decide_here 1 to (honest to target.serves), follow) refl),
        )
