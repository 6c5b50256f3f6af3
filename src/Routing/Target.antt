-- ===== src/Routing/Target.antt =====
-- Where `route` sends a request after any calls on a fresh router, in terms of those calls alone.
use mathlib.Core.Path.{subst}
use furcate_mesh.Prelude.{ℕ, ◌<◌, ◌≡◌, ◌≢◌, refl, ap, false, List, arith, Result, ok}
use furcate_mesh.Prelude.Text.{Text}
use furcate_mesh.Core.PeerId.{PeerId}
use furcate_mesh.Core.Config.{MeshConfig}
use furcate_mesh.Core.Float.{Float, IsIeee}
use furcate_mesh.Routing.{RoutingError, Decision, forward, route}
use furcate_mesh.Routing.Order.{NotAfter}
use furcate_mesh.Routing.Decides.{Decides, here, spent, nobody, best, route-Decides}
use furcate_mesh.Routing.History.{Call}
use furcate_mesh.Routing.Reached.{
  CanServe, known_load, reached, reached_cfg, AllNumbers, HasNumbers-reached,
  CanServe-of_IsEligible, IsEligible-of_CanServe,
}

-- The right target: another peer that can serve, and no other that can comes before it.
pub record IsTarget {F : Type 0} (f : Float F) (own : PeerId) (cfg : MeshConfig)
    (cs : List (Call F)) (now : ℕ) (model_name : Text) (hops : ℕ) (to : PeerId) : Type 0 where
  pub below_budget : hops < cfg.max_hops
  pub other : to ≢ own
  pub serves : CanServe f cfg cs now model_name to
  pub least :
      (p : PeerId)
      → p ≢ own
      → CanServe f cfg cs now model_name p
      → NotAfter f (to, known_load f cs to) (p, known_load f cs p)

module _ {F : Type 0} {f : Float F} (laws : IsIeee f) (own : PeerId) (cfg : MeshConfig)
    (cs : List (Call F)) (numbers : AllNumbers f cs) (now : ℕ) (model_name : Text) (hops : ℕ) where
  max_hops-reached : (reached f own cfg cs).cfg.max_hops ≡ cfg.max_hops
  max_hops-reached = ap (λ r. r.max_hops) (reached_cfg f own cfg cs)

  forwarded :
      (to : PeerId) {x : Result RoutingError Decision}
      → Decides f (reached f own cfg cs) now model_name false hops x
      → x ≡ ok (forward to)
      → IsTarget f own cfg cs now model_name hops to
  forwarded to (here h) q = cc
  forwarded to (spent h g) q = cc
  forwarded to (nobody h g n) q = cc
  forwarded to (best h g e k least) q =
      let (other, serves, l) = CanServe-of_IsEligible f own cfg cs now model_name e k in
      let same : e.0 ≡ to = cc in
      subst (IsTarget f own cfg cs now model_name hops) same (record {
        below_budget = omega (arith, max_hops-reached);
        other = other;
        serves = serves;
        least = λ p ne c.
            let (s, m, lp) = IsEligible-of_CanServe f own cfg cs now model_name p ne c in
            subst (λ x. NotAfter f (e.0, x) (p, known_load f cs p)) l
              (subst (λ y. NotAfter f (e.0, e.1.load) (p, y)) lp (least (p, s) m));
      })

  -- If no heartbeat carried a NaN load, a request that cannot be served locally is forwarded only
  -- below the hop budget, never to the router's own peer, only to a peer that announced the model
  -- and was heard of within the dead-peer interval, and no other such peer has less load, or as
  -- much load and a lesser id.
  pub forward-IsTarget :
      (to : PeerId)
      → route f (reached f own cfg cs) now model_name false hops ≡ ok (forward to)
      → IsTarget f own cfg cs now model_name hops to
  forward-IsTarget to q =
      forwarded to
        (route-Decides _ now model_name laws (HasNumbers-reached f laws own cfg cs numbers) false
          hops)
        q

  served :
      (p : PeerId) {x : Result RoutingError Decision}
      → p ≢ own
      → CanServe f cfg cs now model_name p
      → hops < cfg.max_hops
      → Decides f (reached f own cfg cs) now model_name false hops x
      → (to : PeerId) × (x ≡ ok (forward to))
  served p ne c g (here h) = cc
  served p ne c g (spent h k) = absurd (omega (arith, max_hops-reached))
  served p ne c g (nobody h k none_left) =
      let (s, e, l) = IsEligible-of_CanServe f own cfg cs now model_name p ne c in
      absurd (none_left (p, s) e)
  served p ne c g (best h k e m least) = (e.0, refl)

  -- If no heartbeat carried a NaN load, a request below the hop budget that cannot be served
  -- locally is forwarded whenever some other peer announced the model and was heard of within the
  -- dead-peer interval.
  pub forward_exists :
      (p : PeerId)
      → p ≢ own
      → CanServe f cfg cs now model_name p
      → hops < cfg.max_hops
      → (to : PeerId) × (route f (reached f own cfg cs) now model_name false hops ≡ ok (forward to))
  forward_exists p ne c g = served p ne c g (
      route-Decides _ now model_name laws (HasNumbers-reached f laws own cfg cs numbers) false hops)
