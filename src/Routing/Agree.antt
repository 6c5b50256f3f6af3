-- ===== src/Routing/Agree.antt =====
-- The decision does not depend on the order in which the hash map is iterated: routers that hold
-- the same entries, under the same configuration, send a request to the same place.
use furcate_mesh.Prelude.{ℕ, ◌≡◌, refl, sym, ap, Bool, arith, Result, ok, err, Member}
use furcate_mesh.Prelude.Text.{Text}
use furcate_mesh.Core.Float.{Float, IsIeee}
use furcate_mesh.Routing.{RoutingError, Decision, hop_budget, forward, Router, route}
use furcate_mesh.Routing.Order.{candidate_cmp-of_NotAfter, peer_eq_of_candidate_cmp}
use furcate_mesh.Routing.Decides.{
  Entry, IsEligible, Decides, here, spent, nobody, best, HasNumbers, route-Decides,
}

-- The same entries, in any order, under the same configuration.
pub record SameTable {F : Type 0} (r s : Router F) : Type 0 where
  pub config : r.cfg ≡ s.cfg
  pub left : (e : Entry F) → Member e r.state → Member e s.state
  pub right : (e : Entry F) → Member e s.state → Member e r.state

SameTable-sym : {F : Type 0} {r s : Router F} → SameTable r s → SameTable s r
SameTable-sym h = record { config = sym h.config; left = h.right; right = h.left }

module _ {F : Type 0} {f : Float F} where
  IsEligible-over :
      (r s : Router F) (same : SameTable r s) (now : ℕ) (model_name : Text) (e : Entry F)
      → IsEligible f r now model_name e
      → IsEligible f s now model_name e
  IsEligible-over r s same now model_name e h = record {
    known = same.left e h.known;
    alive = rw (← same.config) h.alive;
    serves = h.serves;
  }

  module _ (laws : IsIeee f) (r s : Router F) (same : SameTable r s) (numbers : HasNumbers f r)
      (now : ℕ) (model_name : Text) where
    Decides-unique :
        {local_has : Bool} {hops : ℕ} {x y : Result RoutingError Decision}
        → Decides f r now model_name local_has hops x
        → Decides f s now model_name local_has hops y
        → x ≡ y
    Decides-unique (here h) (here g) = refl
    Decides-unique (here h) (spent g k) = cc
    Decides-unique (here h) (nobody g k n) = cc
    Decides-unique (here h) (best g k e m n) = cc
    Decides-unique (spent h l) (here g) = cc
    Decides-unique (spent h l) (spent g k) = ap (λ c. err (hop_budget c.max_hops)) same.config
    Decides-unique (spent h l) (nobody g k n) =
        absurd (omega (arith, ap (λ c. c.max_hops) same.config))
    Decides-unique (spent h l) (best g k e m n) =
        absurd (omega (arith, ap (λ c. c.max_hops) same.config))
    Decides-unique (nobody h l p) (here g) = cc
    Decides-unique (nobody h l p) (spent g k) =
        absurd (omega (arith, ap (λ c. c.max_hops) same.config))
    Decides-unique (nobody h l p) (nobody g k n) = refl
    Decides-unique (nobody h l p) (best g k e m n) =
        absurd (p e (IsEligible-over s r (SameTable-sym same) now model_name e m))
    Decides-unique (best h l d p q) (here g) = cc
    Decides-unique (best h l d p q) (spent g k) =
        absurd (omega (arith, ap (λ c. c.max_hops) same.config))
    Decides-unique (best h l d p q) (nobody g k n) =
        absurd (n d (IsEligible-over r s same now model_name d p))
    Decides-unique (best h l d p q) (best g k e m n) =
        let m' = IsEligible-over s r (SameTable-sym same) now model_name e m in
        ap (λ t. ok (forward t))
          (peer_eq_of_candidate_cmp laws (d.0, d.1.load) (e.0, e.1.load) (numbers d p.known)
            (numbers e m'.known) (candidate_cmp-of_NotAfter f _ _ (q e m'))
            (candidate_cmp-of_NotAfter f _ _ (n d (IsEligible-over r s same now model_name d p))))

    -- Two routers with the same configuration and the same entries, in whatever order their maps
    -- are iterated, decide alike, if every load is a number.
    pub route_agree :
        (local_has : Bool) (hops : ℕ)
        → route f r now model_name local_has hops ≡ route f s now model_name local_has hops
    route_agree local_has hops =
        Decides-unique (route-Decides r now model_name laws numbers local_has hops)
          (route-Decides s now model_name laws (λ e m. numbers e (same.right e m)) local_has hops)
