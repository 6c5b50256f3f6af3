-- ===== src/Routing/SameTarget.antt =====
-- The decisions of two peers, each with a router of its own that hears of the others and never of
-- itself: the documentation has them pick the same target.
use furcate_mesh.Prelude.{ℕ, ◌≡◌, ◌≢◌, ◌↔◌, false, List, ok}
use furcate_mesh.Prelude.Text.{Text}
use furcate_mesh.Core.PeerId.{PeerId}
use furcate_mesh.Core.Config.{MeshConfig}
use furcate_mesh.Core.Float.{Float, IsIeee, IsNumber}
use furcate_mesh.Routing.{forward, route}
use furcate_mesh.Routing.Order.{candidate_cmp-of_NotAfter, peer_eq_of_candidate_cmp}
use furcate_mesh.Routing.History.{Call}
use furcate_mesh.Routing.Reached.{CanServe, known_load, reached, AllNumbers, last_or-IsNumber}
use furcate_mesh.Routing.Target.{forward-IsTarget}

-- What one peer knows at its decision: its settings, the calls of its router, and the clock.
pub record Side (F : Type 0) : Type 0 where
  pub own : PeerId
  pub cfg : MeshConfig
  pub calls : List (Call F)
  pub now : ℕ

module _ {F : Type 0} (f : Float F) (model_name : Text) where
  -- Of every other peer both believe the same: whether it can serve, and its load.
  pub record SameNews (a b : Side F) : Type 0 where
    pub serves :
        (p : PeerId)
        → p ≢ a.own
        → p ≢ b.own
        → CanServe f a.cfg a.calls a.now model_name p ↔ CanServe f b.cfg b.calls b.now model_name p
    pub load :
        (p : PeerId) → p ≢ a.own → p ≢ b.own → known_load f a.calls p ≡ known_load f b.calls p

  -- the target of a side
  abbrev pub Picks : Side F → ℕ → PeerId → Type 0
  Picks s hops to =
      route f (reached f s.own s.cfg s.calls) s.now model_name false hops ≡ ok (forward to)

module _ {F : Type 0} {f : Float F} (laws : IsIeee f) (model_name : Text) where
  known_load-IsNumber :
      (s : Side F) (p : PeerId) → AllNumbers f s.calls → IsNumber f (known_load f s.calls p)
  known_load-IsNumber s p numbers =
      last_or-IsNumber f p s.calls f.max_value laws.max_value-IsNumber numbers

  -- Two peers that believe the same of every other peer, by routers of their own and after any
  -- heartbeats without a NaN load, forward requests for one model to the same target, unless one of
  -- them forwards to the other. Their hop budgets and forwards so far need not be the same.
  pub Picks-agree :
      (a b : Side F) (m n : ℕ) (x y : PeerId)
      → SameNews f model_name a b
      → AllNumbers f a.calls
      → AllNumbers f b.calls
      → Picks f model_name a m x
      → Picks f model_name b n y
      → x ≢ b.own
      → y ≢ a.own
      → x ≡ y
  Picks-agree a b m n x y news na nb p q xb ya =
      let tx = forward-IsTarget laws a.own a.cfg a.calls na a.now model_name m x p in
      let ty = forward-IsTarget laws b.own b.cfg b.calls nb b.now model_name n y q in
      peer_eq_of_candidate_cmp laws (x, known_load f a.calls x) (y, known_load f a.calls y)
        (known_load-IsNumber a x na) (known_load-IsNumber a y na)
        (candidate_cmp-of_NotAfter f _ _ (tx.least y ya ((news.serves y ya ty.other).1 ty.serves)))
        (rw (news.load y ya ty.other, news.load x tx.other xb)
          (candidate_cmp-of_NotAfter f _ _
            (ty.least x xb ((news.serves x tx.other xb).0 tx.serves))))
