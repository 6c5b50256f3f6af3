-- ===== src/Routing.antt =====
-- crates/furcate-mesh-routing/src/lib.rs: the router's table of peers, and the decision where a
-- request goes. `F` stands for f64. An `Instant` is a number of nanoseconds, passed in where the
-- code reads the clock. The table is behind a lock that each method holds to its end, so methods
-- are atomic and calls from several tasks are a list of calls.
pub mod Order
pub mod Decides
pub mod History
pub mod Known
pub mod Reached
pub mod Target
pub mod SameTarget
pub mod Journey
pub mod Agree
use furcate_mesh.Prelude.{
  ℕ, ◌-◌, ◌*◌, ◌^◌, Bool, Ordering, Option, none, some, List, [], ◌∷◌, ◌++◌, map, any, filter, ltb,
  leb, Result, ok, err, if◌then◌else◌,
}
use furcate_mesh.Prelude.Text.{Text, text_eq, then_with}
use furcate_mesh.Prelude.Dict.{upsert}
use furcate_mesh.Prelude.Sort.{sort_by, head_or}
use furcate_mesh.Core.PeerId.{PeerId, peer_eq, peer_cmp, peer_id_eq}
use furcate_mesh.Core.Float.{Float}
use furcate_mesh.Core.Config.{MeshConfig}

pub data RoutingError : Type 0 where
  no_such_model : (model_name : Text) → RoutingError
  hop_budget : (max_hops : ℕ) → RoutingError

pub data Decision : Type 0 where
  local : Decision
  forward : (to : PeerId) → Decision

pub record PeerState (F : Type 0) : Type 0 where
  pub load : F
  pub last_seen : ℕ
  pub models : List Text

pub record Router (F : Type 0) : Type 0 where
  pub cfg : MeshConfig
  pub local : PeerId
  pub state : List (PeerId × PeerState F)

-- `Duration::from_secs`
abbrev pub from_secs : ℕ → ℕ
from_secs s = s * 10 ^ 9

-- `Instant::duration_since`, which stops at zero
abbrev pub duration_since : ℕ → ℕ → ℕ
duration_since now earlier = now - earlier

abbrev pub new : {F : Type 0} → PeerId → MeshConfig → Router F
new own cfg = record { cfg = cfg; local = own; state = [] }

-- `if !models.iter().any(…) { models.push(…) }`
unfoldable pub push_new : List Text → Text → List Text
push_new models model_name =
    if any (λ m. text_eq m model_name) models then models else models ++ model_name ∷ []

module _ {F : Type 0} where
  -- The two filters of `route`.
  abbrev pub is_alive : Router F → ℕ → PeerId × PeerState F → Bool
  is_alive r now e = ltb (duration_since now e.1.last_seen) (from_secs r.cfg.peer_dead_after_secs)

  abbrev pub has_model : Text → PeerId × PeerState F → Bool
  has_model model_name e = any (λ m. text_eq m model_name) e.1.models

  unfoldable pub candidates : Router F → ℕ → Text → List (PeerId × F)
  candidates r now model_name =
      map (λ e. (e.0, e.1.load)) (filter (has_model model_name) (filter (is_alive r now) r.state))

module _ {F : Type 0} (f : Float F) where
  unfoldable pub record_announce : ℕ → PeerId → Text → Router F → Router F
  unfolding push_new
  record_announce now peer model_name r = if peer_eq peer r.local then r else record r {
    state =
        upsert peer (record { load = f.max_value; last_seen = now; models = [] })
          (λ s. record s { models = push_new s.models model_name; last_seen = now }) r.state;
  }

  unfoldable pub record_heartbeat : ℕ → PeerId → F → Router F → Router F
  record_heartbeat now peer load r = if peer_eq peer r.local then r else record r {
    state =
        upsert peer (record { load = load; last_seen = now; models = [] })
          (λ s. record s { load = load; last_seen = now }) r.state;
  }

  -- The comparison function of the sort in `route`.
  unfoldable pub candidate_cmp : PeerId × F → PeerId × F → Ordering
  candidate_cmp a b =
      then_with (elim (f.partial_cmp a.1 b.1) [ some o ↦ o | none ↦ Ordering.eq ])
        (peer_cmp a.0 b.0)

  -- From the emptiness test to the end; `candidates[0]` is the head of a list that is not empty.
  unfoldable pub choose : Text → List (PeerId × F) → Result RoutingError Decision
  choose model_name [] = err (no_such_model model_name)
  choose model_name (c ∷ cs) = ok (forward (head_or c (sort_by candidate_cmp (c ∷ cs))).0)

  unfoldable pub route : Router F → ℕ → Text → Bool → ℕ → Result RoutingError Decision
  unfolding candidates choose
  route r now model_name local_has hops_so_far =
      if local_has
      then ok local
      else if leb r.cfg.max_hops hops_so_far
      then err (hop_budget r.cfg.max_hops)
      else choose model_name (candidates r now model_name)
