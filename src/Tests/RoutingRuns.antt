-- ===== src/Tests/RoutingRuns.antt =====
-- crates/furcate-mesh-routing: runs, and its theorems at concrete inputs.
use furcate_mesh.Prelude.{
  ℕ, ◌≡◌, ◌≢◌, refl, true, false, Ordering, Option, none, some, List, [], ◌∷◌, replicate, Member,
  inl, inr, ok, err, if◌then◌else◌,
}
use furcate_mesh.Prelude.Sort.{sort_by}
use furcate_mesh.Prelude.Text.{Text, codes, text_eq, bytes_cmp}
use furcate_mesh.Prelude.Dict.{get, upsert}
use furcate_mesh.Core.PeerId.{PeerId, from_bytes, peer_eq, peer_id_eq}
use furcate_mesh.Core.Config.{default_config}
use furcate_mesh.Routing.{
  Router, new, local, forward, no_such_model, hop_budget, candidate_cmp, route, record_announce,
  record_heartbeat,
}
use furcate_mesh.Routing.Order.{candidate_cmp_nan_cycle}
use furcate_mesh.Routing.Decides.{Decides, HasNumbers, route-Decides}
use furcate_mesh.Routing.Agree.{SameTable, route_agree}
use furcate_mesh.Routing.History.{Call, announce, heartbeat, apply, run}
use furcate_mesh.Routing.Reached.{reached, CanServe, AllNumbers, HasNumbers-reached}
use furcate_mesh.Routing.Known.{said, known_lem}
use furcate_mesh.Routing.History.{times, loads, names}
use furcate_mesh.Routing.Target.{IsTarget, forward-IsTarget}
use furcate_mesh.Tests.Codecs.Numbers.{whole, whole-IsIeee}

abbrev pub peer : ℕ → PeerId
peer b = from_bytes (replicate 4 b)

abbrev pub llama : Text
llama = codes "llama"

-- two peers announce the model; the second is less loaded
abbrev pub calls : List (Call (Option ℕ))
calls =
    announce 1 (peer 1) llama
    ∷ announce 2 (peer 2) llama
    ∷ heartbeat 3 (peer 1) (some 90)
    ∷ heartbeat 4 (peer 2) (some 10)
    ∷ []

abbrev router : Router (Option ℕ)
router = reached whole (peer 0) default_config calls

picks_least_loaded : route whole router 10 llama false 0 ≡ ok (forward (peer 2))
unfolding route run apply record_announce record_heartbeat text_eq bytes_cmp upsert sort_by
    candidate_cmp
picks_least_loaded = refl

local_first : route whole router 10 llama true 7 ≡ ok local
unfolding route
local_first = refl

budget_spent : route whole router 10 llama false 1 ≡ err (hop_budget 1)
unfolding route run apply record_announce record_heartbeat text_eq
budget_spent = refl

dead_peers : route whole router 30000000004 llama false 0 ≡ err (no_such_model llama)
unfolding route run apply record_announce record_heartbeat text_eq bytes_cmp upsert
dead_peers = refl

own_announcement :
    route whole
      (reached whole (peer 0) default_config (announce 1 (peer 0) llama ∷ []))
      2
      llama
      false
      0
    ≡ err (no_such_model llama)
unfolding route run apply record_announce record_heartbeat text_eq bytes_cmp
own_announcement = refl

pub calls-AllNumbers : AllNumbers whole calls
calls-AllNumbers = (refl, (refl, tt))

router-HasNumbers : HasNumbers whole router
router-HasNumbers =
    HasNumbers-reached whole whole-IsIeee (peer 0) default_config calls calls-AllNumbers

route-Decides_example : Decides whole router 10 llama false 0 (route whole router 10 llama false 0)
route-Decides_example = route-Decides router 10 llama whole-IsIeee router-HasNumbers false 0

-- the same table in the other order
abbrev turned : Router (Option ℕ)
turned = reached whole (peer 0) default_config (
    announce 2 (peer 2) llama
    ∷ announce 1 (peer 1) llama
    ∷ heartbeat 3 (peer 1) (some 90)
    ∷ heartbeat 4 (peer 2) (some 10)
    ∷ [])

swapped : {A : Type 0} (a b e : A) → Member e (a ∷ b ∷ []) → Member e (b ∷ a ∷ [])
swapped a b e (inl h) = inr (inl h)
swapped a b e (inr (inl h)) = inl h
swapped a b e (inr (inr h)) = absurd h

router-turned : SameTable router turned
unfolding run apply record_announce record_heartbeat text_eq upsert
router-turned = record { config = refl; left = λ e. swapped _ _ e; right = λ e. swapped _ _ e }

route_agree_example : route whole router 10 llama false 0 ≡ route whole turned 10 llama false 0
route_agree_example =
    route_agree whole-IsIeee router turned router-turned router-HasNumbers 10 llama false 0

known_lem_example : get (peer 1) (run whole (new (peer 0) default_config) calls).state ≡ (
    if peer_eq (peer 1) (peer 0)
    then none
    else said whole (times (peer 1) calls) (loads (peer 1) calls) (names (peer 1) calls))
known_lem_example = known_lem whole (peer 1) (peer 0) default_config calls

forward-IsTarget_example : IsTarget whole (peer 0) default_config calls 10 llama 0 (peer 2)
forward-IsTarget_example =
    forward-IsTarget whole-IsIeee (peer 0) default_config calls calls-AllNumbers 10 llama 0 (peer 2)
      picks_least_loaded

pub one_ne_zero : peer 1 ≢ peer 0
one_ne_zero h = cc h

pub one-CanServe : CanServe whole default_config calls 10 llama (peer 1)
unfolding text_eq
one-CanServe = record { announced = refl; recent = refl }

candidate_cmp_nan_cycle_example :
    (candidate_cmp whole (peer 1, some 9) (peer 2, none) ≡ Ordering.lt)
    × (candidate_cmp whole (peer 2, none) (peer 3, some 1) ≡ Ordering.lt)
    × (candidate_cmp whole (peer 3, some 1) (peer 1, some 9) ≡ Ordering.lt)
unfolding bytes_cmp
candidate_cmp_nan_cycle_example =
    candidate_cmp_nan_cycle whole-IsIeee (peer 1) (peer 2) (peer 3) (some 9) (some 1) none refl refl
      refl refl
