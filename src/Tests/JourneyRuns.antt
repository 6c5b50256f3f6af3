-- ===== src/Tests/JourneyRuns.antt =====
-- crates/furcate-mesh-routing: a request on its way, and clocks of several peers.
use mathlib.Core.Path.{subst}
use furcate_mesh.Prelude.{
  ℕ, ◌≤◌, ◌≡◌, refl, true, false, Option, none, some, List, [], ◌∷◌, arith, length, inl, inr,
  Result, ok, err, if◌then◌else◌, Bool-cases, Ordering, any,
}
use furcate_mesh.Prelude.Text.{text_eq, bytes_cmp}
use furcate_mesh.Prelude.Dict.{upsert}
use furcate_mesh.Prelude.Sort.{sort_by}
use furcate_mesh.Core.PeerId.{PeerId, peer_eq, peer_eq_iff}
use furcate_mesh.Core.Config.{default_config}
use furcate_mesh.Core.Clock.{clock_cmp}
use furcate_mesh.Core.Clock.Causal.{
  Action, produces, observes, clocks, Before, message, same_peer, newest, through, earlier,
  Before-clock_lt,
}
use furcate_mesh.Routing.{
  RoutingError, hop_budget, candidate_cmp, route, record_announce, record_heartbeat,
}
use furcate_mesh.Routing.History.{names, apply, run}
use furcate_mesh.Routing.Reached.{CanServe}
use furcate_mesh.Routing.Target.{IsTarget}
use furcate_mesh.Routing.Journey.{Mesh, decide, follow, follow_ends, follow_once}
use furcate_mesh.Tests.Codecs.Numbers.{whole, whole-IsIeee}
use furcate_mesh.Tests.RoutingRuns.{peer, llama, calls, calls-AllNumbers, one_ne_zero, one-CanServe}

-- every peer but the first one has the model; only the first router has heard of others
abbrev honest : Mesh (Option ℕ)
honest = record {
  cfg = λ p. default_config;
  calls = λ h p. if peer_eq p (peer 0) then calls else [];
  now = λ h. 10;
  local_has = λ h p. if peer_eq p (peer 0) then false else true;
}

-- no peer has the model, and all believe the same calls
abbrev deceived : Mesh (Option ℕ)
deceived = record {
  cfg = λ p. default_config;
  calls = λ h p. calls;
  now = λ h. 10;
  local_has = λ h p. false;
}

served :
    follow whole honest llama 2 0 (peer 0)
    ≡ record { path = peer 0 ∷ peer 2 ∷ []; answer = some (ok (peer 2)) }
unfolding follow decide run apply record_announce record_heartbeat text_eq bytes_cmp upsert sort_by
    candidate_cmp route
served = refl

bounced :
    follow whole deceived llama 2 0 (peer 0)
    ≡ record { path = peer 0 ∷ peer 2 ∷ []; answer = some (err (hop_budget 1)) }
unfolding follow decide run apply record_announce record_heartbeat text_eq bytes_cmp upsert sort_by
    candidate_cmp route
bounced = refl

follow_ends_example :
    (r : Result RoutingError PeerId) × ((follow whole deceived llama 2 0 (peer 0)).answer ≡ some r)
    × (length (follow whole deceived llama 2 0 (peer 0)).path ≤ 2)
follow_ends_example = follow_ends whole deceived llama 1 (λ p. omega arith) 2 (peer 0) (omega arith)

not_named : any (λ k. text_eq k llama) (names (peer 0) calls) ≡ false
unfolding text_eq
not_named = refl

honest_lem :
    (q : PeerId) → CanServe whole default_config calls 10 llama q → honest.local_has 1 q ≡ true
honest_lem q c = elim (Bool-cases (peer_eq q (peer 0))) [
  | inl h ↦ absurd (cc (named ((peer_eq_iff q (peer 0)).0 h) c.announced, not_named))
  | inr h ↦ rw h refl
]
  where
    named :
        q ≡ peer 0
        → any (λ k. text_eq k llama) (names q calls) ≡ true
        → any (λ k. text_eq k llama) (names (peer 0) calls) ≡ true
    named e h = subst (λ p. any (λ k. text_eq k llama) (names p calls) ≡ true) e h

follow_once_example :
    (to : PeerId) × IsTarget whole (peer 0) default_config calls 10 llama 0 to
    × (follow whole honest llama 2 0 (peer 0)
        ≡ record { path = peer 0 ∷ to ∷ []; answer = some (ok to) })
unfolding text_eq
follow_once_example =
    follow_once whole honest llama whole-IsIeee (peer 0) calls-AllNumbers refl (peer 1) 0
      (omega arith) one_ne_zero one-CanServe honest_lem

-- The second peer's clock is far behind; it observes the event of the first one and produces
-- another.
abbrev chat : List Action
chat = produces 1 (some 7) ∷ observes 1 0 ∷ produces 0 (some 900) ∷ []

abbrev boots : ℕ → Option ℕ
boots p = none

chat-Before : Before chat 0 2
chat-Before =
    through chat 0 1 2 (earlier (produces 1 (some 7)) _ 0 1 (message 1 0 _ (omega arith)))
      (same_peer (produces 1 (some 7)) _ 1 (newest (observes 1 0) _))

Before-clock_lt_example :
    clock_cmp ((clocks boots chat).stamp 0) ((clocks boots chat).stamp 2) ≡ Ordering.lt
Before-clock_lt_example = Before-clock_lt boots chat 0 2 (omega arith) chat-Before
