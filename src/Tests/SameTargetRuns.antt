-- ===== src/Tests/SameTargetRuns.antt =====
-- Two peers that heard the same calls about two others, in another order.
use furcate_mesh.Prelude.{
  ℕ, ◌≡◌, refl, true, false, Option, some, List, [], ◌∷◌, Bool-cases, inl, inr,
}
use furcate_mesh.Prelude.Text.{text_eq, bytes_cmp}
use furcate_mesh.Prelude.Dict.{upsert}
use furcate_mesh.Prelude.Sort.{sort_by}
use furcate_mesh.Core.PeerId.{PeerId, peer_eq, peer_eq_iff}
use furcate_mesh.Core.Config.{default_config}
use furcate_mesh.Routing.{route, candidate_cmp, record_announce, record_heartbeat}
use furcate_mesh.Routing.History.{Call, announce, heartbeat, names, times, loads, apply, run}
use furcate_mesh.Routing.SameTarget.{Side, SameNews, Picks, Picks-agree}
use furcate_mesh.Tests.Codecs.Numbers.{whole, whole-IsIeee}
use furcate_mesh.Tests.RoutingRuns.{peer, llama, calls, calls-AllNumbers}

abbrev turned : List (Call (Option ℕ))
turned =
    announce 2 (peer 2) llama
    ∷ heartbeat 4 (peer 2) (some 10)
    ∷ announce 1 (peer 1) llama
    ∷ heartbeat 3 (peer 1) (some 90)
    ∷ []

abbrev first : Side (Option ℕ)
first = record { own = peer 0; cfg = default_config; calls = calls; now = 10 }

abbrev second : Side (Option ℕ)
second = record { own = peer 3; cfg = default_config; calls = turned; now = 10 }

apart : (p : PeerId) → peer_eq (peer 1) p ≡ true → peer_eq (peer 2) p ≡ false
apart p h = elim (Bool-cases (peer_eq (peer 2) p)) [
  | inl k ↦ absurd (cc ((peer_eq_iff (peer 1) p).0 h, (peer_eq_iff (peer 2) p).0 k))
  | inr k ↦ k
]

heard_alike :
    (p : PeerId)
    → (names p calls ≡ names p turned)
      × (times p calls ≡ times p turned)
      × (loads p calls ≡ loads p turned)
heard_alike p = elim (Bool-cases (peer_eq (peer 1) p)) [
  | inl h ↦ rw h (rw (apart p h) (refl, refl, refl))
  | inr h ↦ rw h (refl, refl, refl)
]

first-SameNews : SameNews whole llama first second
first-SameNews = record {
  serves = λ p n m. (
    λ c. record {
      announced = rw (← (heard_alike p).0) c.announced;
      recent = rw (← (heard_alike p).1) c.recent;
    },
    λ c. record {
      announced = rw (heard_alike p).0 c.announced;
      recent = rw ((heard_alike p).1) c.recent;
    },
  );
  load = λ p n m. rw ((heard_alike p).2) refl;
}

first-Picks : Picks whole llama first 0 (peer 2)
unfolding route run apply record_announce record_heartbeat text_eq bytes_cmp upsert sort_by
    candidate_cmp
first-Picks = refl

second-Picks : Picks whole llama second 0 (peer 2)
unfolding route run apply record_announce record_heartbeat text_eq bytes_cmp upsert sort_by
    candidate_cmp
second-Picks = refl

Picks-agree_example : peer 2 ≡ peer 2
Picks-agree_example =
    Picks-agree whole-IsIeee llama first second 0 0 (peer 2) (peer 2) first-SameNews
      calls-AllNumbers (refl, (refl, tt)) first-Picks second-Picks (λ e. cc e) (λ e. cc e)
