-- ===== src/Tests/DiscoveryRuns.antt =====
-- crates/furcate-mesh-discovery: runs, and its theorems at concrete inputs.
use furcate_mesh.Prelude.{
  ℕ, ◌≡◌, ◌↔◌, refl, true, false, none, some, List, [], ◌∷◌, ◌++◌, map, arith, replicate, All, ok,
  err, if◌then◌else◌,
}
use furcate_mesh.Prelude.Text.{Text, codes, text_eq}
use furcate_mesh.Core.PeerId.{PeerId, IsPeerId, from_bytes, from_hex}
use furcate_mesh.Discovery.{
  Net, bad_seed, no_at, DiscoveredPeer, DiscoveryConfig, ResolvedService, split_once, split_url,
  parse_addr, parse_seed, advertisement, resolve_to_peer,
}
use furcate_mesh.Discovery.Run.{service_resolved, other_event, Env, run}
use furcate_mesh.Discovery.Seed.{IsSeed, parse_seed_iff}
use furcate_mesh.Discovery.Advertised.{resolve-advertisement}
use furcate_mesh.Discovery.Genuine.{IsGenuine, run-IsGenuine}
use furcate_mesh.Discovery.Delivered.{IsFaultless, announced, Foreign, run_faultless, run_bad_seed}
use furcate_mesh.Tests.Codecs.{encode, decode, plain_hex, plain_hex-IsHex}

-- addresses as their text
abbrev pub net : Net Text ℕ
net = record {
  parse = λ s. if text_eq s (codes "bad") then none else some s;
  socket_addr = λ ip port. ip ∷ port ∷ [];
}

abbrev pub peer : ℕ → PeerId
peer b = from_bytes (replicate 32 b)

abbrev pub url : Text
url = codes "tcp/10.0.0.5:7447"

peer_valid : IsPeerId (peer 171)
peer_valid = omega arith

-- the text of 32 bytes 0xab
abbrev pub hex_ab : Text
hex_ab = encode (replicate 32 171)

abbrev pub seed : Text
seed = hex_ab ++ codes "@10.0.0.5:7447"

abbrev pub seeded : DiscoveredPeer Text
seeded = record { peer = peer 171; addr = codes "10.0.0.5:7447"; zenoh_url = url; via_mdns = false }

pub seed_parses : parse_seed net plain_hex seed ≡ ok seeded
unfolding parse_seed parse_addr split_once split_url encode decode from_hex text_eq
seed_parses = refl

seed_without_at : parse_seed net plain_hex (codes "nobody") ≡ err (bad_seed (codes "nobody") no_at)
unfolding parse_seed split_once
seed_without_at = refl

parse_seed_iff_example :
    (parse_seed net plain_hex seed ≡ ok seeded)
    ↔ (IsPeerId seeded.peer × (seeded.via_mdns ≡ false) × IsSeed net plain_hex seeded seed)
parse_seed_iff_example = parse_seed_iff net plain_hex-IsHex seeded seed

abbrev service : ResolvedService ℕ
service = record {
  txt_properties = (advertisement plain_hex (peer 171) url 7447).props;
  addresses = 5 ∷ [];
  port = 7447;
}

abbrev resolved_peer : DiscoveredPeer Text
resolved_peer = record { peer = peer 171; addr = 5 ∷ 7447 ∷ []; zenoh_url = url; via_mdns = true }

resolve-advertisement_example : resolve_to_peer net plain_hex service ≡ some resolved_peer
resolve-advertisement_example =
    resolve-advertisement net plain_hex-IsHex (peer 171) url 7447 5 [] peer_valid

abbrev env : Env ℕ
env = record {
  sends = λ i. true;
  starts = true;
  info_valid = true;
  registers = true;
  browses = true;
  events = other_event ∷ service_resolved service ∷ [];
}

abbrev config : List Text → DiscoveryConfig
config seeds = record {
  local_peer = some (peer 1);
  local_zenoh_url = some url;
  port = 7447;
  seeds = seeds;
  seeds_only = false;
}

env-IsFaultless : IsFaultless net plain_hex env
env-IsFaultless = record {
  sends = λ j. refl;
  starts = refl;
  info_valid = refl;
  registers = refl;
  browses = refl;
}

run-IsGenuine_example :
    All
      (IsGenuine net plain_hex (some (peer 1)) (seed ∷ []) env.events)
      (run net plain_hex env (config (seed ∷ []))).sent
run-IsGenuine_example = run-IsGenuine net plain_hex env (config (seed ∷ []))

seeds_parse : map (parse_seed net plain_hex) (seed ∷ []) ≡ map ok (seeded ∷ [])
seeds_parse = rw seed_parses refl

run_faultless_example :
    ((run net plain_hex env (config (seed ∷ []))).answer ≡ ok tt)
    × (qs : List (DiscoveredPeer Text)) × Foreign net plain_hex
        (some (peer 1))
        (announced net plain_hex env.events)
        qs
    × ((run net plain_hex env (config (seed ∷ []))).sent
        ≡ (seeded ∷ []) ++ (if (config (seed ∷ [])).seeds_only then [] else qs))
run_faultless_example =
    run_faultless net plain_hex env (config (seed ∷ [])) (seeded ∷ []) env-IsFaultless seeds_parse

run_bad_seed_example :
    run net plain_hex env (config (seed ∷ codes "nobody" ∷ []))
    ≡ record { sent = seeded ∷ []; registered = []; answer = err (bad_seed (codes "nobody") no_at) }
run_bad_seed_example =
    run_bad_seed net plain_hex env (config (seed ∷ codes "nobody" ∷ [])) (seed ∷ []) []
      (codes "nobody") (seeded ∷ []) (bad_seed (codes "nobody") no_at) (λ j. refl) refl seeds_parse
      seed_without_at
