-- ===== src/Tests/CliRuns.antt =====
-- crates/furcate-mesh-cli: runs, and its theorems at concrete inputs.
use furcate_mesh.Prelude.{
  ◌≤◌, arith, ℕ, ◌*◌, ◌^◌, ◌≡◌, ◌↔◌, refl, true, none, some, List, [], ◌∷◌, ◌++◌, map, Member,
  replicate, ok, if◌then◌else◌,
}
use furcate_mesh.Prelude.Text.{Bytes, Text, codes, text_eq}
use furcate_mesh.Prelude.Text.Decimal.{decimal, digits}
use furcate_mesh.Prelude.Equality.{text_eq_instance}
use furcate_mesh.Prelude.Text.{bytes_cmp}
use furcate_mesh.Prelude.SortedMap.{insert}
use furcate_mesh.Core.PeerId.{PeerId, from_bytes, display, to_hex}
use furcate_mesh.Core.Clock.{HybridLogicalClock}
use furcate_mesh.Cli.Watch.{
  Peers, Models, peers_heading, print_peers, peer_row, deadline_of, watch, note_heartbeat, as_secs,
  peer_ord, model_ord,
}
use furcate_mesh.Cli.Watch.Latest.{IsLatest, heard}
use furcate_mesh.Cli.Peers.{peers_list, peers_seen}
use furcate_mesh.Cli.Watch.Printed.{Ascending, id_order, model_order, peers_table, models_table}
use furcate_mesh.Cli.Peers.Seen.{beat, arrived, peers_list_lem}
use furcate_mesh.Cli.Models.{model_list}
use furcate_mesh.Cli.Models.Listed.{announced, untimed, model_list_lem}
use furcate_mesh.Identity.{save, store, load_or_generate}
use furcate_mesh.Transport.{
  Zenoh, new_transport, set_endpoints, Sample, subscribe, forward_samples, decode_sample,
}
use furcate_mesh.Discovery.Run.{Env as DiscoveryEnv}
use furcate_mesh.Cli.{nothing, Libraries, World, Env, identify, listening}
use furcate_mesh.Tests.Codecs.{encode, plain_hex, plain_hash, plain_codec}
use furcate_mesh.Tests.Codecs.Events.{field, split, from_slice, plain_events}
use furcate_mesh.Tests.DiscoveryRuns.{net}
use furcate_mesh.Tests.IdentityRuns.{plain_ed, calm}
use furcate_mesh.Tests.TransferRuns.{two_bytes, content, digest}
use furcate_mesh.Tests.TransferRuns.{calm as calm_pull}

-- a session is the list of the settings that were made
abbrev pub plain_zenoh : Zenoh (List Text) (List Text)
plain_zenoh = record {
  default_value = [];
  insert_json5 = λ key json c. some (key ∷ json ∷ c);
  open_session = λ c. some c;
  to_string = λ urls. some [];
}

abbrev pub lib : Libraries Text (List Text) (List Text) Text ℕ Bytes ℕ
lib = record {
  ed25519 = plain_ed;
  zenoh = plain_zenoh;
  net = net;
  hex = plain_hex;
  blake3 = plain_hash;
  headers = plain_codec;
  events = plain_events;
  two_decimals = decimal;
  zero_load = 0;
}

abbrev silence : DiscoveryEnv ℕ
silence = record {
  sends = λ i. true;
  starts = true;
  info_valid = true;
  registers = true;
  browses = true;
  events = [];
}

-- one turn a second
abbrev pub env : List Sample → List Text → Env Text ℕ
env samples queries = record {
  key_file = calm;
  fresh = replicate 32 1;
  free_port = some 4000;
  subscribes = true;
  declares = true;
  puts = λ i. true;
  samples = samples;
  started = 0;
  clock = λ i. i * 10 ^ 9;
  last_instant = 2 ^ 64;
  wall = λ i. some (i * 1000);
  discovery = silence;
  ticks = 2;
  ctrl_c = true;
  files = λ path. if text_eq path (codes "m.gguf") then some content else none;
  reads = two_bytes;
  queries = queries;
  sends = λ o. true;
  pulls = calm_pull [];
  stats = true;
}

abbrev pub empty_world : World
empty_world = record { keys = λ dir. none; caches = λ dir. [] }

abbrev pub dir : Text
dir = codes "/home/a"

in_decimal : decimal 7447 ≡ codes "7447"
unfolding decimal digits
in_decimal = refl

abbrev clock : HybridLogicalClock
clock = record { wall_ms = 5; counter = 0 }

abbrev who : ℕ → PeerId
who b = from_bytes (replicate 32 b)

-- heartbeats of two peers, one that says its load twice, with noise between them; and an
-- announcement
abbrev beat_of : ℕ → ℕ → Sample
beat_of b load = (codes "k", 0 ∷ 5 ∷ 0 ∷ load ∷ replicate 32 b)

abbrev announce_of : ℕ → Sample
announce_of b = (
  codes "k",
  1 ∷ 5 ∷ 0 ∷ field (codes "m") (field digest (field (codes "gguf") (replicate 32 b))),
)

abbrev pub beats : List Sample
beats = beat_of 2 7 ∷ (codes "k", []) ∷ beat_of 1 8 ∷ beat_of 2 9 ∷ announce_of 1 ∷ beat_of 3 4 ∷ []

abbrev pub new_key : Text
new_key = replicate 32 1

pub identified : (identify plain_ed (env beats []) dir empty_world).0 ≡ ok new_key
unfolding identify load_or_generate save store
identified = refl

pub opens :
    new_transport plain_zenoh (listening 4000)
    ≡ ok (codes "listen/endpoints" ∷ [] ∷ codes "mode" ∷ codes "\"peer\"" ∷ [])
unfolding new_transport set_endpoints
opens = refl

ends_at : 4 * 10 ^ 9 ≤ 2 ^ 64
ends_at = omega arith

-- the last heartbeat comes after four seconds
table :
    (peers_list lib (env beats []) dir 4 empty_world).0.printed
    ≡ peers_heading
      ∷ (encode (replicate 32 1) ++ codes "  8  2")
      ∷ (encode (replicate 32 2) ++ codes "  9  3")
      ∷ []
unfolding peers_list peers_seen identify load_or_generate save store new_transport set_endpoints
    subscribe forward_samples decode_sample from_slice split deadline_of watch note_heartbeat insert
    bytes_cmp print_peers peer_row display to_hex encode decimal digits as_secs
table = refl

peers_list_lem_example :
    (seen : Peers ℕ) × ((peers_list lib (env beats []) dir 4 empty_world).0
      ≡ record nothing { printed = peers_table plain_hex decimal 4 seen })
    × Ascending id_order seen
    × ((p : PeerId) (row : ℕ × ℕ)
        → (Member (p, row) seen)
          ↔ IsLatest beat (arrived (env beats []).wall) 0 p row (
              heard
                (env beats []).clock
                (4 * 10 ^ 9)
                0
                (map (decode_sample plain_hex plain_events) beats)))
peers_list_lem_example =
    peers_list_lem lib (env beats []) dir 4 empty_world 4000 new_key _ refl identified opens refl
      ends_at

model_list_lem_example :
    (seen : Models) × ((model_list lib (env beats []) dir 4 empty_world).0
      ≡ record nothing { printed = models_table plain_hex 4 seen })
    × Ascending model_order seen
    × ((source : PeerId × Text) (row : Text × Text)
        → (Member (source, row) seen)
          ↔ IsLatest announced untimed 0 source row (
              heard
                (env beats []).clock
                (4 * 10 ^ 9)
                0
                (map (decode_sample plain_hex plain_events) beats)))
model_list_lem_example =
    model_list_lem lib (env beats []) dir 4 empty_world 4000 new_key _ refl identified opens refl
      ends_at
