-- ===== src/Tests/TransportRuns.antt =====
-- crates/furcate-mesh-transport: runs, and its theorems at concrete inputs.
use furcate_mesh.Prelude.{
  Bool, ℕ, ◌≡◌, ◌↔◌, refl, Option, none, some, [], ◌∷◌, ◌++◌, replicate, arith,
}
use furcate_mesh.Prelude.Text.{Bytes, Text, codes}
use furcate_mesh.Core.PeerId.{PeerId, IsPeerId, from_bytes}
use furcate_mesh.Core.Clock.{HybridLogicalClock}
use furcate_mesh.Core.Event.{MeshEvent, heartbeat, model_announce}
use furcate_mesh.Transport.{EventCodec, Sample, key_for}
use furcate_mesh.Transport.Keys.{Topic, is_heartbeat, is_model, key_for_iff}
use furcate_mesh.Transport.Matching.{chunks, glob}
use furcate_mesh.Tests.Codecs.{encode, plain_hex, plain_hex-IsHex}

abbrev peer : PeerId
peer = from_bytes (replicate 32 187)

peer_valid : IsPeerId peer
peer_valid = omega arith

abbrev clock : HybridLogicalClock
clock = record { wall_ms = 5; counter = 0 }

abbrev beat : MeshEvent ℕ
beat = heartbeat peer clock 7

abbrev llama : MeshEvent ℕ
llama = model_announce peer clock (codes "llama") (codes "00") (codes "gguf")

abbrev beat_topic : Topic
beat_topic = record { peer = peer; kind = is_heartbeat; name = [] }

abbrev llama_topic : Topic
llama_topic = record { peer = peer; kind = is_model; name = codes "llama" }

key_for_iff_example :
    (key_for plain_hex beat ≡ key_for plain_hex llama) ↔ (beat_topic ≡ llama_topic)
key_for_iff_example =
    key_for_iff plain_hex-IsHex beat llama beat_topic llama_topic refl refl peer_valid peer_valid

-- a codec of heartbeats alone
plain_to_vec : MeshEvent ℕ → Option Bytes
plain_to_vec (heartbeat p c load) = some (c.wall_ms ∷ c.counter ∷ load ∷ p.key)
plain_to_vec _ = none

plain_from_slice : Bytes → Option (MeshEvent ℕ)
plain_from_slice (a ∷ b ∷ load ∷ key) =
    some (heartbeat (from_bytes key) (record { wall_ms = a; counter = b }) load)
plain_from_slice _ = none

abbrev plain_json : EventCodec ℕ
plain_json = record { to_vec = plain_to_vec; from_slice = plain_from_slice }

-- a heartbeat, a sample that is no event, and the heartbeat again
abbrev sample : Sample
sample = (codes "furcate/mesh/" ++ (encode peer.key ++ codes "/heartbeat"), 5 ∷ 0 ∷ 7 ∷ peer.key)

abbrev noise : Sample
noise = (codes "furcate/mesh/x/heartbeat", 1 ∷ [])

-- Zenoh's matching as it is documented
abbrev matches : (expr key : Text) → Bool
matches expr key = glob (chunks expr) (chunks key)
