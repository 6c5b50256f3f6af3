-- ===== src/Tests/Codecs/Events.antt =====
-- A codec of heartbeats and announcements: a field of text ends with a zero.
use furcate_mesh.Prelude.{ℕ, zero, suc, ◌≡◌, refl, Option, none, some, [], ◌∷◌}
use furcate_mesh.Prelude.Text.{Bytes, Text}
use furcate_mesh.Core.PeerId.{from_bytes}
use furcate_mesh.Core.Event.{
  MeshEvent, heartbeat, model_announce, work_offer, work_result, agent_state, sensor_reading,
  command, attestation, ota_offer, ota_status,
}
use furcate_mesh.Transport.{EventCodec, IsEventCodec}

unfoldable pub field : Text → Bytes → Bytes
field [] rest = 0 ∷ rest
field (c ∷ s) rest = suc c ∷ field s rest

unfoldable pub split : Bytes → Option (Text × Bytes)
split [] = none
split (zero ∷ rest) = some ([], rest)
split (suc c ∷ rest) = elim (split rest) [ none ↦ none | some (s, more) ↦ some (c ∷ s, more) ]

split-field : (s : Text) (rest : Bytes) → split (field s rest) ≡ some (s, rest)
unfolding split field
split-field [] rest = refl
split-field (c ∷ s) rest = rw (split-field s rest) refl

unfoldable pub to_vec : MeshEvent ℕ → Option Bytes
unfolding field
to_vec (heartbeat p c load) = some (0 ∷ c.wall_ms ∷ c.counter ∷ load ∷ p.key)
to_vec (model_announce p c name digest format) =
    some (1 ∷ c.wall_ms ∷ c.counter ∷ field name (field digest (field format p.key)))
to_vec _ = none

unfoldable pub from_slice : Bytes → Option (MeshEvent ℕ)
unfolding split
from_slice (zero ∷ wall ∷ counter ∷ load ∷ key) =
    some (heartbeat (from_bytes key) (record { wall_ms = wall; counter = counter }) load)
from_slice (suc zero ∷ wall ∷ counter ∷ rest) = elim (split rest) [
  | none ↦ none
  | some (name, a) ↦ elim (split a) [
    | none ↦ none
    | some (digest, b) ↦ elim (split b) [
      | none ↦ none
      | some (format, key) ↦ some (
          model_announce (from_bytes key) (record { wall_ms = wall; counter = counter }) name digest
            format)
    ]
  ]
]
from_slice _ = none

round_trip : (e : MeshEvent ℕ) (b : Bytes) → to_vec e ≡ some b → from_slice b ≡ some e
unfolding to_vec from_slice
round_trip (heartbeat p c load) b h =
    let same : 0 ∷ c.wall_ms ∷ c.counter ∷ load ∷ p.key ≡ b = cc in rw (← same) refl
round_trip (model_announce p c n d f) b h =
    let same : 1 ∷ c.wall_ms ∷ c.counter ∷ field n (field d (field f p.key)) ≡ b = cc in
    rw (← same) (
      rw
        (
          from_slice,
          split-field n (field d (field f p.key)),
          split-field d (field f p.key),
          split-field f p.key,
        )
        refl)
round_trip (work_offer from to r hops) b h = cc
round_trip (work_result from to r) b h = cc
round_trip (agent_state p c a s) b h = cc
round_trip (sensor_reading p c s m v u r) b h = cc
round_trip (command to c v ps) b h = cc
round_trip (attestation p c f e) b h = cc
round_trip (ota_offer to c i v u s z) b h = cc
round_trip (ota_status p c i s d) b h = cc

abbrev pub plain_events : EventCodec ℕ
plain_events = record { to_vec = to_vec; from_slice = from_slice }

pub plain_events-IsEventCodec : IsEventCodec plain_events
plain_events-IsEventCodec = record { round_trip = round_trip }
