-- ===== src/Core/Event.antt =====
-- `MeshEvent` of crates/furcate-mesh-core/src/lib.rs, its fields in the source's order. `F` stands
-- for f64, and `bytes::Bytes` is a byte string.
use furcate_mesh.Prelude.{ℕ, Option}
use furcate_mesh.Prelude.Text.{Bytes, Text}
use furcate_mesh.Core.PeerId.{PeerId}
use furcate_mesh.Core.Clock.{HybridLogicalClock}

pub data MeshEvent (F : Type 0) : Type 0 where
  heartbeat : (peer : PeerId) (clock : HybridLogicalClock) (load : F) → MeshEvent F
  model_announce :
      (peer : PeerId) (clock : HybridLogicalClock) (model_name digest_blake3 format : Text)
      → MeshEvent F
  work_offer : (from to : PeerId) (request : Bytes) (hops : ℕ) → MeshEvent F
  work_result : (from to : PeerId) (response : Bytes) → MeshEvent F
  agent_state :
      (peer : PeerId) (clock : HybridLogicalClock) (agent_id : Text) (state : Bytes) → MeshEvent F
  sensor_reading :
      (peer : PeerId) (clock : HybridLogicalClock) (sensor_id metric : Text) (value : F)
      (unit : Text) (raw : Option Bytes)
      → MeshEvent F
  command : (to : PeerId) (clock : HybridLogicalClock) (verb : Text) (params : Bytes) → MeshEvent F
  attestation :
      (peer : PeerId) (clock : HybridLogicalClock) (format : Text) (evidence : Bytes) → MeshEvent F
  ota_offer :
      (to : PeerId) (clock : HybridLogicalClock) (image_id : Text) (version : ℕ) (url sha256 : Text)
      (size : ℕ)
      → MeshEvent F
  ota_status :
      (peer : PeerId) (clock : HybridLogicalClock) (image_id state detail : Text) → MeshEvent F
