-- ===== src/Core/Extensions.antt =====
-- The data types of crates/furcate-mesh-core/src/extensions.rs and `MeshError` of lib.rs. The traits
-- `DiscoveryBackend` and `WorkBroker` are records of their methods; the repository implements neither.
use furcate_mesh.Prelude.{ℕ, Option, List, Result}
use furcate_mesh.Prelude.Text.{Bytes, Text}
use furcate_mesh.Core.PeerId.{PeerId}

pub record PeerAnnouncement : Type 0 where
  pub peer : PeerId
  pub endpoint : Option Text
  pub labels : List Text

pub data BackendError : Type 0 where
  setup terminated : (message : Text) → BackendError

-- the items of a stream, in order
abbrev pub AnnouncementStream : Type 0
AnnouncementStream = List (Result BackendError PeerAnnouncement)

pub record DiscoveryBackend : Type 0 where
  pub start : Result BackendError AnnouncementStream

pub record WorkOffer : Type 0 where
  pub work_type : Text
  pub request : Bytes
  pub max_price : Option ℕ
  pub deadline_secs : Option ℕ

pub data WorkOutcome : Type 0 where
  completed : (response : Bytes) (executor : PeerId) → WorkOutcome
  failed refused : (reason : Text) → WorkOutcome

pub data WorkBrokerError : Type 0 where
  unreachable transient broker_failed : (message : Text) → WorkBrokerError

pub record WorkBroker : Type 0 where
  pub offer : WorkOffer → Result WorkBrokerError WorkOutcome

pub data MeshError : Type 0 where
  identity discovery transport transfer config encoding : (message : Text) → MeshError
  io : MeshError
