-- ===== src/Core.antt =====
-- crates/furcate-mesh-core: the data types that every other crate shares.
pub mod Hex
pub mod PeerId
pub mod Clock
pub mod Float
pub mod Config
pub mod Event
pub mod Extensions
pub mod Base64
pub mod Wire
