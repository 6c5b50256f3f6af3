-- ===== src/Core/Config.antt =====
-- `MeshConfig` and `MeshError` of crates/furcate-mesh-core/src/lib.rs.
use furcate_mesh.Prelude.{ℕ}
use furcate_mesh.Prelude.Text.{Text, codes}

pub record MeshConfig : Type 0 where
  pub heartbeat_interval_secs : ℕ
  pub peer_dead_after_secs : ℕ
  pub max_hops : ℕ
  pub mdns_domain : Text

abbrev pub default_config : MeshConfig
default_config = record {
  heartbeat_interval_secs = 5;
  peer_dead_after_secs = 30;
  max_hops = 1;
  mdns_domain = codes "local.";
}
