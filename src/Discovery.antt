-- ===== src/Discovery.antt =====
-- crates/furcate-mesh-discovery/src/lib.rs: peers found by mDNS or named in a seed list. `Addr` and
-- `Ip` stand for `SocketAddr` and `IpAddr`; mDNS and the consumer of the channel are arguments.
pub mod Seed
pub mod Advertised
pub mod Run
pub mod Genuine
pub mod Delivered
pub mod Capacity
use furcate_mesh.Prelude.{
  ℕ, suc, Bool, true, false, not, Option, none, some, List, [], ◌∷◌, ◌++◌, map, ◌==◌, Result, ok,
  err, ok_or, map_err, to_option, ◌>>=◌, if◌then◌else◌,
}
use furcate_mesh.Prelude.Text.{Text, codes, text_eq, to_ascii_lowercase}
use furcate_mesh.Core.Hex.{Hex}
use furcate_mesh.Core.PeerId.{PeerId, PeerIdError, peer_eq, to_hex, short, from_hex}

abbrev pub service_type : Text
service_type = codes "_furcate-mesh._tcp.local."

-- Why a seed entry does not parse.
pub data SeedReason : Type 0 where
  no_at : SeedReason
  bad_peer : PeerIdError → SeedReason
  not_a_socket_addr : SeedReason

pub data DiscoveryError : Type 0 where
  mdns : DiscoveryError
  io : DiscoveryError
  bad_seed : (entry : Text) (reason : SeedReason) → DiscoveryError

-- `SocketAddr::from_str` and `SocketAddr::new`
pub record Net (Addr Ip : Type 0) : Type 0 where
  pub parse : Text → Option Addr
  pub socket_addr : Ip → ℕ → Addr

pub record DiscoveredPeer (Addr : Type 0) : Type 0 where
  pub peer : PeerId
  pub addr : Addr
  pub zenoh_url : Text
  pub via_mdns : Bool

pub record DiscoveryConfig : Type 0 where
  pub local_peer : Option PeerId
  pub local_zenoh_url : Option Text
  pub port : ℕ
  pub seeds : List Text
  pub seeds_only : Bool

-- What `ServiceInfo::new` is given; the host's addresses are found by the daemon.
pub record ServiceInfo : Type 0 where
  pub type_domain : Text
  pub instance_name : Text
  pub host : Text
  pub port : ℕ
  pub props : List (Text × Text)

pub record ResolvedService (Ip : Type 0) : Type 0 where
  pub txt_properties : List (Text × Text)
  pub addresses : List Ip
  pub port : ℕ

-- `str::split_once`, at the first occurrence
unfoldable pub split_once : ℕ → Text → Option (Text × Text)
split_once sep [] = none
split_once sep (c ∷ s) =
    if c == sep
    then some ([], s)
    else elim (split_once sep s) [ none ↦ none | some (a, b) ↦ some (c ∷ a, b) ]

-- `rest.split_once('/').map_or((rest, None), …)`
unfoldable pub split_url : Text → Text × Option Text
split_url rest = elim (split_once b'/' rest) [ none ↦ (rest, none) | some (hp, zu) ↦ (hp, some zu) ]

-- The properties named `peer` and `zenoh`, in any case; the last of a name counts.
unfoldable pub scan : List (Text × Text) → Option Text × Option Text → Option Text × Option Text
scan [] found = found
scan ((key, val) ∷ ps) (peer_hex, zenoh_url) =
    let name = map to_ascii_lowercase key in
    scan ps (
      if text_eq name (codes "peer")
      then (some val, zenoh_url)
      else if text_eq name (codes "zenoh")
      then (peer_hex, some val)
      else (peer_hex, zenoh_url))

-- What `register_local` registers.
unfoldable pub advertisement : Hex → PeerId → Text → ℕ → ServiceInfo
advertisement hex local_peer zenoh_url port =
    let instance_name = codes "furcate-" ++ short hex local_peer in
    record {
      type_domain = service_type;
      instance_name = instance_name;
      host = instance_name ++ codes ".local.";
      port = port;
      props = (codes "peer", to_hex hex local_peer) ∷ (codes "zenoh", zenoh_url) ∷ [];
    }

module _ {Addr Ip : Type 0} (net : Net Addr Ip) (hex : Hex) where
  -- From the address and the URL on.
  unfoldable pub parse_addr :
      Text → PeerId → Text × Option Text → Result DiscoveryError (DiscoveredPeer Addr)
  parse_addr entry peer (host_port, zenoh_url_opt) = do
    addr ← ok_or (net.parse host_port) (bad_seed entry not_a_socket_addr)
    ok (record {
      peer = peer;
      addr = addr;
      zenoh_url = elim zenoh_url_opt [ some url ↦ url | none ↦ codes "tcp/" ++ host_port ];
      via_mdns = false;
    })

  unfoldable pub parse_seed : Text → Result DiscoveryError (DiscoveredPeer Addr)
  unfolding parse_addr split_url
  parse_seed entry = do
    split ← ok_or (split_once b'@' entry) (bad_seed entry no_at)
    peer ← map_err (λ e. bad_seed entry (bad_peer e)) (from_hex hex split.0)
    parse_addr entry peer (split_url split.1)

  -- From the properties found.
  unfoldable pub resolved :
      ResolvedService Ip → Option Text × Option Text → Option (DiscoveredPeer Addr)
  resolved svc (none, _) = none
  resolved svc (some peer_hex, none) = none
  resolved svc (some peer_hex, some zenoh_url) = elim (to_option (from_hex hex peer_hex)) [
    | none ↦ none
    | some peer ↦ elim svc.addresses [
      | [] ↦ none
      | ip ∷ _ ↦ some (record {
        peer = peer;
        addr = net.socket_addr ip svc.port;
        zenoh_url = zenoh_url;
        via_mdns = true;
      })
    ]
  ]

  unfoldable pub resolve_to_peer : ResolvedService Ip → Option (DiscoveredPeer Addr)
  unfolding resolved
  resolve_to_peer svc = resolved svc (scan svc.txt_properties (none, none))
