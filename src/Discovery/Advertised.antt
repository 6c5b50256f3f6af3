-- ===== src/Discovery/Advertised.antt =====
-- What a peer registers on mDNS, another peer resolves.
use furcate_mesh.Prelude.{ℕ, ◌≡◌, refl, true, none, some, List, ◌∷◌}
use furcate_mesh.Prelude.Text.{Text, text_eq, to_ascii_lowercase}
use furcate_mesh.Core.Hex.{Hex, IsHex}
use furcate_mesh.Core.PeerId.{PeerId, IsPeerId, to_hex}
use furcate_mesh.Core.PeerId.HexForm.{from_hex-to_hex}
use furcate_mesh.Discovery.{Net, advertisement, scan, resolved, resolve_to_peer}

module _ {Addr Ip : Type 0} (net : Net Addr Ip) {hex : Hex} (laws : IsHex hex) where
  scan-advertisement :
      (peer : PeerId) (url : Text) (port : ℕ)
      → scan (advertisement hex peer url port).props (none, none)
        ≡ (some (to_hex hex peer), some url)
  unfolding advertisement scan text_eq to_ascii_lowercase
  scan-advertisement peer url port = refl

  -- A service that carries the properties which a valid peer registers, and that has an address,
  -- resolves to that peer with its URL, at the first address and the port of the service.
  pub resolve-advertisement :
      (peer : PeerId) (url : Text) (port : ℕ) (ip : Ip) (ips : List Ip)
      → IsPeerId peer
      → resolve_to_peer net hex (record {
        txt_properties = (advertisement hex peer url port).props;
        addresses = ip ∷ ips;
        port = port;
      })
        ≡ some (record {
          peer = peer;
          addr = net.socket_addr ip port;
          zenoh_url = url;
          via_mdns = true;
        })
  unfolding resolve_to_peer resolved
  resolve-advertisement peer url port ip ips v =
      rw (scan-advertisement peer url port) (rw (from_hex-to_hex laws peer v, resolved) refl)
