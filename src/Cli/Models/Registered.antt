-- ===== src/Cli/Models/Registered.antt =====
-- Whether `model_push` can be found: what it registers with mDNS, though nothing reads the channel
-- of the peers that it discovers.
use furcate_mesh.Prelude.{
  ℕ, ◌≡◌, refl, true, false, some, List, [], ◌∷◌, arith, length, map, ltb, leb, if◌then◌else◌, ok,
}
use furcate_mesh.Prelude.Text.{Text}
use furcate_mesh.Discovery.{DiscoveredPeer, advertisement, parse_seed}
use furcate_mesh.Discovery.Run.{channel_capacity}
use furcate_mesh.Discovery.Capacity.{registered-run}
use furcate_mesh.Identity.{peer_id as peer_id_of}
use furcate_mesh.Transfer.Serve.{root_hash}
use furcate_mesh.Transfer.Service.{serve}
use furcate_mesh.Transport.{new_transport}
use furcate_mesh.Cli.{listen_url, Libraries, World, Env, listening, identify}
use furcate_mesh.Cli.Models.{unread_discovery, open_service, serving, announce, push_as, model_push}

module _ {K C S Addr Ip H F : Type 0} (lib : Libraries K C S Addr Ip H F) (env : Env K Ip)
    (seeds : List Text) (ps : List (DiscoveredPeer Addr))
    (parsed : map (parse_seed lib.net lib.hex) seeds ≡ map ok ps)
    (starts : env.discovery.starts ≡ true) (valid : env.discovery.info_valid ≡ true)
    (registers : env.discovery.registers ≡ true) where
  -- Where the key, the hash, the session and the queryable are had, mDNS works and every seed
  -- parses, a push that is not for seeds only registers the service of its peer exactly if there
  -- are no more seeds than the channel of discovery takes; with more it registers nothing.
  pub services-model_push :
      (config_dir name path format : Text) (port : ℕ) (w : World) (own : K) (digest : Text)
      (session : S)
      → (identify lib.ed25519 env config_dir w).0 ≡ ok own
      → root_hash lib.blake3 lib.hex env.reads (env.files path) ≡ ok digest
      → new_transport lib.zenoh (listening port) ≡ ok session
      → env.declares ≡ true
      → (model_push lib env config_dir name path format port seeds false w).0.services ≡ (
          if leb (length seeds) channel_capacity
          then advertisement lib.hex (peer_id_of lib.ed25519 own) (listen_url port) port ∷ []
          else [])
  unfolding model_push push_as open_service serve serving announce unread_discovery
  services-model_push config_dir name path format port w own digest session i r t d = ground (
    arith,
    i,
    r,
    t,
    d,
    registered-run lib.net lib.hex (record env.discovery { sends = λ i. ltb i channel_capacity })
        channel_capacity (λ j. refl)
        (record {
          local_peer = some (peer_id_of lib.ed25519 own);
          local_zenoh_url = some (listen_url port);
          port = port;
          seeds = seeds;
          seeds_only = false;
        })
        (peer_id_of lib.ed25519 own) (listen_url port) ps refl refl refl parsed starts valid
        registers,
  )
