-- ===== src/Cli/Peers/Listed.antt =====
-- `peer_up` on one machine and `peers_list` on another.
use furcate_mesh.Prelude.{
  ℕ, ◌+◌, ◌*◌, ◌^◌, ◌≤◌, ◌≡◌, refl, true, some, Bool, List, map, ◌++◌, Member, ok,
}
use furcate_mesh.Prelude.Text.{Text, codes}
use furcate_mesh.Prelude.Text.Decimal.{decimal}
use furcate_mesh.Identity.{peer_id as peer_id_of}
use furcate_mesh.Transport.{IsEventCodec, Sample, decode_sample, new_transport}
use furcate_mesh.Cli.{World, Libraries, Env, listening, identify}
use furcate_mesh.Cli.Watch.{peer_ord}
use furcate_mesh.Cli.Watch.Printed.{peer_line, Member-table}
use furcate_mesh.Cli.Watch.Latest.{heard, IsLatest-of_Member}
use furcate_mesh.Cli.Peers.{peer_up, peers_list}
use furcate_mesh.Cli.Peers.Seen.{beat, arrived, peers_list_lem}
use furcate_mesh.Cli.Peers.Put.{peer_up-IsBeat}

module _ {K C S Addr Ip H F : Type 0} (lib : Libraries K C S Addr Ip H F)
    (json : IsEventCodec lib.events) where
  -- A peer that is up is listed: where `peer up` has a key, `peers` has a key, a port, a session,
  -- a subscription and a deadline that is an `Instant`, and one of the samples that `peer up` puts
  -- is heard by `peers` before that deadline, `peers` prints a line that begins with the public
  -- key of that peer in hexadecimal, followed by some load and some second.
  pub peers_list-peer_up :
      (host : Env K Ip) (host_dir : Text) (seeds : List Text) (seeds_only : Bool)
      (host_port heartbeat_secs : ℕ) (host_world : World) (key : K) (s : Sample) (env : Env K Ip)
      (config_dir : Text) (for_secs : ℕ) (w : World) (port : ℕ) (own : K) (session : S)
      → (identify lib.ed25519 host host_dir host_world).0 ≡ ok key
      → Member s
          (peer_up lib host host_dir seeds seeds_only host_port heartbeat_secs host_world).0.put
      → env.free_port ≡ some port
      → (identify lib.ed25519 env config_dir w).0 ≡ ok own
      → new_transport lib.zenoh (listening port) ≡ ok session
      → env.subscribes ≡ true
      → env.started + for_secs * 10 ^ 9 ≤ env.last_instant
      → Member (decode_sample lib.hex lib.events s) (
          heard env.clock
            (env.started + for_secs * 10 ^ 9)
            0
            (map (decode_sample lib.hex lib.events) env.samples))
      → (load : F) × (secs : ℕ) × Member
          (lib.hex.encode (lib.ed25519.verifying_key key)
            ++ (codes "  " ++ (lib.two_decimals load ++ (codes "  " ++ decimal secs))))
          (peers_list lib env config_dir for_secs w).0.printed
  unfolding peer_id_of
  peers_list-peer_up host host_dir seeds seeds_only host_port heartbeat_secs host_world key s env
        config_dir for_secs w port own session hk put hp hi ht hs fits listened =
      let (j, decoded) =
        peer_up-IsBeat lib json host host_dir seeds seeds_only host_port heartbeat_secs host_world
          key s hk put in
      let items =
        heard env.clock (env.started + for_secs * 10 ^ 9) 0
          (map (decode_sample lib.hex lib.events) env.samples) in
      let (seen, prints, sorted, entries) =
        peers_list_lem lib env config_dir for_secs w port own session hp hi ht hs fits in
      let (row, last) =
        IsLatest-of_Member beat (arrived env.wall) 0 (peer_id_of lib.ed25519 key) lib.zero_load
          (decode_sample lib.hex lib.events s) items listened (rw decoded refl) in
      (
        row.0,
        row.1,
        rw prints (
            Member-table _ _ (peer_line lib.hex lib.two_decimals) (peer_id_of lib.ed25519 key, row)
              seen ((entries (peer_id_of lib.ed25519 key) row).1 last)),
      )
