-- ===== src/Cli/Peers.antt =====
-- `peer_id`, `peers_list` and `peer_up`.
pub mod Seen
pub mod Put
pub mod Listed
use furcate_mesh.Prelude.{
  ℕ, zero, suc, Bool, true, false, Option, none, some, List, [], ◌∷◌, ◌++◌, ◌==◌, Result, ok, err,
  map_err, ok_or, ◌>>=◌, ◌>>◌, if◌then◌else◌,
}
use furcate_mesh.Prelude.Text.{Text}
use furcate_mesh.Core.PeerId.{PeerId, display}
use furcate_mesh.Core.Clock.{now}
use furcate_mesh.Core.Event.{MeshEvent, heartbeat}
use furcate_mesh.Discovery.{DiscoveryConfig}
use furcate_mesh.Discovery.Run.{run}
use furcate_mesh.Identity.{peer_id as peer_id_of}
use furcate_mesh.Transport.{
  TransportError, encoding, Sample, publish, subscribe, new_transport, sub_all_heartbeats,
}
use furcate_mesh.Cli.{
  Failure, bind, session, subscription, panic, signal, Output, nothing, failed, World, Libraries,
  Env, listen_url, listening, identify,
}
use furcate_mesh.Cli.Watch.{deadline_of, watch, note_heartbeat, print_peers, Peers}

module _ {K C S Addr Ip H F : Type 0} (lib : Libraries K C S Addr Ip H F) where
  unfoldable pub peer_id : Env K Ip → Text → World → Output × World
  peer_id env config_dir w =
      let (known, left) = identify lib.ed25519 env config_dir w in
      (
        elim known [
          | err e ↦ failed e
          | ok self ↦ record nothing {
            printed = display lib.hex (peer_id_of lib.ed25519 self) ∷ [];
          }
        ],
        left,
      )

  -- What `Zenoh` puts for an event; the two events of the binary have keys.
  unfoldable pub put_event : Bool → MeshEvent F → Option Sample × Result TransportError (Unit {0})
  put_event puts event = elim (publish lib.hex lib.events puts event) [
    | none ↦ (none, err encoding)
    | some done ↦ done
  ]

  -- The heartbeat loop, `i` ticks done, for the `ticks` that remain until Ctrl-C.
  heartbeats : Env K Ip → PeerId → (i ticks : ℕ) → List Sample
  unfolding put_event
  heartbeats env own i zero = []
  heartbeats env own i (suc ticks) =
      let rest = heartbeats env own (suc i) ticks in
      elim (put_event (env.puts i) (heartbeat own (now (env.wall i)) lib.zero_load)).0 [
        | none ↦ rest
        | some sample ↦ sample ∷ rest
      ]

  -- The task of the heartbeat: `tokio::time::interval` panics on a period of zero.
  unfoldable pub heartbeat_task : Env K Ip → PeerId → (heartbeat_secs : ℕ) → List Sample
  unfolding heartbeats
  heartbeat_task env own heartbeat_secs =
      if heartbeat_secs == 0 then [] else heartbeats env own 0 env.ticks

  -- From the opening of the transport. The receiver of discovered peers is read until Ctrl-C.
  up_as : Env K Ip → List Text → Bool → (port heartbeat_secs : ℕ) → PeerId → Output
  unfolding heartbeat_task
  up_as env seeds seeds_only port heartbeat_secs own =
      elim (new_transport lib.zenoh (listening port)) [
        | err e ↦ failed (session e)
        | ok _ ↦ record nothing {
          put = heartbeat_task env own heartbeat_secs;
          services =
              (run lib.net lib.hex (record env.discovery { sends = λ _. true })
                (record {
                  local_peer = some own;
                  local_zenoh_url = some (listen_url port);
                  port = port;
                  seeds = seeds;
                  seeds_only = seeds_only;
                })).registered;
          answer = if env.ctrl_c then ok tt else err signal;
        }
      ]

  unfoldable pub peer_up :
      Env K Ip → Text → List Text → Bool → (port heartbeat_secs : ℕ) → World → Output × World
  unfolding up_as
  peer_up env config_dir seeds seeds_only port heartbeat_secs w =
      let (known, left) = identify lib.ed25519 env config_dir w in
      (
        elim known [
          | err e ↦ failed e
          | ok self ↦ up_as env seeds seeds_only port heartbeat_secs (peer_id_of lib.ed25519 self)
        ],
        left,
      )

  -- From the opening of the transport: the table of the peers that are heard.
  unfoldable pub peers_seen : Env K Ip → (port for_secs : ℕ) → Result Failure (Peers F)
  peers_seen env port for_secs = do
    _ ← map_err session (new_transport lib.zenoh (listening port))
    items ←
        map_err subscription (subscribe lib.hex lib.events env.subscribes (λ _. true) env.samples)
    deadline ← ok_or (deadline_of env for_secs) panic
    ok (watch (note_heartbeat env.wall) env.clock deadline 0 items [])

  unfoldable pub peers_list : Env K Ip → Text → (for_secs : ℕ) → World → Output × World
  peers_list env config_dir for_secs w = elim env.free_port [
    | none ↦ (failed bind, w)
    | some port ↦
        let (known, left) = identify lib.ed25519 env config_dir w in
        (
          elim (do _ ← known; peers_seen env port for_secs) [
            | err e ↦ failed e
            | ok seen ↦ record nothing {
              printed = print_peers lib.hex lib.two_decimals for_secs seen;
            }
          ],
          left,
        )
  ]
