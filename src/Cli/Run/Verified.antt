-- ===== src/Cli/Run/Verified.antt =====
-- The cache directories over sequences of commands.
use furcate_mesh.Prelude.{
  ℕ, Bool, List, [], ◌∷◌, Option, Bool-cases, Option-cases, inl, inr, Result-cases, ◌>>=◌, map_err,
}
use furcate_mesh.Prelude.Text.{Text, text_eq}
use furcate_mesh.Core.PeerId.{from_hex}
use furcate_mesh.Identity.Directory.{Vars}
use furcate_mesh.Transfer.{IsBlake3}
use furcate_mesh.Transfer.Pull.Verified.{IsVerified, pull-IsVerified}
use furcate_mesh.Transport.{new_transport}
use furcate_mesh.Cli.{
  Cli, Cmd, peer, peers, model, route, up, id, push, pull, list, inspect, session, World, Libraries,
  Env, listening, identify,
}
use furcate_mesh.Cli.Peers.{peer_id, peer_up, peers_list}
use furcate_mesh.Cli.Models.{model_push, cache_dir_of, pull_from, model_pull, model_list}
use furcate_mesh.Cli.Run.{config_dir_of, dispatch, main}
use furcate_mesh.Cli.Run.Stable.{runs}

module _ {K C S Addr Ip H F : Type 0} (lib : Libraries K C S Addr Ip H F)
    (laws : IsBlake3 lib.blake3) where
  -- In every cache directory every file, temporary ones apart, has the hash of its content as its
  -- name.
  abbrev pub AllVerified : World → Type 0
  AllVerified w = (dir : Text) → IsVerified lib.blake3 laws lib.hex lib.headers (w.caches dir)

  identify-AllVerified :
      (env : Env K Ip) (config_dir : Text) (w : World)
      → AllVerified w
      → AllVerified (identify lib.ed25519 env config_dir w).1
  unfolding identify
  identify-AllVerified env config_dir w v = v

  pull_from-AllVerified :
      (env : Env K Ip) (dir hex_of digest : Text) (w : World)
      → AllVerified w
      → AllVerified (pull_from lib env dir hex_of digest w).1
  unfolding pull_from
  pull_from-AllVerified env dir hex_of digest w v d =
      elim (Result-cases (from_hex lib.hex hex_of)) [
        | inl (e, q) ↦ rw (q, pull_from) (v d)
        | inr (source, q) ↦ elim (Bool-cases (text_eq dir d)) [
          | inl same ↦
              rw (q, pull_from)
                (rw same (
                  pull-IsVerified lib.blake3 laws lib.hex lib.headers env.pulls source digest
                    (w.caches dir) (v dir)))
          | inr other ↦ rw (q, pull_from) (rw other (v d))
        ]
      ]

  model_pull-AllVerified :
      (env : Env K Ip) (config_dir hex_of digest : Text) (cache_dir : Option Text) (port : ℕ)
      (w : World)
      → AllVerified w
      → AllVerified (model_pull lib env config_dir hex_of digest cache_dir port w).1
  unfolding model_pull
  model_pull-AllVerified env config_dir hex_of digest cache_dir port w v =
      let kept = identify-AllVerified env config_dir w v in
      elim (Result-cases (do
        _ ← (identify lib.ed25519 env config_dir w).0
        map_err session (new_transport lib.zenoh (listening port)))) [
          | inl (e, q) ↦ rw (q, model_pull) kept
          | inr (s, q) ↦
              rw (q, model_pull)
                (pull_from-AllVerified env (cache_dir_of config_dir cache_dir) hex_of digest _ kept)
        ]

  peers_list-AllVerified :
      (env : Env K Ip) (config_dir : Text) (for_secs : ℕ) (w : World)
      → AllVerified w
      → AllVerified (peers_list lib env config_dir for_secs w).1
  unfolding peers_list
  peers_list-AllVerified env config_dir for_secs w v = elim (Option-cases env.free_port) [
    | inl q ↦ rw (q, peers_list) v
    | inr (port, q) ↦ rw (q, peers_list) (identify-AllVerified env config_dir w v)
  ]

  dispatch-AllVerified :
      (env : Env K Ip) (config_dir : Text) (cmd : Cmd) (w : World)
      → AllVerified w
      → AllVerified (dispatch lib env config_dir cmd w).1
  unfolding dispatch peer_up peer_id model_push model_list
  dispatch-AllVerified env dir (peer (up seeds seeds_only port heartbeat_secs)) w v =
      identify-AllVerified env dir w v
  dispatch-AllVerified env dir (peer id) w v = identify-AllVerified env dir w v
  dispatch-AllVerified env dir (peers for_secs) w v = peers_list-AllVerified env dir for_secs w v
  dispatch-AllVerified env dir (model (push name path format port seeds seeds_only)) w v =
      identify-AllVerified env dir w v
  dispatch-AllVerified env dir (model (pull source digest cache_dir port seeds seeds_only)) w v =
      model_pull-AllVerified env dir source digest cache_dir port w v
  dispatch-AllVerified env dir (model (list for_secs)) w v = identify-AllVerified env dir w v
  dispatch-AllVerified env dir (route inspect) w v = v

  -- After any sequence of commands, each of them successful or not and whatever the disk, the
  -- network and the peers do, every file of every cache directory, temporary ones apart, has the
  -- hash of its content as its name, if that held before.
  pub runs-AllVerified :
      (unix : Bool) (vars : Vars) (history : List (Env K Ip × Cli)) (w : World)
      → AllVerified w
      → AllVerified (runs lib unix vars history w)
  unfolding main
  runs-AllVerified unix vars [] w v = v
  runs-AllVerified unix vars ((env, cli) ∷ history) w v =
      runs-AllVerified unix vars history (main lib unix vars env cli w).1
        (dispatch-AllVerified env (config_dir_of unix vars cli) cli.cmd w v)
