-- ===== src/Cli/Run.antt =====
-- `main`, after the arguments are parsed, and `route_inspect`.
pub mod Stable
pub mod Verified
use furcate_mesh.Prelude.{Bool, Option, none, some, List, [], ◌∷◌}
use furcate_mesh.Prelude.Text.{Text, codes}
use furcate_mesh.Identity.Directory.{Vars, default_config_dir}
use furcate_mesh.Cli.{
  Cli, Cmd, peer, peers, model, route, PeerCmd, up, id, ModelCmd, push, pull, list, RouteCmd,
  inspect, Output, nothing, World, Libraries, Env,
}
use furcate_mesh.Cli.Peers.{peer_id, peer_up, peers_list}
use furcate_mesh.Cli.Models.{model_push, model_pull, model_list}

unfoldable pub route_inspect : Output
route_inspect = record nothing {
  warned = codes "route inspect: in-memory router has no persistent state yet" ∷ [];
}

unfoldable pub config_dir_of : Bool → Vars → Cli → Text
config_dir_of unix vars cli = elim cli.config_dir [
  | none ↦ default_config_dir unix vars
  | some dir ↦ dir
]

module _ {K C S Addr Ip H F : Type 0} (lib : Libraries K C S Addr Ip H F) where
  -- The arms of `main`.
  unfoldable pub dispatch : Env K Ip → Text → Cmd → World → Output × World
  dispatch env config_dir (peer (up seeds seeds_only port heartbeat_secs)) w =
      peer_up lib env config_dir seeds seeds_only port heartbeat_secs w
  dispatch env config_dir (peer id) w = peer_id lib env config_dir w
  dispatch env config_dir (peers for_secs) w = peers_list lib env config_dir for_secs w
  dispatch env config_dir (model (push name path format port seeds seeds_only)) w =
      model_push lib env config_dir name path format port seeds seeds_only w
  dispatch env config_dir (model (pull source digest cache_dir port seeds seeds_only)) w =
      model_pull lib env config_dir source digest cache_dir port w
  dispatch env config_dir (model (list for_secs)) w = model_list lib env config_dir for_secs w
  dispatch env config_dir (route inspect) w = (route_inspect, w)

  unfoldable pub main : (unix : Bool) → Vars → Env K Ip → Cli → World → Output × World
  unfolding dispatch
  main unix vars env cli w = dispatch env (config_dir_of unix vars cli) cli.cmd w
