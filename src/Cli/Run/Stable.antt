-- ===== src/Cli/Run/Stable.antt =====
-- Sequences of commands, and the address of a peer over them.
use furcate_mesh.Prelude.{
  ◌≡◌, refl, sym, ap, ◌∙◌, Bool, true, Option, none, some, List, [], ◌∷◌, arith, Bool-cases, inl,
  inr, ok, Result-cases,
}
use furcate_mesh.Prelude.Text.{Text, text_eq, text_eq_refl, text_eq_sound}
use furcate_mesh.Core.PeerId.{display}
use furcate_mesh.Identity.{peer_id as peer_id_of, KeyFile, load_or_generate}
use furcate_mesh.Identity.Kept.{IsEd25519, generated, load-save, load_or_generate_again}
use furcate_mesh.Identity.Directory.{Vars}
use furcate_mesh.Cli.{
  Cli, Cmd, peer, peers, model, route, up, id, push, pull, list, inspect, nothing, World, Libraries,
  Env, identify,
}
use furcate_mesh.Cli.Peers.{peer_id, peer_up, peers_list}
use furcate_mesh.Cli.Models.{model_push, pull_from, model_pull, model_list}
use furcate_mesh.Cli.Run.{config_dir_of, dispatch, main}

module _ {K C S Addr Ip H F : Type 0} (lib : Libraries K C S Addr Ip H F) where
  -- the world after some commands, each with what the outside does during it
  abbrev pub runs : (unix : Bool) → Vars → List (Env K Ip × Cli) → World → World
  runs unix vars [] w = w
  runs unix vars ((env, cli) ∷ history) w = runs unix vars history (main lib unix vars env cli w).1

  identify_keeps :
      (env : Env K Ip) (config_dir dir : Text) (w : World) (file : KeyFile)
      → w.keys dir ≡ some file
      → (identify lib.ed25519 env config_dir w).1.keys dir ≡ some file
  unfolding identify load_or_generate
  identify_keeps env config_dir dir w file h = elim (Bool-cases (text_eq config_dir dir)) [
    | inl e ↦ rw e (rw (ap w.keys (text_eq_sound config_dir dir e) ∙ h) refl)
    | inr e ↦ rw e h
  ]

  dispatch_keeps :
      (env : Env K Ip) (config_dir dir : Text) (cmd : Cmd) (w : World) (file : KeyFile)
      → w.keys dir ≡ some file
      → (dispatch lib env config_dir cmd w).1.keys dir ≡ some file
  unfolding dispatch peer_up peer_id peers_list model_push model_pull model_list pull_from
  dispatch_keeps env config_dir dir (peer (up seeds seeds_only port heartbeat_secs)) w file h =
      identify_keeps env config_dir dir w file h
  dispatch_keeps env config_dir dir (peer id) w file h = identify_keeps env config_dir dir w file h
  dispatch_keeps env config_dir dir (peers for_secs) w file h =
      ground (arith, identify_keeps env config_dir dir w file h, h)
  dispatch_keeps env config_dir dir (model (push name path format port seeds seeds_only)) w file h =
      identify_keeps env config_dir dir w file h
  dispatch_keeps env config_dir dir (model (pull source digest cache_dir port seeds seeds_only)) w
        file h =
      ground (arith, identify_keeps env config_dir dir w file h)
  dispatch_keeps env config_dir dir (model (list for_secs)) w file h =
      identify_keeps env config_dir dir w file h
  dispatch_keeps env config_dir dir (route inspect) w file h = h

  runs_keeps :
      (unix : Bool) (vars : Vars) (history : List (Env K Ip × Cli)) (w : World) (dir : Text)
      (file : KeyFile)
      → w.keys dir ≡ some file
      → (runs unix vars history w).keys dir ≡ some file
  unfolding main
  runs_keeps unix vars [] w dir file h = h
  runs_keeps unix vars ((env, cli) ∷ history) w dir file h =
      runs_keeps unix vars history (main lib unix vars env cli w).1 dir file
        (dispatch_keeps env (config_dir_of unix vars cli) dir cli.cmd w file h)

  printed_id :
      (env : Env K Ip) (dir : Text) (w : World) (own : K)
      → (identify lib.ed25519 env dir w).0 ≡ ok own
      → (peer_id lib env dir w).0
        ≡ record nothing { printed = display lib.hex (peer_id_of lib.ed25519 own) ∷ [] }
  unfolding peer_id
  printed_id env dir w own h = rw (peer_id, h) refl

  module _ (laws : IsEd25519 lib.ed25519) where
    left_file :
        (env : Env K Ip) (disk : Option KeyFile) (own : K)
        → (load_or_generate lib.ed25519 env.key_file env.fresh disk).0 ≡ ok own
        → (file : KeyFile) × ((load_or_generate lib.ed25519 env.key_file env.fresh disk).1
            ≡ some file)
    unfolding load_or_generate
    left_file env (some file) own h = (file, refl)
    left_file env none own h =
        let (same, saved, left) = generated lib.ed25519 laws env.key_file env.fresh own h in
        let (file, kept, mode, loads) =
          load-save lib.ed25519 laws env.key_file (record env.key_file { reads = true }) env.fresh
            none saved refl in
        (file, left ∙ kept)

    identified :
        (env : Env K Ip) (dir : Text) (w : World) (own : K)
        → (identify lib.ed25519 env dir w).0 ≡ ok own
        → (load_or_generate lib.ed25519 env.key_file env.fresh (w.keys dir)).0 ≡ ok own
    unfolding identify
    identified env dir w own h = ground (arith, h)

    identify_again :
        (env later : Env K Ip) (dir : Text) (w after : World) (own : K)
        → (identify lib.ed25519 env dir w).0 ≡ ok own
        → later.key_file.reads ≡ true
        → ((file : KeyFile)
            → (identify lib.ed25519 env dir w).1.keys dir ≡ some file
            → after.keys dir ≡ some file)
        → (identify lib.ed25519 later dir after).0 ≡ ok own
    unfolding identify
    identify_again env later dir w after own h r keeps =
        let loaded = identified env dir w own h in
        let (file, left) = left_file env (w.keys dir) own loaded in
        let again =
          load_or_generate_again lib.ed25519 laws env.key_file later.key_file env.fresh later.fresh
            own (w.keys dir) loaded r in
        let kept = keeps file (rw (text_eq_refl dir) left) in rw (kept ∙ sym left) (rw again refl)

    -- Once `peer id` has printed an address, it prints the same one after any sequence of commands,
    -- each of them successful or not, in any configuration directories, as long as the key file can
    -- be read.
    pub peer_id_stable :
        (unix : Bool) (vars : Vars) (env later : Env K Ip) (dir : Text) (w : World)
        (history : List (Env K Ip × Cli))
        → (peer_id lib env dir w).0.answer ≡ ok tt
        → later.key_file.reads ≡ true
        → (peer_id lib later dir (runs unix vars history (peer_id lib env dir w).1)).0
          ≡ (peer_id lib env dir w).0
    unfolding peer_id
    peer_id_stable unix vars env later dir w history h r =
        elim (Result-cases (identify lib.ed25519 env dir w).0) [
          | inl (e, q) ↦ absurd (ground (arith, h, q))
          | inr (own, q) ↦
              let left = (identify lib.ed25519 env dir w).1 in
              let again =
                identify_again env later dir w (runs unix vars history left) own q r
                  λ file. runs_keeps unix vars history left dir file in
              printed_id later dir (runs unix vars history left) own again
              ∙ sym (printed_id env dir w own q)
        ]
