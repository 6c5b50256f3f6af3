-- ===== src/Cli/Models.antt =====
-- `model_push`, `model_pull` and `model_list`.
pub mod Listed
pub mod Shared
pub mod Fetched
pub mod Registered
use furcate_mesh.Prelude.{
  ℕ, Bool, true, Option, none, some, List, [], ◌∷◌, ◌++◌, map, ltb, length, Result, ok, err,
  map_err, ok_or, ◌>>=◌, if◌then◌else◌,
}
use furcate_mesh.Prelude.Text.{Bytes, Text, codes}
use furcate_mesh.Prelude.Text.Decimal.{decimal}
use furcate_mesh.Prelude.Equality.{text_eq_instance}
use furcate_mesh.Prelude.Dict.{get}
use furcate_mesh.Core.PeerId.{PeerId, from_hex}
use furcate_mesh.Core.Clock.{now}
use furcate_mesh.Core.Event.{MeshEvent, model_announce}
use furcate_mesh.Discovery.{DiscoveryConfig, ServiceInfo}
use furcate_mesh.Discovery.Run.{run, channel_capacity}
use furcate_mesh.Identity.{peer_id as peer_id_of}
use furcate_mesh.Identity.Directory.{join}
use furcate_mesh.Transfer.Serve.{root_hash, Reply}
use furcate_mesh.Transfer.Pull.{Cache, pull}
use furcate_mesh.Transfer.Service.{asks, register, serve}
use furcate_mesh.Transport.{subscribe, new_transport, sub_all_models}
use furcate_mesh.Cli.{
  Failure, bind, session, subscription, panic, hashing, queryable, publishing, signal, peer_hex,
  pulling, metadata, Output, nothing, failed, set_at, World, Libraries, Env, listen_url, listening,
  identify,
}
use furcate_mesh.Cli.Watch.{deadline_of, watch, note_announce, print_models, Models}
use furcate_mesh.Cli.Peers.{put_event}

-- `cache_dir.unwrap_or_else(|| config_dir.join("cache"))`
unfoldable pub cache_dir_of : (config_dir : Text) → Option Text → Text
cache_dir_of config_dir none = join config_dir (codes "cache")
cache_dir_of config_dir (some dir) = dir

module _ {K C S Addr Ip H F : Type 0} (lib : Libraries K C S Addr Ip H F) where
  -- The services that discovery registers. Nothing reads its channel, so that it
  -- takes no more peers than its capacity.
  unread_discovery : Env K Ip → DiscoveryConfig → List ServiceInfo
  unread_discovery env cfg =
      (run lib.net lib.hex (record env.discovery { sends = λ i. ltb i channel_capacity })
        cfg).registered

  pushed_line : (name format digest : Text) → List Text
  pushed_line name format digest =
      (codes "pushed " ++ (name ++ (codes " (" ++ (format ++ (codes ") digest=" ++ digest)))))
      ∷ codes "listening for pulls — Ctrl-C to stop"
      ∷ []

  -- From the announcement on, while queries are answered.
  announce : Env K Ip → (name format digest : Text) → PeerId → Output → Output
  unfolding pushed_line
  announce env name format digest own out =
      let (sample, done) =
        put_event lib (env.puts 0) (model_announce own (now (env.wall 0)) name digest format) in
      elim done [
        | err e ↦ record out { answer = err (publishing e) }
        | ok _ ↦ record out {
          printed = pushed_line name format digest;
          put = elim sample [ none ↦ [] | some s ↦ s ∷ [] ];
          answer = if env.ctrl_c then ok tt else err signal;
        }
      ]

  -- From the start of the task that answers queries. The discovery that is spawned runs to its end,
  -- also where the announcement fails and the command returns before it.
  serving :
      Env K Ip
      → (name format : Text) (port : ℕ) (seeds : List Text) (seeds_only : Bool) → PeerId
      → Text
      → List (List Reply)
      → Output
  unfolding announce unread_discovery
  serving env name format port seeds seeds_only own digest replies =
      announce env name format digest own (record nothing {
        replies = replies;
        services = unread_discovery env (record {
          local_peer = some own;
          local_zenoh_url = some (listen_url port);
          port = port;
          seeds = seeds;
          seeds_only = seeds_only;
        });
      })

  -- The transport and the queryable, with the digest.
  open_service : Env K Ip → (path : Text) (port : ℕ) → Text → Result Failure (List (List Reply))
  open_service env path port digest = do
    _ ← map_err session (new_transport lib.zenoh (listening port))
    map_err queryable (
        serve lib.blake3 lib.hex lib.headers env.sends env.reads env.files env.declares
          (register digest path []) (map asks env.queries))

  push_as :
      Env K Ip
      → (name path format : Text) (port : ℕ) (seeds : List Text) (seeds_only : Bool) → PeerId
      → Text
      → Output
  unfolding open_service serving
  push_as env name path format port seeds seeds_only own digest =
      elim (open_service env path port digest) [
        | err e ↦ failed e
        | ok replies ↦ serving env name format port seeds seeds_only own digest replies
      ]

  unfoldable pub model_push :
      Env K Ip
      → Text
      → (name path format : Text) (port : ℕ) (seeds : List Text) (seeds_only : Bool) → World
      → Output × World
  unfolding push_as
  model_push env config_dir name path format port seeds seeds_only w =
      let (known, left) = identify lib.ed25519 env config_dir w in
      (
        elim known [
          | err e ↦ failed e
          | ok self ↦ elim (root_hash lib.blake3 lib.hex env.reads (env.files path)) [
            | err e ↦ failed (hashing e)
            | ok digest ↦
                push_as env name path format port seeds seeds_only (peer_id_of lib.ed25519 self)
                  digest
          ]
        ],
        left,
      )

  -- What is printed of a pull; the length is that of the file in the cache.
  pulled_line : Env K Ip → (dir name : Text) → Cache → Output
  pulled_line env dir name m = elim (get name m) [
    | none ↦ failed metadata
    | some file ↦
        if env.stats
        then record nothing {
          printed =
              (codes "pulled "
                ++ (decimal (length file) ++ (codes " bytes into " ++ join dir name)))
              ∷ [];
        }
        else failed metadata
  ]

  -- From the address of the peer on. The pull leaves the cache directory as its second component
  -- says.
  unfoldable pub pull_from : Env K Ip → Text → (peer_hex digest : Text) → World → Output × World
  unfolding pulled_line
  pull_from env dir hex_of digest w = elim (from_hex lib.hex hex_of) [
    | err e ↦ (failed (peer_hex e), w)
    | ok source ↦
        let (pulled, m) =
          pull lib.blake3 lib.hex lib.headers env.pulls source digest (w.caches dir) in
        (
          elim pulled [ err e ↦ failed (pulling e) | ok name ↦ pulled_line env dir name m ],
          record w { caches = set_at dir m w.caches },
        )
  ]

  -- Its discovery advertises nothing.
  unfoldable pub model_pull :
      Env K Ip
      → Text
      → (peer_hex digest : Text) (cache_dir : Option Text) (port : ℕ) → World
      → Output × World
  unfolding pull_from
  model_pull env config_dir hex_of digest cache_dir port w =
      let (known, left) = identify lib.ed25519 env config_dir w in
      elim (do _ ← known; map_err session (new_transport lib.zenoh (listening port))) [
        | err e ↦ (failed e, left)
        | ok _ ↦ pull_from env (cache_dir_of config_dir cache_dir) hex_of digest left
      ]

  -- From the port on: the table of the models that are announced.
  unfoldable pub models_seen : Env K Ip → (for_secs : ℕ) → Result Failure Models
  models_seen env for_secs = do
    port ← ok_or env.free_port bind
    _ ← map_err session (new_transport lib.zenoh (listening port))
    items ←
        map_err subscription (subscribe lib.hex lib.events env.subscribes (λ _. true) env.samples)
    deadline ← ok_or (deadline_of env for_secs) panic
    ok (watch note_announce env.clock deadline 0 items [])

  unfoldable pub model_list : Env K Ip → Text → (for_secs : ℕ) → World → Output × World
  model_list env config_dir for_secs w =
      let (known, left) = identify lib.ed25519 env config_dir w in
      (
        elim (do _ ← known; models_seen env for_secs) [
          | err e ↦ failed e
          | ok seen ↦ record nothing { printed = print_models lib.hex for_secs seen }
        ],
        left,
      )
