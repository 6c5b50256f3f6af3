-- ===== src/Cli/Models/Listed.antt =====
-- `model_list`: which models it prints.
use furcate_mesh.Prelude.{
  ℕ, ◌+◌, ◌*◌, ◌^◌, ◌≤◌, ◌≡◌, ◌↔◌, true, Option, none, some, [], map, arith, Member, ok,
}
use furcate_mesh.Prelude.Text.{Text}
use furcate_mesh.Core.PeerId.{PeerId}
use furcate_mesh.Core.Event.{model_announce}
use furcate_mesh.Transport.{decode_sample, subscribe, new_transport}
use furcate_mesh.Transport.Samples.{forward_all}
use furcate_mesh.Cli.{nothing, World, Libraries, Env, listening, identify}
use furcate_mesh.Cli.Watch.{
  Item, Models, deadline_of, deadline_of_lem, watch, watch-ext, note_announce, model_ord,
}
use furcate_mesh.Cli.Watch.Printed.{
  Ascending, model_order, model_order_lem, Ascending-of_IsSorted, models_table, print_models_lem,
}
use furcate_mesh.Cli.Watch.Latest.{heard, note, IsLatest}
use furcate_mesh.Cli.Watch.Table.{watch_lem}
use furcate_mesh.Cli.Models.{model_list, models_seen}

abbrev pub untimed : ℕ → Text × Text → Text × Text
untimed i row = row

module _ {F : Type 0} where
  -- the peer and the model of an announcement, with its digest and format
  abbrev pub announced : Item F → Option ((PeerId × Text) × (Text × Text))
  announced (ok (model_announce who clock name digest format)) =
      some ((who, name), (digest, format))
  announced _ = none

  note_announce_lem :
      (i : ℕ) (x : Item F) (seen : Models)
      → note_announce i x seen ≡ note announced untimed i x seen
  unfolding note_announce
  note_announce_lem i x seen = ground arith

module _ {K C S Addr Ip H F : Type 0} (lib : Libraries K C S Addr Ip H F) where
  models_seen_lem :
      (env : Env K Ip) (port for_secs : ℕ) (s : S) (deadline : ℕ)
      → env.free_port ≡ some port
      → new_transport lib.zenoh (listening port) ≡ ok s
      → env.subscribes ≡ true
      → deadline_of env for_secs ≡ some deadline
      → models_seen lib env for_secs
        ≡ ok (
            watch
              (note announced untimed)
              env.clock
              deadline
              0
              (map (decode_sample lib.hex lib.events) env.samples)
              [])
  unfolding models_seen subscribe
  models_seen_lem env port for_secs s deadline hp ht hs hd =
      let items = map (decode_sample lib.hex lib.events) env.samples in
      ground (
        arith,
        forward_all lib.hex lib.events 0 env.samples,
        watch-ext note_announce (note announced untimed) env.clock deadline 0 items []
            note_announce_lem,
      )

  models_printed :
      (env : Env K Ip) (config_dir : Text) (for_secs : ℕ) (w : World) (own : K) (seen : Models)
      → (identify lib.ed25519 env config_dir w).0 ≡ ok own
      → models_seen lib env for_secs ≡ ok seen
      → (model_list lib env config_dir for_secs w).0
        ≡ record nothing { printed = models_table lib.hex for_secs seen }
  unfolding model_list
  models_printed env config_dir for_secs w own seen hi hs =
      ground (arith, hi, hs, print_models_lem lib.hex for_secs seen)

  -- With a key, a port, a session, a subscription and a deadline that is an `Instant`, `model
  -- list` prints a table in the order of the peer ids and, for one peer, of the models' names: a
  -- heading and one line for each model of a peer whose announcement was heard before the
  -- deadline, with the peer's id in hexadecimal, the name, and the format and the digest of the
  -- last announcement, or one line that says that none was heard; other items change nothing.
  pub model_list_lem :
      (env : Env K Ip) (config_dir : Text) (for_secs : ℕ) (w : World) (port : ℕ) (own : K) (s : S)
      → env.free_port ≡ some port
      → (identify lib.ed25519 env config_dir w).0 ≡ ok own
      → new_transport lib.zenoh (listening port) ≡ ok s
      → env.subscribes ≡ true
      → env.started + for_secs * 10 ^ 9 ≤ env.last_instant
      → (seen : Models) × ((model_list lib env config_dir for_secs w).0
          ≡ record nothing { printed = models_table lib.hex for_secs seen })
        × Ascending model_order seen
        × ((source : PeerId × Text) (row : Text × Text)
            → (Member (source, row) seen)
              ↔ IsLatest announced untimed 0 source row (
                  heard env.clock
                    (env.started + for_secs * 10 ^ 9)
                    0
                    (map (decode_sample lib.hex lib.events) env.samples)))
  model_list_lem env config_dir for_secs w port own s hp hi ht hs fits =
      let deadline = env.started + for_secs * 10 ^ 9 in
      let hd = deadline_of_lem env for_secs fits in
      let items = map (decode_sample lib.hex lib.events) env.samples in
      let (sorted, entries) = watch_lem announced untimed env.clock deadline items in
      (
        watch (note announced untimed) env.clock deadline 0 items [],
        models_printed env config_dir for_secs w own
            (watch (note announced untimed) env.clock deadline 0 items []) hi
            (models_seen_lem env port for_secs s deadline hp ht hs hd),
        Ascending-of_IsSorted model_order model_order_lem _ sorted,
        entries,
      )
