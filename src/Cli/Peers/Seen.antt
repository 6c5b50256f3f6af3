-- ===== src/Cli/Peers/Seen.antt =====
-- `peers_list`: which peers it prints.
use furcate_mesh.Prelude.{
  refl, ◌+◌, ◌*◌, ◌^◌, ◌≤◌, ℕ, ◌≡◌, ◌↔◌, true, Option, none, some, [], map, arith, Member, ok, inl,
  inr, Option-cases,
}
use furcate_mesh.Prelude.Text.{Text}
use furcate_mesh.Core.PeerId.{PeerId}
use furcate_mesh.Core.Event.{heartbeat}
use furcate_mesh.Transport.{decode_sample, subscribe, new_transport}
use furcate_mesh.Transport.Samples.{forward_all}
use furcate_mesh.Cli.{nothing, World, Libraries, Env, listening, identify}
use furcate_mesh.Cli.Watch.{
  Item, Peers, as_secs, deadline_of, deadline_of_lem, watch, watch-ext, note_heartbeat, peer_ord,
}
use furcate_mesh.Cli.Watch.Printed.{
  Ascending, id_order, Ascending-of_IsSorted, seconds, peers_table, print_peers_lem,
}
use furcate_mesh.Cli.Watch.Latest.{heard, note, IsLatest}
use furcate_mesh.Cli.Watch.Table.{watch_lem}
use furcate_mesh.Cli.Peers.{peers_list, peers_seen}

module _ {F : Type 0} where
  -- the peer and the load of a heartbeat
  abbrev pub beat : Item F → Option (PeerId × F)
  beat (ok (heartbeat who clock load)) = some (who, load)
  beat _ = none

  -- with the second of its arrival
  abbrev pub arrived : (ℕ → Option ℕ) → ℕ → F → F × ℕ
  arrived wall i load = (load, seconds (wall i))

  note_heartbeat_lem :
      (wall : ℕ → Option ℕ) (i : ℕ) (x : Item F) (seen : Peers F)
      → note_heartbeat wall i x seen ≡ note beat (arrived wall) i x seen
  unfolding note_heartbeat as_secs
  note_heartbeat_lem wall i x seen = elim (Option-cases (wall i)) [
    | inl e ↦ ground (arith, e)
    | inr (ms, e) ↦ ground (arith, e)
  ]

module _ {K C S Addr Ip H F : Type 0} (lib : Libraries K C S Addr Ip H F) where
  peers_seen_lem :
      (env : Env K Ip) (port for_secs : ℕ) (s : S) (deadline : ℕ)
      → new_transport lib.zenoh (listening port) ≡ ok s
      → env.subscribes ≡ true
      → deadline_of env for_secs ≡ some deadline
      → peers_seen lib env port for_secs
        ≡ ok (
            watch
              (note beat (arrived env.wall))
              env.clock
              deadline
              0
              (map (decode_sample lib.hex lib.events) env.samples)
              [])
  unfolding peers_seen subscribe
  peers_seen_lem env port for_secs s deadline ht hs hd =
      let items = map (decode_sample lib.hex lib.events) env.samples in
      ground (
        arith,
        forward_all lib.hex lib.events 0 env.samples,
        watch-ext (note_heartbeat env.wall) (note beat (arrived env.wall)) env.clock deadline 0
            items [] (note_heartbeat_lem env.wall),
      )

  peers_printed :
      (env : Env K Ip) (config_dir : Text) (for_secs : ℕ) (w : World) (port : ℕ) (own : K)
      (seen : Peers F)
      → env.free_port ≡ some port
      → (identify lib.ed25519 env config_dir w).0 ≡ ok own
      → peers_seen lib env port for_secs ≡ ok seen
      → (peers_list lib env config_dir for_secs w).0
        ≡ record nothing { printed = peers_table lib.hex lib.two_decimals for_secs seen }
  unfolding peers_list
  peers_printed env config_dir for_secs w port own seen hp hi hs =
      ground (arith, hp, hi, hs, print_peers_lem lib.hex lib.two_decimals for_secs seen)

  -- With a key, a port, a session, a subscription and a deadline that is an `Instant`, `peers`
  -- prints a table in the order of the peer ids: a heading and one line for each peer whose
  -- heartbeat was heard before the deadline, with its id in hexadecimal, the load of its last
  -- heartbeat and the second at which that arrived, or one line that says that none was heard;
  -- other items change nothing.
  pub peers_list_lem :
      (env : Env K Ip) (config_dir : Text) (for_secs : ℕ) (w : World) (port : ℕ) (own : K) (s : S)
      → env.free_port ≡ some port
      → (identify lib.ed25519 env config_dir w).0 ≡ ok own
      → new_transport lib.zenoh (listening port) ≡ ok s
      → env.subscribes ≡ true
      → env.started + for_secs * 10 ^ 9 ≤ env.last_instant
      → (seen : Peers F) × ((peers_list lib env config_dir for_secs w).0
          ≡ record nothing { printed = peers_table lib.hex lib.two_decimals for_secs seen })
        × Ascending id_order seen
        × ((who : PeerId) (row : F × ℕ)
            → (Member (who, row) seen)
              ↔ IsLatest beat (arrived env.wall) 0 who row (
                  heard env.clock
                    (env.started + for_secs * 10 ^ 9)
                    0
                    (map (decode_sample lib.hex lib.events) env.samples)))
  peers_list_lem env config_dir for_secs w port own s hp hi ht hs fits =
      let deadline = env.started + for_secs * 10 ^ 9 in
      let hd = deadline_of_lem env for_secs fits in
      let items = map (decode_sample lib.hex lib.events) env.samples in
      let (sorted, entries) = watch_lem beat (arrived env.wall) env.clock deadline items in
      (
        watch (note beat (arrived env.wall)) env.clock deadline 0 items [],
        peers_printed env config_dir for_secs w port own
            (watch (note beat (arrived env.wall)) env.clock deadline 0 items []) hp hi
            (peers_seen_lem env port for_secs s deadline ht hs hd),
        Ascending-of_IsSorted id_order (λ p q. refl) _ sorted,
        entries,
      )
