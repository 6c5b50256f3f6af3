-- ===== src/Cli/Peers/Put.antt =====
-- What the commands put on the network.
use furcate_mesh.Prelude.{
  ℕ, zero, suc, ◌≡◌, ◌==◌, Bool, some, List, arith, Member, inl, inr, Option-cases, Bool-cases, ok,
  Result-cases,
}
use furcate_mesh.Prelude.Text.{Text}
use furcate_mesh.Core.PeerId.{PeerId}
use furcate_mesh.Core.Clock.{now}
use furcate_mesh.Core.Event.{MeshEvent, heartbeat}
use furcate_mesh.Identity.{peer_id as peer_id_of}
use furcate_mesh.Transport.{IsEventCodec, Sample, publish, decode_sample, new_transport}
use furcate_mesh.Cli.{World, Libraries, Env, identify, listening}
use furcate_mesh.Cli.Peers.{put_event, heartbeats, heartbeat_task, up_as, peer_up}

module _ {K C S Addr Ip H F : Type 0} (lib : Libraries K C S Addr Ip H F)
    (json : IsEventCodec lib.events) where
  pub put_decodes :
      (puts : Bool) (event : MeshEvent F) (s : Sample)
      → (put_event lib puts event).0 ≡ some s
      → decode_sample lib.hex lib.events s ≡ ok event
  unfolding put_event publish decode_sample
  put_decodes puts event (key, bytes) h = ground (arith, h, json.round_trip event bytes)

  -- a heartbeat of a peer, at some reading of the wall clock
  abbrev pub IsBeat : Env K Ip → PeerId → Sample → Type 0
  IsBeat env own s =
      (j : ℕ) × (decode_sample lib.hex lib.events s
        ≡ ok (heartbeat own (now (env.wall j)) lib.zero_load))

  heartbeats-IsBeat :
      (env : Env K Ip) (own : PeerId) (i ticks : ℕ) (s : Sample)
      → Member s (heartbeats lib env own i ticks)
      → IsBeat env own s
  unfolding heartbeats
  heartbeats-IsBeat env own i zero s m = absurd m
  heartbeats-IsBeat env own i (suc ticks) s m =
      let event = heartbeat own (now (env.wall i)) lib.zero_load in
      elim (Option-cases (put_event lib (env.puts i) event).0) [
        | inl q ↦ heartbeats-IsBeat env own (suc i) ticks s (rw (heartbeats, q) at m)
        | inr (sample, q) ↦ elim (rw (heartbeats, q) at m) [
          | inl e ↦ (i, put_decodes (env.puts i) event s (rw e q))
          | inr rest ↦ heartbeats-IsBeat env own (suc i) ticks s rest
        ]
      ]

  heartbeat_task-IsBeat :
      (env : Env K Ip) (own : PeerId) (secs : ℕ) (s : Sample)
      → Member s (heartbeat_task lib env own secs)
      → IsBeat env own s
  unfolding heartbeat_task
  heartbeat_task-IsBeat env own secs s m = elim (Bool-cases (secs == 0)) [
    | inl q ↦ absurd (rw (heartbeat_task, q) at m)
    | inr q ↦ heartbeats-IsBeat env own 0 env.ticks s (rw (heartbeat_task, q) at m)
  ]

  up_as-IsBeat :
      (env : Env K Ip) (seeds : List Text) (seeds_only : Bool) (port secs : ℕ) (own : PeerId)
      (s : Sample)
      → Member s (up_as lib env seeds seeds_only port secs own).put
      → IsBeat env own s
  unfolding up_as
  up_as-IsBeat env seeds seeds_only port secs own s m =
      elim (Result-cases (new_transport lib.zenoh (listening port))) [
        | inl (e, q) ↦ absurd (rw (up_as, q) at m)
        | inr (t, q) ↦ heartbeat_task-IsBeat env own secs s (rw (up_as, q) at m)
      ]

  pub peer_up-IsBeat :
      (env : Env K Ip) (dir : Text) (seeds : List Text) (seeds_only : Bool) (port secs : ℕ)
      (w : World) (own : K) (s : Sample)
      → (identify lib.ed25519 env dir w).0 ≡ ok own
      → Member s (peer_up lib env dir seeds seeds_only port secs w).0.put
      → IsBeat env (peer_id_of lib.ed25519 own) s
  unfolding peer_up
  peer_up-IsBeat env dir seeds seeds_only port secs w own s h m =
      up_as-IsBeat env seeds seeds_only port secs (peer_id_of lib.ed25519 own) s
        (rw (peer_up, h) at m)
