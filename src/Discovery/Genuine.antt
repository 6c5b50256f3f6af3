-- ===== src/Discovery/Genuine.antt =====
-- Where the peers that a run of the discovery service delivers come from.
use furcate_mesh.Prelude.{
  ℕ, suc, ◌≡◌, ◌≢◌, refl, false, Option, none, some, List, [], ◌∷◌, arith, All, All-append, Member,
  inl, inr, ok, Result-cases, Option-cases, Bool-cases,
}
use furcate_mesh.Prelude.Text.{Text}
use furcate_mesh.Core.Hex.{Hex}
use furcate_mesh.Core.PeerId.{PeerId, peer_eq_iff}
use furcate_mesh.Discovery.{Net, DiscoveredPeer, DiscoveryConfig, parse_seed, resolve_to_peer}
use furcate_mesh.Discovery.Run.{
  ServiceEvent, service_resolved, other_event, Env, is_own, flush, deliver, advertise, browse, run,
}

module _ {Addr Ip : Type 0} (net : Net Addr Ip) (hex : Hex) where
  -- A peer that a seed names, or that mDNS resolved and that is not the local one.
  pub data IsGenuine (own : Option PeerId) (seeds : List Text) (events : List (ServiceEvent Ip))
      (p : DiscoveredPeer Addr) : Type 0 where
    from_seed :
        (entry : Text)
        → Member entry seeds
        → parse_seed net hex entry ≡ ok p
        → IsGenuine own seeds events p
    from_mdns :
        (svc : _)
        → Member (service_resolved svc) events
        → resolve_to_peer net hex svc ≡ some p
        → own ≢ some p.peer
        → IsGenuine own seeds events p

  pub is_own_iff : (own : Option PeerId) (p : PeerId) → is_own own p ≡ false → own ≢ some p
  unfolding is_own
  is_own_iff none p h = λ e. cc
  is_own_iff (some o) p h = λ e. ground (arith, peer_eq_iff p o)

  module _ (env : Env Ip) where
    flush-IsGenuine :
        (cfg : DiscoveryConfig) (i : ℕ) (entries : List Text)
        → ((e : Text) → Member e entries → Member e cfg.seeds)
        → All (IsGenuine cfg.local_peer cfg.seeds env.events) (flush net hex env i entries).0
    unfolding flush
    flush-IsGenuine cfg i [] h = tt
    flush-IsGenuine cfg i (e ∷ es) h = elim (Result-cases (parse_seed net hex e)) [
      | inl (x, q) ↦ rw (q, flush) tt
      | inr (p, q) ↦ elim (Bool-cases (env.sends i)) [
        | inl s ↦
            rw (q, flush)
              (rw s
                (from_seed e (h e (inl refl)) q, flush-IsGenuine cfg (suc i) es λ x m. h x (inr m)))
        | inr s ↦ rw (q, flush) (rw s tt)
      ]
    ]

    deliver-IsGenuine :
        (cfg : DiscoveryConfig) (i : ℕ) (es : List (ServiceEvent Ip))
        → ((e : ServiceEvent Ip) → Member e es → Member e env.events)
        → All
            (IsGenuine cfg.local_peer cfg.seeds env.events)
            (deliver net hex env cfg.local_peer i es)
    unfolding deliver
    deliver-IsGenuine cfg i [] h = tt
    deliver-IsGenuine cfg i (other_event ∷ es) h = deliver-IsGenuine cfg i es λ x m. h x (inr m)
    deliver-IsGenuine cfg i (service_resolved svc ∷ es) h =
        elim (Option-cases (resolve_to_peer net hex svc)) [
          | inl q ↦ rw (q, deliver) (deliver-IsGenuine cfg i es later)
          | inr (p, q) ↦ elim (Bool-cases (is_own cfg.local_peer p.peer)) [
            | inl o ↦ rw (q, deliver) (rw o (deliver-IsGenuine cfg i es later))
            | inr o ↦ elim (Bool-cases (env.sends i)) [
              | inl s ↦
                  rw (q, deliver)
                    (rw o (
                      rw s (
                        from_mdns svc (h _ (inl refl)) q (is_own_iff cfg.local_peer p.peer o),
                        deliver-IsGenuine cfg (suc i) es later,
                      )))
              | inr s ↦ rw (q, deliver) (rw o (rw s tt))
            ]
          ]
        ]
      where
        later : (e : ServiceEvent Ip) → Member e es → Member e env.events
        later x m = h x (inr m)

    browse-IsGenuine :
        (cfg : DiscoveryConfig) (seeds : List (DiscoveredPeer Addr)) (i : ℕ)
        → All (IsGenuine cfg.local_peer cfg.seeds env.events) seeds
        → All (IsGenuine cfg.local_peer cfg.seeds env.events) (browse net hex env cfg seeds i).sent
    unfolding browse
    browse-IsGenuine cfg seeds i h = elim (Bool-cases env.starts) [
      | inl s ↦
          elim (Result-cases
            (advertise net hex env cfg.local_peer cfg.local_zenoh_url cfg.port).1) [
              | inl (e, q) ↦ rw (s, browse) (rw q h)
              | inr (u, q) ↦ elim (Bool-cases env.browses) [
                | inl b ↦
                    rw (s, browse)
                      (rw q
                        (rw b (All-append _ _ _ h (deliver-IsGenuine cfg i env.events λ x m. m))))
                | inr b ↦ rw (s, browse) (rw q (rw b h))
              ]
            ]
      | inr s ↦ rw (s, browse) h
    ]

    -- Whatever mDNS and the consumer do, every peer that a run delivers is named by one of the
    -- seeds, or was resolved from an mDNS event and is not the local peer.
    pub run-IsGenuine :
        (cfg : DiscoveryConfig)
        → All (IsGenuine cfg.local_peer cfg.seeds env.events) (run net hex env cfg).sent
    unfolding run
    run-IsGenuine cfg =
        let seeds = flush-IsGenuine cfg 0 cfg.seeds λ e m. m in
        elim (Result-cases (flush net hex env 0 cfg.seeds).1) [
          | inl (e, q) ↦ rw (q, run) seeds
          | inr (none, q) ↦ rw (q, run) seeds
          | inr (some i, q) ↦ elim (Bool-cases cfg.seeds_only) [
            | inl o ↦ rw (q, run) (rw o seeds)
            | inr o ↦ rw (q, run) (rw o (browse-IsGenuine cfg _ i seeds))
          ]
        ]
