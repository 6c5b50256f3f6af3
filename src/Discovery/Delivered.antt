-- ===== src/Discovery/Delivered.antt =====
-- What a run of the discovery service delivers to its consumer.
use furcate_mesh.Prelude.{
  ℕ, suc, ◌≡◌, refl, true, Option, none, some, List, [], ◌∷◌, ◌++◌, arith, ok, err, filter, not,
  append-nil, if◌then◌else◌, map, ◌≢◌, Bool-cases, inl, inr,
}
use furcate_mesh.Prelude.Text.{Text}
use furcate_mesh.Core.Hex.{Hex}
use furcate_mesh.Core.PeerId.{PeerId, peer_eq_iff}
use furcate_mesh.Discovery.Genuine.{is_own_iff}
use furcate_mesh.Discovery.{
  Net, DiscoveryError, DiscoveredPeer, DiscoveryConfig, parse_seed, resolve_to_peer,
}
use furcate_mesh.Discovery.Run.{
  ServiceEvent, service_resolved, other_event, Env, is_own, flush, deliver, advertise,
  register_local, browse, run,
}

module _ {Addr Ip : Type 0} (net : Net Addr Ip) (hex : Hex) where
  -- the peers that the events announce, and those of them that are not the local one
  abbrev pub announced : List (ServiceEvent Ip) → List (DiscoveredPeer Addr)
  announced [] = []
  announced (other_event ∷ es) = announced es
  announced (service_resolved svc ∷ es) = elim (resolve_to_peer net hex svc) [
    | none ↦ announced es
    | some p ↦ p ∷ announced es
  ]

  -- what is left of some peers without the local one
  pub data Foreign (own : Option PeerId)
      : List (DiscoveredPeer Addr) → List (DiscoveredPeer Addr) → Type 0 where
    done : Foreign own [] []
    skip :
        (p : DiscoveredPeer Addr) (ps qs : List (DiscoveredPeer Addr))
        → own ≡ some p.peer
        → Foreign own ps qs
        → Foreign own (p ∷ ps) qs
    keep :
        (p : DiscoveredPeer Addr) (ps qs : List (DiscoveredPeer Addr))
        → own ≢ some p.peer
        → Foreign own ps qs
        → Foreign own (p ∷ ps) (p ∷ qs)

  abbrev found : Option PeerId → List (ServiceEvent Ip) → List (DiscoveredPeer Addr)
  found own es = filter (λ p. not (is_own own p.peer)) (announced es)

  is_own_same : (own : Option PeerId) (p : PeerId) → is_own own p ≡ true → own ≡ some p
  unfolding is_own
  is_own_same none p h = cc
  is_own_same (some o) p h = ground (arith, peer_eq_iff p o)

  filter-Foreign :
      (own : Option PeerId) (ps : List (DiscoveredPeer Addr))
      → Foreign own ps (filter (λ p. not (is_own own p.peer)) ps)
  filter-Foreign own [] = done
  filter-Foreign own (p ∷ ps) = elim (Bool-cases (is_own own p.peer)) [
    | inl h ↦ rw h (skip p ps _ (is_own_same own p.peer h) (filter-Foreign own ps))
    | inr h ↦ rw h (keep p ps _ (is_own_iff net hex own p.peer h) (filter-Foreign own ps))
  ]

  module _ (env : Env Ip) where
    flush_all :
        (i : ℕ) (entries : List Text) (ps : List (DiscoveredPeer Addr))
        → ((j : ℕ) → env.sends j ≡ true)
        → map (parse_seed net hex) entries ≡ map ok ps
        → (j : ℕ) × (flush net hex env i entries ≡ (ps, ok (some j)))
    unfolding flush
    flush_all i [] [] s h = (i, refl)
    flush_all i [] (p ∷ ps) s h = cc
    flush_all i (e ∷ es) [] s h = cc
    flush_all i (e ∷ es) (p ∷ ps) s h =
        let q : parse_seed net hex e ≡ ok p = cc in
        let (j, r) = flush_all (suc i) es ps s (cc h) in (j, rw (q, flush) (rw (s i) (rw r refl)))

    deliver_all :
        (own : Option PeerId) (i : ℕ) (es : List (ServiceEvent Ip))
        → ((j : ℕ) → env.sends j ≡ true)
        → deliver net hex env own i es ≡ found own es
    unfolding deliver
    deliver_all own i [] s = refl
    deliver_all own i (other_event ∷ es) s = deliver_all own i es s
    deliver_all own i (service_resolved svc ∷ es) s =
        ground (arith, s i, deliver_all own i es s, deliver_all own (suc i) es s)

    -- Nothing of mDNS fails, and the consumer takes every peer.
    pub record IsFaultless : Type 0 where
      pub sends : (j : ℕ) → env.sends j ≡ true
      pub starts : env.starts ≡ true
      pub info_valid : env.info_valid ≡ true
      pub registers : env.registers ≡ true
      pub browses : env.browses ≡ true

    advertise_all :
        (own : Option PeerId) (url : Option Text) (port : ℕ)
        → IsFaultless
        → (advertise net hex env own url port).1 ≡ ok tt
    unfolding advertise register_local
    advertise_all (some own) (some url) port h =
        rw (h.info_valid, register_local) (rw h.registers refl)
    advertise_all (some own) none port h = refl
    advertise_all none url port h = refl

    run_found :
        (cfg : DiscoveryConfig) (ps : List (DiscoveredPeer Addr))
        → IsFaultless
        → map (parse_seed net hex) cfg.seeds ≡ map ok ps
        → ((run net hex env cfg).answer ≡ ok tt)
          × ((run net hex env cfg).sent
              ≡ ps ++ (if cfg.seeds_only then [] else found cfg.local_peer env.events))
    unfolding run browse
    run_found cfg ps h s =
        let (i, q) = flush_all 0 cfg.seeds ps h.sends s in
        ground (
          arith,
          q,
          h.starts,
          h.browses,
          append-nil ps,
          advertise_all cfg.local_peer cfg.local_zenoh_url cfg.port h,
          deliver_all cfg.local_peer i env.events h.sends,
        )

    -- Where nothing of mDNS fails, the consumer takes every peer and every seed parses, a run
    -- succeeds and delivers exactly the seeds' peers in their order and then, unless only seeds are
    -- wanted, the peers that mDNS resolves, in the order of the events, without the local one.
    pub run_faultless :
        (cfg : DiscoveryConfig) (ps : List (DiscoveredPeer Addr))
        → IsFaultless
        → map (parse_seed net hex) cfg.seeds ≡ map ok ps
        → ((run net hex env cfg).answer ≡ ok tt)
          × (qs : List (DiscoveredPeer Addr)) × Foreign cfg.local_peer (announced env.events) qs
          × ((run net hex env cfg).sent ≡ ps ++ (if cfg.seeds_only then [] else qs))
    run_faultless cfg ps h s =
        let (a, q) = run_found cfg ps h s in
        (a, found cfg.local_peer env.events, filter-Foreign cfg.local_peer _, q)

    flush_bad :
        (i : ℕ) (good rest : List Text) (bad : Text) (ps : List (DiscoveredPeer Addr))
        (e : DiscoveryError)
        → ((j : ℕ) → env.sends j ≡ true)
        → map (parse_seed net hex) good ≡ map ok ps
        → parse_seed net hex bad ≡ err e
        → flush net hex env i (good ++ bad ∷ rest) ≡ (ps, err e)
    unfolding flush
    flush_bad i [] rest bad [] e s h b = rw (b, flush) refl
    flush_bad i [] rest bad (p ∷ ps) e s h b = cc
    flush_bad i (g ∷ gs) rest bad [] e s h b = cc
    flush_bad i (g ∷ gs) rest bad (p ∷ ps) e s h b =
        let q : parse_seed net hex g ≡ ok p = cc in
        rw (q, flush) (rw (s i) (rw (flush_bad (suc i) gs rest bad ps e s (cc h) b) refl))

    -- Where the consumer takes every peer and some seed does not parse, a run delivers exactly the
    -- peers of the seeds before the first such one, and fails with its error before anything is
    -- registered on mDNS.
    pub run_bad_seed :
        (cfg : DiscoveryConfig) (good rest : List Text) (bad : Text)
        (ps : List (DiscoveredPeer Addr)) (e : DiscoveryError)
        → ((j : ℕ) → env.sends j ≡ true)
        → cfg.seeds ≡ good ++ bad ∷ rest
        → map (parse_seed net hex) good ≡ map ok ps
        → parse_seed net hex bad ≡ err e
        → run net hex env cfg ≡ record { sent = ps; registered = []; answer = err e }
    unfolding run
    run_bad_seed cfg good rest bad ps e s split h b =
        let q : flush net hex env 0 cfg.seeds ≡ (ps, err e) =
          rw split (flush_bad 0 good rest bad ps e s h b) in
        ground (arith, q)
