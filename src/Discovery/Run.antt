-- ===== src/Discovery/Run.antt =====
-- `Discovery::run`: what it delivers and registers, given what mDNS and the consumer do.
use furcate_mesh.Prelude.{
  ℕ, suc, Bool, true, false, not, Option, none, some, List, [], ◌∷◌, ◌++◌, Result, ok, err,
  if◌then◌else◌,
}
use furcate_mesh.Prelude.Text.{Text}
use furcate_mesh.Core.Hex.{Hex}
use furcate_mesh.Core.PeerId.{PeerId, peer_eq}
use furcate_mesh.Discovery.{
  DiscoveryError, mdns, Net, DiscoveredPeer, DiscoveryConfig, ServiceInfo, ResolvedService,
  advertisement, parse_seed, resolve_to_peer,
}

-- The browse channel: only one kind of event carries a service.
pub data ServiceEvent (Ip : Type 0) : Type 0 where
  service_resolved : ResolvedService Ip → ServiceEvent Ip
  other_event : ServiceEvent Ip

-- What mDNS and the consumer do during one run.
pub record Env (Ip : Type 0) : Type 0 where
  -- whether the send of each number finds the receiver alive
  pub sends : ℕ → Bool
  pub starts : Bool
  pub info_valid : Bool
  pub registers : Bool
  pub browses : Bool
  -- the events until the browse channel closes
  pub events : List (ServiceEvent Ip)

-- the capacity of the channel that `Discovery::new` makes
abbrev pub channel_capacity : ℕ
channel_capacity = 32

-- What a run leaves: the peers that were delivered, the services registered, and its answer.
pub record Trace (Addr : Type 0) : Type 0 where
  pub sent : List (DiscoveredPeer Addr)
  pub registered : List ServiceInfo
  pub answer : Result DiscoveryError (Unit {0})

-- `Some(peer.peer) == self.cfg.local_peer`
unfoldable pub is_own : Option PeerId → PeerId → Bool
is_own none peer = false
is_own (some own) peer = peer_eq peer own

module _ {Addr Ip : Type 0} (net : Net Addr Ip) (hex : Hex) (env : Env Ip) where
  -- The loop over the seeds, `i` sends done: the peers delivered, and whether to go on, which is
  -- with the number of sends, unless the receiver was dropped.
  unfoldable pub flush :
      (i : ℕ) → List Text → List (DiscoveredPeer Addr) × Result DiscoveryError (Option ℕ)
  flush i [] = ([], ok (some i))
  flush i (entry ∷ entries) = elim (parse_seed net hex entry) [
    | err e ↦ ([], err e)
    | ok peer ↦ elim (env.sends i) [
      | false ↦ ([], ok none)
      | true ↦ let rest = flush (suc i) entries in (peer ∷ rest.0, rest.1)
    ]
  ]

  -- The loop over the events.
  unfoldable pub deliver :
      (own : Option PeerId) (i : ℕ) → List (ServiceEvent Ip) → List (DiscoveredPeer Addr)
  deliver own i [] = []
  deliver own i (other_event ∷ es) = deliver own i es
  deliver own i (service_resolved svc ∷ es) = elim (resolve_to_peer net hex svc) [
    | none ↦ deliver own i es
    | some peer ↦ elim (is_own own peer.peer) [
      | true ↦ deliver own i es
      | false ↦ elim (env.sends i) [ false ↦ [] | true ↦ peer ∷ deliver own (suc i) es ]
    ]
  ]

  -- `register_local`
  unfoldable pub register_local : ServiceInfo → List ServiceInfo × Result DiscoveryError (Unit {0})
  register_local info =
      if not env.info_valid
      then ([], err mdns)
      else if not env.registers
      then ([], err mdns)
      else (info ∷ [], ok tt)

  -- The registration, where there is something to advertise.
  unfoldable pub advertise :
      Option PeerId → Option Text → ℕ → List ServiceInfo × Result DiscoveryError (Unit {0})
  unfolding register_local
  advertise (some local_peer) (some zenoh_url) port =
      register_local (advertisement hex local_peer zenoh_url port)
  advertise (some local_peer) none port = ([], ok tt)
  advertise none zenoh_url port = ([], ok tt)

  -- From the construction of the daemon.
  unfoldable pub browse : DiscoveryConfig → List (DiscoveredPeer Addr) → ℕ → Trace Addr
  unfolding advertise deliver
  browse cfg seeds i =
      if not env.starts
      then record { sent = seeds; registered = []; answer = err mdns }
      else let (infos, done) = advertise cfg.local_peer cfg.local_zenoh_url cfg.port in
        elim done [
          | err e ↦ record { sent = seeds; registered = infos; answer = err e }
          | ok _ ↦
              if not env.browses
              then record { sent = seeds; registered = infos; answer = err mdns }
              else record {
                sent = seeds ++ deliver cfg.local_peer i env.events;
                registered = infos;
                answer = ok tt;
              }
        ]

  -- With `seeds_only` the run ends when the receiver is dropped.
  unfoldable pub run : DiscoveryConfig → Trace Addr
  unfolding flush browse
  run cfg =
      let (seeds, next) = flush 0 cfg.seeds in
      elim next [
        | err e ↦ record { sent = seeds; registered = []; answer = err e }
        | ok none ↦ record { sent = seeds; registered = []; answer = ok tt }
        | ok (some i) ↦
            if cfg.seeds_only
            then record { sent = seeds; registered = []; answer = ok tt }
            else browse cfg seeds i
      ]
