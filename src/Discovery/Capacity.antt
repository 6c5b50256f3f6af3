-- ===== src/Discovery/Capacity.antt =====
-- A run of the discovery service whose channel takes only so many peers.
use furcate_mesh.Prelude.{
  ℕ, suc, ◌+◌, ◌≤◌, ◌≡◌, true, false, none, some, List, [], ◌∷◌, arith, length, map, ltb, leb,
  if◌then◌else◌, Bool-cases, ltb→lt, inl, inr, ok,
}
use furcate_mesh.Prelude.Text.{Text}
use furcate_mesh.Core.Hex.{Hex}
use furcate_mesh.Core.PeerId.{PeerId}
use furcate_mesh.Discovery.{Net, DiscoveredPeer, DiscoveryConfig, advertisement, parse_seed}
use furcate_mesh.Discovery.Run.{Env, flush, browse, advertise, register_local, run}

module _ {Addr Ip : Type 0} (net : Net Addr Ip) (hex : Hex) (env : Env Ip) (capacity : ℕ)
    (takes : (j : ℕ) → env.sends j ≡ ltb j capacity) where
  flush_full :
      (i : ℕ) (entries : List Text) (ps : List (DiscoveredPeer Addr))
      → i ≤ capacity
      → map (parse_seed net hex) entries ≡ map ok ps
      → (flush net hex env i entries).1
        ≡ ok (if leb (i + length entries) capacity then some (i + length entries) else none)
  unfolding flush
  flush_full i [] [] h s = ground arith
  flush_full i [] (p ∷ ps) h s = cc
  flush_full i (e ∷ es) [] h s = cc
  flush_full i (e ∷ es) (p ∷ ps) h s =
      let q : parse_seed net hex e ≡ ok p = cc in
      elim (Bool-cases (ltb i capacity)) [
        | inl below ↦
            rw (q, flush)
              (rw (takes i) (
                rw below (
                  ground (
                    arith,
                    flush_full (suc i) es ps (omega (arith, ltb→lt i capacity below)) (cc s),
                  ))))
        | inr above ↦ rw (q, flush) (rw (takes i) (rw above (ground arith)))
      ]

  -- Where mDNS works and the seeds parse, a run that is not for seeds only registers the service
  -- exactly if the channel takes every seed.
  pub registered-run :
      (cfg : DiscoveryConfig) (own : PeerId) (url : Text) (ps : List (DiscoveredPeer Addr))
      → cfg.local_peer ≡ some own
      → cfg.local_zenoh_url ≡ some url
      → cfg.seeds_only ≡ false
      → map (parse_seed net hex) cfg.seeds ≡ map ok ps
      → env.starts ≡ true
      → env.info_valid ≡ true
      → env.registers ≡ true
      → (run net hex env cfg).registered
        ≡ (if leb (length cfg.seeds) capacity then advertisement hex own url cfg.port ∷ [] else [])
  unfolding run browse advertise register_local
  registered-run cfg own url ps o u s q starts valid registers =
      ground (arith, flush_full 0 cfg.seeds ps (omega arith) q, o, u, s, starts, valid, registers)
