-- ===== src/Discovery/Seed.antt =====
-- `parse_seed`: what a seed entry is.
use mathlib.Core.Path.{subst}
use furcate_mesh.Prelude.{
  ℕ, ◌≡◌, ◌≢◌, ◌↔◌, ◌⊎◌, refl, sym, ap, ◌∙◌, false, none, some, [], ◌∷◌, ◌++◌, map, arith, ◌==◌,
  All, inl, inr, ok, Option, Option-cases, Result-cases, Bool-cases,
}
use furcate_mesh.Prelude.Text.{Text, codes, to_ascii_lowercase}
use furcate_mesh.Core.Hex.{Hex, IsHex}
use furcate_mesh.Core.PeerId.{PeerId, IsPeerId, to_hex, from_hex}
use furcate_mesh.Core.PeerId.HexForm.{from_hex_iff, from_hex-IsPeerId}
use furcate_mesh.Discovery.{Net, DiscoveredPeer, split_once, split_url, parse_addr, parse_seed}

-- text in which a character does not occur
abbrev pub Without : ℕ → Text → Type 0
Without sep s = All (λ c. c ≢ sep) s

pub split_once-append :
    (sep : ℕ) (a b : Text) → Without sep a → split_once sep (a ++ sep ∷ b) ≡ some (a, b)
unfolding split_once
split_once-append sep [] b h = ground arith
split_once-append sep (c ∷ a) b (h, hs) = ground (arith, split_once-append sep a b hs)

pub split_once-none : (sep : ℕ) (s : Text) → Without sep s → split_once sep s ≡ none
unfolding split_once
split_once-none sep [] h = refl
split_once-none sep (c ∷ s) (h, hs) = ground (arith, split_once-none sep s hs)

pub split_once_sound :
    (sep : ℕ) (s a b : Text) → split_once sep s ≡ some (a, b) → (s ≡ a ++ sep ∷ b) × Without sep a
unfolding split_once
split_once_sound sep [] a b h = cc
split_once_sound sep (c ∷ s) [] b h = ground arith
split_once_sound sep (c ∷ s) (x ∷ a) b h = ground (arith, split_once_sound sep s a b)

split_once_absent : (sep : ℕ) (s : Text) → split_once sep s ≡ none → Without sep s
unfolding split_once
split_once_absent sep [] h = tt
split_once_absent sep (c ∷ s) h = elim (Bool-cases (c == sep)) [
  | inl e ↦ cc
  | inr e ↦ elim (Option-cases (split_once sep s)) [
    | inl q ↦ (ground arith, split_once_absent sep s q)
    | inr (ab, q) ↦ cc
  ]
]

split_url_cases :
    (s : Text)
    → ((split_url s ≡ (s, none)) × Without b'/' s)
      ⊎ ((hp : Text) × (url : Text) × (split_url s ≡ (hp, some url))
          × (s ≡ hp ++ b'/' ∷ url)
          × Without b'/' hp)
unfolding split_url
split_url_cases s = elim (Option-cases (split_once b'/' s)) [
  | inl q ↦ inl (rw (q, split_url) refl, split_once_absent b'/' s q)
  | inr ((hp, url), q) ↦
      let (e, n) = split_once_sound b'/' s hp url q in inr (hp, url, rw (q, split_url) refl, e, n)
]

split_url-none : (s : Text) → Without b'/' s → split_url s ≡ (s, none)
unfolding split_url
split_url-none s h = rw (split_once-none b'/' s h, split_url) refl

split_url-some : (s url : Text) → Without b'/' s → split_url (s ++ b'/' ∷ url) ≡ (s, some url)
unfolding split_url
split_url-some s url h = rw (split_once-append b'/' s url h, split_url) refl

-- The seed entry of a peer: its address, and the URL that the entry gives or the one made of the
-- address.
pub data IsSeed {Addr Ip : Type 0} (net : Net Addr Ip) (hex : Hex) (d : DiscoveredPeer Addr)
    : Text → Type 0 where
  with_url :
      (peer_part host_port : Text)
      → Without b'@' peer_part
      → Without b'/' host_port
      → map to_ascii_lowercase peer_part ≡ to_hex hex d.peer
      → net.parse host_port ≡ some d.addr
      → IsSeed net hex d (peer_part ++ b'@' ∷ (host_port ++ b'/' ∷ d.zenoh_url))
  without_url :
      (peer_part host_port : Text)
      → Without b'@' peer_part
      → Without b'/' host_port
      → map to_ascii_lowercase peer_part ≡ to_hex hex d.peer
      → net.parse host_port ≡ some d.addr
      → d.zenoh_url ≡ codes "tcp/" ++ host_port
      → IsSeed net hex d (peer_part ++ b'@' ∷ host_port)

module _ {Addr Ip : Type 0} (net : Net Addr Ip) {hex : Hex} (laws : IsHex hex) where
  parse_addr-some :
      (entry hp url : Text) (peer : PeerId) (a : Addr)
      → net.parse hp ≡ some a
      → parse_addr net hex entry peer (hp, some url)
        ≡ ok (record { peer = peer; addr = a; zenoh_url = url; via_mdns = false })
  unfolding parse_addr
  parse_addr-some entry hp url peer a g = rw g refl

  parse_addr-none :
      (entry hp : Text) (peer : PeerId) (a : Addr)
      → net.parse hp ≡ some a
      → parse_addr net hex entry peer (hp, none)
        ≡ ok (record { peer = peer; addr = a; zenoh_url = codes "tcp/" ++ hp; via_mdns = false })
  unfolding parse_addr
  parse_addr-none entry hp peer a g = rw g refl

  parse_addr_sound :
      (entry hp : Text) (zu : Option Text) (peer : PeerId) (d : DiscoveredPeer Addr)
      → parse_addr net hex entry peer (hp, zu) ≡ ok d
      → (net.parse hp ≡ some d.addr)
        × (peer ≡ d.peer)
        × (d.zenoh_url ≡ elim zu [ some url ↦ url | none ↦ codes "tcp/" ++ hp ])
        × (d.via_mdns ≡ false)
  unfolding parse_addr
  parse_addr_sound entry hp zu peer d h = ground arith

  parse_of_split :
      (p rest : Text) (peer : PeerId)
      → Without b'@' p
      → from_hex hex p ≡ ok peer
      → parse_seed net hex (p ++ b'@' ∷ rest)
        ≡ parse_addr net hex (p ++ b'@' ∷ rest) peer (split_url rest)
  unfolding parse_seed
  parse_of_split p rest peer np h = rw (split_once-append b'@' p rest np) (rw h refl)

  parse_of_IsSeed :
      (d : DiscoveredPeer Addr) (entry : Text)
      → IsPeerId d.peer
      → d.via_mdns ≡ false
      → IsSeed net hex d entry
      → parse_seed net hex entry ≡ ok d
  parse_of_IsSeed d entry v m (with_url p hp np nh e a) =
      parse_of_split p _ d.peer np ((from_hex_iff laws p d.peer v).1 e)
      ∙ ap (parse_addr net hex _ d.peer) (split_url-some hp d.zenoh_url nh)
      ∙ parse_addr-some _ hp d.zenoh_url d.peer d.addr a
      ∙ ap (λ b. ok (record d { via_mdns = b })) (sym m)
  parse_of_IsSeed d entry v m (without_url p hp np nh e a u) =
      parse_of_split p hp d.peer np ((from_hex_iff laws p d.peer v).1 e)
      ∙ ap (parse_addr net hex _ d.peer) (split_url-none hp nh)
      ∙ parse_addr-none _ hp d.peer d.addr a
      ∙ (λ i. ok (record d { zenoh_url = sym u i; via_mdns = sym m i }))

  split_of_parse :
      (d : DiscoveredPeer Addr) (entry : Text)
      → parse_seed net hex entry ≡ ok d
      → (p : Text) × (rest : Text) × (peer : PeerId) × (split_once b'@' entry ≡ some (p, rest))
        × (from_hex hex p ≡ ok peer)
        × (parse_addr net hex entry peer (split_url rest) ≡ ok d)
  unfolding parse_seed
  split_of_parse d entry h = elim (Option-cases (split_once b'@' entry)) [
    | inl s ↦ cc
    | inr ((p, rest), s) ↦ elim (Result-cases (from_hex hex p)) [
      | inl (e, q) ↦ cc
      | inr (peer, q) ↦ (p, rest, peer, s, q, ground arith)
    ]
  ]

  IsSeed-of_parse :
      (d : DiscoveredPeer Addr) (entry : Text)
      → parse_seed net hex entry ≡ ok d
      → IsPeerId d.peer × (d.via_mdns ≡ false) × IsSeed net hex d entry
  IsSeed-of_parse d entry h =
      let (p, rest, peer, s, q, r) = split_of_parse d entry h in
      let (e, np) = split_once_sound b'@' entry p rest s in
      let valid = from_hex-IsPeerId laws p peer q in
      let written = (from_hex_iff laws p peer valid).0 q in
      subst (λ x. IsPeerId d.peer × (d.via_mdns ≡ false) × IsSeed net hex d x) (sym e)
        (elim (split_url_cases rest) [
          | inl (u, n) ↦
              let (a, same, url, m) =
                parse_addr_sound entry rest none peer d (ap_split peer rest u r) in
              (
                subst IsPeerId same valid,
                m,
                without_url p rest np n (written ∙ ap (to_hex hex) same) a url,
              )
          | inr (hp, url, u, f, n) ↦
              let (a, same, url_eq, m) =
                parse_addr_sound entry hp (some url) peer d (ap_split peer rest u r) in
              (
                subst IsPeerId same valid,
                m,
                subst (λ x. IsSeed net hex d (p ++ b'@' ∷ x))
                    (ap (λ x. hp ++ b'/' ∷ x) url_eq ∙ sym f)
                    (with_url p hp np n (written ∙ ap (to_hex hex) same) a),
              )
        ])
    where
      ap_split :
          (peer : PeerId) (rest : Text) {split : Text × Option Text}
          → split_url rest ≡ split
          → parse_addr net hex entry peer (split_url rest) ≡ ok d
          → parse_addr net hex entry peer split ≡ ok d
      ap_split peer rest u r = sym (ap (parse_addr net hex entry peer) u) ∙ r

  -- An entry is read as a peer exactly when it is the peer's id in hex, in any case, an `@`, its
  -- address, and then either a `/` and its URL, or nothing, where the URL is `tcp/` with the
  -- address.
  pub parse_seed_iff :
      (d : DiscoveredPeer Addr) (entry : Text)
      → (parse_seed net hex entry ≡ ok d)
        ↔ (IsPeerId d.peer × (d.via_mdns ≡ false) × IsSeed net hex d entry)
  parse_seed_iff d entry = (IsSeed-of_parse d entry, λ (v, m, s). parse_of_IsSeed d entry v m s)
