-- ===== src/Identity/Tls/Handshake.antt =====
-- Two sides with configurations built by this crate.
use furcate_mesh.Prelude.{
  ◌≡◌, ◌↔◌, ◌⊎◌, true, Bool, ◌&&◌, some, List, [], arith, inl, inr, Member, ok, Option-cases,
}
use furcate_mesh.Prelude.Text.{Bytes}
use furcate_mesh.Core.PeerId.{PeerId}
use furcate_mesh.Identity.{
  Ed25519, peer_id, server_trusted, client_trusted, verify_server_cert, verify_client_cert,
}
use furcate_mesh.Identity.Accepted.{IsInjective, verify_client_cert_iff, verify_server_cert_iff}
use furcate_mesh.Identity.Tls.{
  Rustls, CertifiedKey, TlsConfig, certified_key_from, verify_tls13_signature, build_server,
  build_client,
}

-- The key that rustls loads is the one that was encoded, and what it signs its public key verifies.
pub record IsRustls {K S : Type 0} (ed : Ed25519 K) (r : Rustls K S) : Type 0 where
  pub loads :
      (k : K) (der priv : Bytes) (s : S)
      → r.to_pkcs8_der k ≡ some der
      → r.private_key_der der ≡ some priv
      → r.load_private_key priv ≡ some s
      → r.public_key s ≡ ed.to_public_key_der (ed.verifying_key k)
  pub verifies :
      (s : S) (spki message : Bytes)
      → r.public_key s ≡ some spki
      → r.verify_tls13_signature_with_raw_key message spki (r.sign s message) ≡ true

module _ {K S : Type 0} (ed : Ed25519 K) (rustls : Rustls K S) where
  -- The checks of a handshake: each side signs the transcript with its key, and the other side
  -- checks the key that is presented and the signature.
  unfoldable pub completes : (server client : TlsConfig S) (transcript : Bytes) → Bool
  completes server client transcript =
      (verify_server_cert client.trusted server.certified.cert
        && verify_tls13_signature rustls transcript server.certified.cert
            (rustls.sign server.certified.key transcript))
      && (verify_client_cert server.trusted client.certified.cert
          && verify_tls13_signature rustls transcript client.certified.cert
              (rustls.sign client.certified.key transcript))

  module _ (laws : IsRustls ed rustls) where
    certified :
        (k : K) (c : CertifiedKey S)
        → certified_key_from rustls k ≡ ok c
        → (rustls.public_key c.key ≡ some c.cert)
          × (ed.to_public_key_der (ed.verifying_key k) ≡ some c.cert)
    unfolding certified_key_from
    certified k c h = elim (Option-cases (rustls.to_pkcs8_der k)) [
      | inl a ↦ cc
      | inr (der, a) ↦ elim (Option-cases (rustls.private_key_der der)) [
        | inl b ↦ cc
        | inr (priv, b) ↦ elim (Option-cases (rustls.load_private_key priv)) [
          | inl d ↦ cc
          | inr (s, d) ↦ elim (Option-cases (rustls.public_key s)) [
            | inl e ↦ cc
            | inr (spki, e) ↦ ground (arith, a, b, d, e, laws.loads k der priv s a b d)
          ]
        ]
      ]
    ]

    built_server :
        (k : K) (allowed : List PeerId) (c : TlsConfig S)
        → build_server ed rustls k allowed ≡ ok c
        → (server_trusted ed allowed ≡ ok c.trusted)
          × (certified_key_from rustls k ≡ ok c.certified)
    unfolding build_server
    built_server k allowed c h = ground arith

    built_client :
        (k : K) (expected : PeerId) (c : TlsConfig S)
        → build_client ed rustls k expected ≡ ok c
        → (client_trusted ed expected ≡ ok c.trusted)
          × (certified_key_from rustls k ≡ ok c.certified)
    unfolding build_client
    built_client k expected c h = ground arith

    -- A server and a client whose configurations were built complete their checks of one another,
    -- over any transcript, exactly if the client expects the server's peer id, and the server's
    -- allow-list is empty or names the client's.
    pub completes_iff :
        (inj : IsInjective ed) (s c : K) (allowed : List PeerId) (expected : PeerId)
        (server client : TlsConfig S) (transcript : Bytes)
        → build_server ed rustls s allowed ≡ ok server
        → build_client ed rustls c expected ≡ ok client
        → (completes server client transcript ≡ true)
          ↔ ((peer_id ed s ≡ expected) × ((allowed ≡ []) ⊎ Member (peer_id ed c) allowed))
    unfolding completes verify_tls13_signature peer_id
    completes_iff inj s c allowed expected server client transcript bs bc =
        let (st, sk) = built_server s allowed server bs in
        let (ct, ck) = built_client c expected client bc in
        let (sp, sd) = certified s server.certified sk in
        let (cp, cd) = certified c client.certified ck in
        ground (
          arith,
          laws.verifies server.certified.key server.certified.cert transcript sp,
          laws.verifies client.certified.key client.certified.cert transcript cp,
          verify_server_cert_iff ed inj expected (peer_id ed s) client.trusted server.certified.cert
              ct sd,
          verify_client_cert_iff ed inj allowed server.trusted (peer_id ed c) client.certified.cert
              st cd,
        )
