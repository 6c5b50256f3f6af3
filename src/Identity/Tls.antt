-- ===== src/Identity/Tls.antt =====
-- `ServerTlsConfig` and `ClientTlsConfig`: the rustls configurations for raw public keys, and the
-- verifiers' other methods. Rustls is a parameter.
pub mod Handshake
use furcate_mesh.Prelude.{
  Bool, true, false, List, [], ◌∷◌, Option, none, some, Result, ok, err, ok_or, ◌>>=◌,
}
use furcate_mesh.Prelude.Text.{Bytes}
use furcate_mesh.Core.PeerId.{PeerId}
use furcate_mesh.Identity.{IdentityError, tls, Ed25519, server_trusted, client_trusted}

-- The PKCS#8 form of a signing key `K`, and what rustls does with a private key `S` that it has
-- loaded. A signature is a byte string.
pub record Rustls (K S : Type 0) : Type 0 where
  pub to_pkcs8_der : K → Option Bytes
  -- `PrivateKeyDer::try_from`
  pub private_key_der : Bytes → Option Bytes
  pub load_private_key : Bytes → Option S
  pub public_key : S → Option Bytes
  pub sign : S → Bytes → Bytes
  pub verify_tls13_signature_with_raw_key : (message spki signature : Bytes) → Bool

-- The key that a side presents, with the private key behind it.
pub record CertifiedKey (S : Type 0) : Type 0 where
  pub cert : Bytes
  pub key : S

pub record TlsConfig (S : Type 0) : Type 0 where
  pub trusted : List Bytes
  pub certified : CertifiedKey S

module _ {K S : Type 0} (rustls : Rustls K S) where
  unfoldable pub certified_key_from : K → Result IdentityError (CertifiedKey S)
  certified_key_from signing = do
    pkcs8_der ← ok_or (rustls.to_pkcs8_der signing) tls
    priv_key ← ok_or (rustls.private_key_der pkcs8_der) tls
    signing_key ← ok_or (rustls.load_private_key priv_key) tls
    public_spki ← ok_or (rustls.public_key signing_key) tls
    ok (record { cert = public_spki; key = signing_key })

  -- The methods that both verifiers have: TLS 1.2 is refused, TLS 1.3 is rustls's own check.
  unfoldable pub verify_tls12_signature : (message cert signature : Bytes) → Bool
  verify_tls12_signature message cert signature = false

  unfoldable pub verify_tls13_signature : (message cert signature : Bytes) → Bool
  verify_tls13_signature message cert signature =
      rustls.verify_tls13_signature_with_raw_key message cert signature

  unfoldable pub requires_raw_public_keys : Bool
  requires_raw_public_keys = true

module _ {K S : Type 0} (ed : Ed25519 K) (rustls : Rustls K S) where
  -- `ServerTlsConfig::build`
  unfoldable pub build_server :
      (identity : K) (allowed : List PeerId) → Result IdentityError (TlsConfig S)
  build_server identity allowed = do
    allowed_spki ← server_trusted ed allowed
    certified_key ← certified_key_from rustls identity
    ok (record { trusted = allowed_spki; certified = certified_key })

  -- `ClientTlsConfig::build`
  unfoldable pub build_client :
      (identity : K) (expected_server : PeerId) → Result IdentityError (TlsConfig S)
  build_client identity expected_server = do
    server_spki ← client_trusted ed expected_server
    certified_key ← certified_key_from rustls identity
    ok (record { trusted = server_spki; certified = certified_key })
