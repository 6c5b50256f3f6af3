-- ===== src/Identity.antt =====
-- crates/furcate-mesh-identity/src/lib.rs: the key of a peer, kept in a file, and the check of the
-- other side's raw public key. Ed25519 and the file formats are parameters; messages inside errors
-- are left out.
pub mod Kept
pub mod Accepted
pub mod Tls
pub mod Directory
use furcate_mesh.Prelude.{
  ℕ, Bool, true, false, not, ◌||◌, Option, none, some, List, [], ◌∷◌, any, Result, ok, err, ok_or,
  ◌>>=◌, if◌then◌else◌,
}
use furcate_mesh.Prelude.Text.{Bytes, Text, text_eq}
use furcate_mesh.Core.PeerId.{PeerId, from_bytes}

pub data IdentityError : Type 0 where
  io pkcs8 tls : IdentityError

-- `ed25519_dalek` with the PEM form of signing keys and the DER form of public keys.
pub record Ed25519 (K : Type 0) : Type 0 where
  pub from_pkcs8_pem : Text → Option K
  pub to_pkcs8_pem : K → Option Text
  pub verifying_key : K → Bytes
  -- of the 32 bytes, `none` where they are no public key
  pub to_public_key_der : Bytes → Option Bytes

-- The file `identity.pem` with its permission bits.
pub record KeyFile : Type 0 where
  pub pem : Text
  pub mode : ℕ

-- What the file system does during one call. A failed write may leave anything behind, and a file
-- that is created has the mode of the process. `unix` says for which kind of system the crate was
-- built, and with it whether the block under `#[cfg(unix)]` is there.
pub record Env : Type 0 where
  pub unix : Bool
  pub creates_dir : Bool
  pub reads : Bool
  pub writes : Bool
  pub broken : Option KeyFile
  pub created_mode : ℕ
  pub stats : Bool
  pub chmods : Bool

abbrev pub private_mode : ℕ
private_mode = 384

-- `std::fs::write` keeps the mode of a file that is there.
unfoldable pub written : Env → Text → Option KeyFile → KeyFile
written env pem none = record { pem = pem; mode = env.created_mode }
written env pem (some file) = record { pem = pem; mode = file.mode }

module _ {K : Type 0} (ed : Ed25519 K) where
  unfoldable pub peer_id : K → PeerId
  peer_id signing = from_bytes (ed.verifying_key signing)

  unfoldable pub load : Env → Option KeyFile → Result IdentityError K
  load env none = err io
  load env (some file) = if env.reads then ok_or (ed.from_pkcs8_pem file.pem) pkcs8 else err io

  -- From the write on.
  unfoldable pub store :
      Env → Text → Option KeyFile → Result IdentityError (Unit {0}) × Option KeyFile
  store env pem disk =
      if not env.writes
      then (err io, env.broken)
      else if not env.unix
      then (ok tt, some (written env pem disk))
      else if not env.stats
      then (err io, some (written env pem disk))
      else if not env.chmods
      then (err io, some (written env pem disk))
      else (ok tt, some (record { pem = pem; mode = private_mode }))

  unfoldable pub save : Env → K → Option KeyFile → Result IdentityError (Unit {0}) × Option KeyFile
  save env signing disk =
      if not env.creates_dir then (err io, disk) else elim (ed.to_pkcs8_pem signing) [
        | none ↦ (err pkcs8, disk)
        | some pem ↦ store env pem disk
      ]

  -- The key that `generate` draws is an argument.
  unfoldable pub load_or_generate :
      Env → K → Option KeyFile → Result IdentityError K × Option KeyFile
  load_or_generate env fresh (some file) = (load env (some file), some file)
  load_or_generate env fresh none =
      if not env.creates_dir
      then (err io, none)
      else let saved = save env fresh none in
        (elim saved.0 [ ok _ ↦ ok fresh | err e ↦ err e ], saved.1)

  unfoldable pub peer_id_to_spki : PeerId → Result IdentityError Bytes
  peer_id_to_spki peer = ok_or (ed.to_public_key_der peer.key) tls

  -- `iter().map(peer_id_to_spki).collect::<Result<_>>()`
  unfoldable pub allow_list : List PeerId → Result IdentityError (List Bytes)
  allow_list [] = ok []
  allow_list (peer ∷ peers) = do
    spki ← peer_id_to_spki peer
    rest ← allow_list peers
    ok (spki ∷ rest)

  -- The allow-list of a server's verifier, and of a client's, as `build` makes them.
  unfoldable pub server_trusted : List PeerId → Result IdentityError (List Bytes)
  server_trusted allowed = allow_list allowed

  unfoldable pub client_trusted : PeerId → Result IdentityError (List Bytes)
  client_trusted expected_server = do spki ← peer_id_to_spki expected_server; ok (spki ∷ [])

unfoldable pub contains : List Bytes → Bytes → Bool
contains trusted presented = any (λ t. text_eq t presented) trusted

unfoldable pub is_empty : List Bytes → Bool
is_empty [] = true
is_empty (t ∷ ts) = false

-- `RpkServerCertVerifier::verify_server_cert`: whether the certificate is accepted.
unfoldable pub verify_server_cert : List Bytes → Bytes → Bool
verify_server_cert trusted presented = contains trusted presented

-- `RpkClientCertVerifier::verify_client_cert`, with `open` as `new` sets it.
unfoldable pub verify_client_cert : List Bytes → Bytes → Bool
verify_client_cert trusted presented = is_empty trusted || contains trusted presented
