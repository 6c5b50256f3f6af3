-- ===== src/Tests/IdentityRuns.antt =====
-- crates/furcate-mesh-identity: runs, and its theorems at concrete inputs.
use furcate_mesh.Prelude.{
  if◌then◌else◌, arith, ◌++◌, ◌≡◌, ◌↔◌, ◌⊎◌, refl, true, none, some, [], ◌∷◌, Member, ok,
}
use furcate_mesh.Prelude.Text.{Text, codes, text_eq, text_eq_refl}
use furcate_mesh.Core.PeerId.{PeerId, from_bytes}
use furcate_mesh.Identity.{
  Ed25519, KeyFile, Env, load, store, save, load_or_generate, server_trusted, contains, is_empty,
  client_trusted, allow_list, peer_id_to_spki, peer_id, verify_client_cert, verify_server_cert,
}
use furcate_mesh.Identity.Kept.{IsEd25519, IsGuarded, load-save, load_or_generate_again}
use furcate_mesh.Identity.Directory.{Vars, default_config_dir, unix_uid_zero, home_dir, join}
use furcate_mesh.Identity.Tls.{
  Rustls, TlsConfig, certified_key_from, verify_tls13_signature, build_server, build_client,
}
use furcate_mesh.Identity.Tls.Handshake.{IsRustls, completes, completes_iff}
use furcate_mesh.Identity.Accepted.{IsInjective}

-- keys that are their own text
abbrev pub plain_ed : Ed25519 Text
plain_ed = record {
  from_pkcs8_pem = λ s. some s;
  to_pkcs8_pem = λ k. some k;
  verifying_key = λ k. k;
  to_public_key_der = λ b. some b;
}

pub plain_ed-IsEd25519 : IsEd25519 plain_ed
plain_ed-IsEd25519 = record { pem_round_trip = λ k pem h. cc }

plain_ed-IsInjective : IsInjective plain_ed
plain_ed-IsInjective a b d h g = cc

abbrev pub calm : Env
calm = record {
  unix = true;
  creates_dir = true;
  reads = true;
  writes = true;
  broken = none;
  created_mode = 420;
  stats = true;
  chmods = true;
}

abbrev key : Text
key = 1 ∷ 2 ∷ []

saved : (save plain_ed calm key none).0 ≡ ok tt
unfolding save store
saved = refl

load-save_example :
    (file : KeyFile) × ((save plain_ed calm key none).1 ≡ some file)
    × IsGuarded calm none file
    × (load plain_ed calm (some file) ≡ ok key)
load-save_example = load-save plain_ed plain_ed-IsEd25519 calm calm key none saved refl

generates : (load_or_generate plain_ed calm key none).0 ≡ ok key
unfolding load_or_generate save store
generates = refl

load_or_generate_again_example :
    load_or_generate plain_ed calm (3 ∷ []) (load_or_generate plain_ed calm key none).1
    ≡ (ok key, (load_or_generate plain_ed calm key none).1)
load_or_generate_again_example =
    load_or_generate_again plain_ed plain_ed-IsEd25519 calm calm key (3 ∷ []) key none generates
      refl

abbrev peer : PeerId
peer = from_bytes (1 ∷ [])

trusted : server_trusted plain_ed (peer ∷ []) ≡ ok ((1 ∷ []) ∷ [])
unfolding server_trusted allow_list peer_id_to_spki
trusted = refl

expected : client_trusted plain_ed peer ≡ ok ((1 ∷ []) ∷ [])
unfolding client_trusted peer_id_to_spki
expected = refl

-- a signature is the signer's key with the message
abbrev plain_rustls : Rustls Text Text
plain_rustls = record {
  to_pkcs8_der = λ k. some k;
  private_key_der = λ b. some b;
  load_private_key = λ b. some b;
  public_key = λ s. some s;
  sign = λ s message. s ++ message;
  verify_tls13_signature_with_raw_key =
      λ message spki signature. text_eq (spki ++ message) signature;
}

plain_rustls-IsRustls : IsRustls plain_ed plain_rustls
plain_rustls-IsRustls = record {
  loads = λ k der priv s a b d. cc;
  verifies = λ s spki message h. ground (arith, text_eq_refl (spki ++ message));
}

abbrev server_config : TlsConfig Text
server_config = record {
  trusted = (2 ∷ []) ∷ [];
  certified = record { cert = 1 ∷ []; key = 1 ∷ [] };
}

abbrev client_config : TlsConfig Text
client_config = record {
  trusted = (1 ∷ []) ∷ [];
  certified = record { cert = 2 ∷ []; key = 2 ∷ [] };
}

builds_server :
    build_server plain_ed plain_rustls (1 ∷ []) (from_bytes (2 ∷ []) ∷ []) ≡ ok server_config
unfolding build_server server_trusted allow_list peer_id_to_spki certified_key_from
builds_server = refl

builds_client : build_client plain_ed plain_rustls (2 ∷ []) peer ≡ ok client_config
unfolding build_client client_trusted peer_id_to_spki certified_key_from
builds_client = refl

shakes_hands : completes plain_ed plain_rustls server_config client_config (9 ∷ []) ≡ true
unfolding completes verify_server_cert verify_client_cert verify_tls13_signature contains text_eq
    is_empty
shakes_hands = refl

completes_iff_example :
    (completes plain_ed plain_rustls server_config client_config (9 ∷ []) ≡ true) ↔ (
      (peer_id plain_ed (1 ∷ []) ≡ peer)
      × ((from_bytes (2 ∷ []) ∷ [] ≡ [])
          ⊎ Member (peer_id plain_ed (2 ∷ [])) (from_bytes (2 ∷ []) ∷ [])))
completes_iff_example =
    completes_iff plain_ed plain_rustls plain_rustls-IsRustls plain_ed-IsInjective (1 ∷ []) (2 ∷ [])
      (from_bytes (2 ∷ []) ∷ []) peer server_config client_config (9 ∷ []) builds_server
      builds_client

abbrev user_vars : Vars
user_vars name = if text_eq name (codes "HOME") then some (codes "/home/a") else none

of_user : default_config_dir true user_vars ≡ codes "/home/a/.config/furcate-mesh"
unfolding default_config_dir unix_uid_zero home_dir join text_eq
of_user = refl

abbrev root_vars : Vars
root_vars name = if text_eq name (codes "USER") then some (codes "root") else none

of_root : default_config_dir true root_vars ≡ codes "/var/lib/furcate-mesh"
unfolding default_config_dir unix_uid_zero text_eq
of_root = refl
