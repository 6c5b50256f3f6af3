-- ===== src/Core/PeerId.antt =====
-- `PeerId` of crates/furcate-mesh-core/src/lib.rs: 32 key bytes, printed and parsed as hex.
pub mod HexForm
use furcate_mesh.Prelude.{
  ℕ, ◌*◌, ◌≡◌, ◌↔◌, true, Bool, Ordering, ◌++◌, Option, some, arith, length, take, All, ◌==◌,
  Result, ok, err, ok_or, ◌>>=◌, if◌then◌else◌,
}
use furcate_mesh.Prelude.Text.{Bytes, Text, IsByte, codes, text_eq, text_eq_iff, bytes_cmp}
use furcate_mesh.Prelude.Equality.{Eq}
use furcate_mesh.Core.Hex.{Hex}

-- The tuple field `.0` of the source is `key`.
pub record PeerId : Type 0 where
  pub key : Bytes

-- The type `[u8; 32]` of the field.
pub record IsPeerId (p : PeerId) : Type 0 where
  pub size : length p.key ≡ 32
  pub bytes : All IsByte p.key

pub data PeerIdError : Type 0 where
  wrong_length malformed : PeerIdError

abbrev pub from_bytes : Bytes → PeerId
from_bytes b = record { key = b }

abbrev pub as_bytes : PeerId → Bytes
as_bytes p = p.key

-- the derived `==` and `Ord::cmp`
abbrev pub peer_eq : PeerId → PeerId → Bool
peer_eq p q = text_eq p.key q.key

abbrev pub peer_cmp : PeerId → PeerId → Ordering
peer_cmp p q = bytes_cmp p.key q.key

pub peer_eq_iff : (p q : PeerId) → (peer_eq p q ≡ true) ↔ (p ≡ q)
peer_eq_iff p q = ground (arith, text_eq_iff p.key q.key)

instance abbrev pub peer_id_eq : Eq PeerId
peer_id_eq = record { same = peer_eq; same_iff = peer_eq_iff }

module _ (hex : Hex) where
  unfoldable pub to_hex : PeerId → Text
  to_hex p = hex.encode p.key

  -- `&self.0[..3]`
  unfoldable pub short : PeerId → Text
  short p = hex.encode (take 3 p.key)

  unfoldable pub from_hex : Text → Result PeerIdError PeerId
  from_hex s = do
    bytes ← ok_or (hex.decode s) malformed
    if length bytes == 32 then ok (from_bytes bytes) else err wrong_length

  -- `fmt::Display` and `fmt::Debug`
  unfoldable pub display : PeerId → Text
  unfolding to_hex
  display p = to_hex p

  unfoldable pub debug : PeerId → Text
  unfolding short
  debug p = codes "PeerId(" ++ (short p ++ codes ")")
