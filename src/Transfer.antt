-- ===== src/Transfer.antt =====
-- crates/furcate-mesh-transfer/src/lib.rs: content-addressed transfer of files in chunks. The
-- `blake3` and `hex` crates, the JSON form of a chunk header, the disk and the network are
-- parameters; messages inside errors are left out.
pub mod Disk
pub mod Serve
pub mod Pull
pub mod Whole
pub mod Streamed
pub mod RoundTrip
pub mod Service
pub mod Concurrent
use furcate_mesh.Prelude.{
  ℕ, ◌*◌, ◌+◌, ◌≡◌, Bool, true, false, Option, none, some, List, [], ◌∷◌, ◌++◌, Result, ok, err,
  if◌then◌else◌,
}
use furcate_mesh.Prelude.Text.{Bytes, Text, text_eq}
use furcate_mesh.Core.Hex.{Hex}
use furcate_mesh.Core.PeerId.{PeerId}

abbrev pub chunk_size : ℕ
chunk_size = 1024 * 1024

pub data TransferError : Type 0 where
  io : TransferError
  chunk_verify : (offset : ℕ) → TransferError
  root_verify : (expected actual : Text) → TransferError
  peer_missing : (peer : PeerId) (digest : Text) → TransferError
  transport : TransferError
  malformed_reply : TransferError

pub record ChunkHeader : Type 0 where
  pub offset : ℕ
  pub chunk_hash : Text
  pub len : ℕ
  pub last : Bool

-- The hash function and its streaming form. The crate promises that a hasher which is fed the
-- pieces of a text ends with the hash of the whole.
pub record Blake3 (H : Type 0) : Type 0 where
  pub hash : Bytes → Bytes
  pub new : H
  pub update : H → Bytes → H
  pub finalize : H → Bytes

abbrev pub update_all : {H : Type 0} → Blake3 H → H → List Bytes → H
update_all b h [] = h
update_all b h (c ∷ cs) = update_all b (b.update h c) cs

abbrev pub concat : List Bytes → Bytes
concat [] = []
concat (c ∷ cs) = c ++ concat cs

abbrev pub IsBlake3 : {H : Type 0} → Blake3 H → Type 0
IsBlake3 b = (cs : List Bytes) → b.finalize (update_all b b.new cs) ≡ b.hash (concat cs)

-- `serde_json` on chunk headers: what is written is read back.
pub record HeaderCodec : Type 0 where
  pub to_vec : ChunkHeader → Option Bytes
  pub from_slice : Bytes → Option ChunkHeader

pub record IsHeaderCodec (c : HeaderCodec) : Type 0 where
  pub encodes : (h : ChunkHeader) → (b : Bytes) × (c.to_vec h ≡ some b)
  pub round_trip : (h : ChunkHeader) (b : Bytes) → c.to_vec h ≡ some b → c.from_slice b ≡ some h

module _ {H : Type 0} (b3 : Blake3 H) (hex : Hex) where
  -- `ChunkVerifier::hash`
  abbrev pub chunk_hash : Bytes → Text
  chunk_hash bytes = hex.encode (b3.hash bytes)

  -- `ChunkVerifier::verify`
  unfoldable pub verify : ChunkHeader → Bytes → Result TransferError (Unit {0})
  verify header bytes =
      if text_eq (chunk_hash bytes) header.chunk_hash
      then ok tt
      else err (chunk_verify header.offset)
