-- ===== src/Transfer/Pull.antt =====
-- `pull_with_options`: the receiving side. The cache directory is a map from file names to
-- contents; what the disk and the network do is an argument.
pub mod Effect
pub mod Receive
pub mod Verified
pub mod Complete
use furcate_mesh.Prelude.{
  ℕ, zero, suc, ◌+◌, Bool, true, false, not, ◌||◌, Option, none, some, List, [], ◌∷◌, ◌++◌, Result,
  ok, err, ok_or, ◌>>=◌, ◌>>◌, if◌then◌else◌,
}
use furcate_mesh.Prelude.Text.{Bytes, Text, codes, text_eq}
use furcate_mesh.Prelude.Equality.{text_eq_instance}
use furcate_mesh.Prelude.Dict.{get, insert, remove}
use furcate_mesh.Core.Hex.{Hex}
use furcate_mesh.Core.PeerId.{PeerId}
use furcate_mesh.Transfer.{
  TransferError, io, root_verify, peer_missing, transport, malformed_reply, ChunkHeader, Blake3,
  HeaderCodec, verify,
}
use furcate_mesh.Transfer.Disk.{Reads, write_at}
use furcate_mesh.Transfer.Serve.{Reply, sample, failure, root_hash}

abbrev pub Cache : Type 0
Cache = List (Text × Bytes)

-- What the disk and the network do during one pull.
pub record Env : Type 0 where
  pub creates_dir : Bool
  pub opens_tmp : Bool
  -- the replies that arrive before the channel closes; `none` where `session.get` fails
  pub replies : Option (List Reply)
  -- whether seeking to and writing the chunk of each reply succeeds
  pub writes : ℕ → Bool
  pub flushes : Bool
  -- reading the temporary file back; `none` where it cannot be opened
  pub reads : Option Reads
  pub removes : Bool
  pub renames : Bool

-- The temporary file's name.
unfoldable pub partial : Text → Text
partial digest = digest ++ codes ".partial"

-- `let _ = remove_file(&tmp_path)`
unfoldable pub discard : Env → Text → Cache → Cache
discard env digest m = if env.removes then remove (partial digest) m else m

-- `rename(&tmp_path, &final_path)`
unfoldable pub rename : Text → Bytes → Cache → Cache
rename digest file m = insert digest file (remove (partial digest) m)

module _ {H : Type 0} (b3 : Blake3 H) (hex : Hex) (codec : HeaderCodec) where
  -- The header of a reply and its payload, checked against each other.
  unfoldable pub accept : Reply → Result TransferError (ChunkHeader × Bytes)
  accept failure = err transport
  accept (sample attachment payload) = do
    header_bytes ← ok_or attachment malformed_reply
    header ← ok_or (codec.from_slice header_bytes) malformed_reply
    verify b3 hex header payload
    ok (header, payload)

  -- The loop over the replies: the temporary file as it is left, and `got_any` with `got_last`.
  -- `i` counts the replies. A write that fails leaves the temporary file as it was.
  unfoldable pub receive :
      (writes : ℕ → Bool) (i : ℕ) (file : Bytes) (got_any got_last : Bool)
      → List Reply
      → Bytes × Result TransferError (Bool × Bool)
  receive writes i file got_any got_last [] = (file, ok (got_any, got_last))
  receive writes i file got_any got_last (r ∷ rs) = elim (accept r) [
    | err e ↦ (file, err e)
    | ok (header, payload) ↦ elim (writes i) [
      | false ↦ (file, err io)
      | true ↦
          receive writes (suc i) (write_at file header.offset payload) true
            (header.last || got_last) rs
    ]
  ]

  pub read_back : Option Reads → Bytes → Result TransferError Text
  read_back none file = err io
  read_back (some reads) file = root_hash b3 hex reads (some file)

  -- From the root hash to the end.
  unfoldable pub install : Env → Text → Bytes → Cache → Result TransferError Text × Cache
  unfolding read_back discard rename
  install env digest file m = elim (read_back env.reads file) [
    | err e ↦ (err e, m)
    | ok actual ↦
        if text_eq actual digest
        then (if env.renames then (ok digest, rename digest file m) else (err io, m))
        else (err (root_verify digest actual), discard env digest m)
  ]

  -- From the end of the loop over the replies.
  unfoldable pub finish :
      Env
      → PeerId
      → Text
      → Cache
      → Bytes × Result TransferError (Bool × Bool)
      → Result TransferError Text × Cache
  unfolding install
  finish env peer digest m (file, err e) = (err e, m)
  finish env peer digest m (file, ok (got_any, got_last)) =
      if not got_any
      then (err (peer_missing peer digest), discard env digest m)
      else if not got_last
      then (err malformed_reply, discard env digest m)
      else if not env.flushes
      then (err io, m)
      else install env digest file m

  -- From the opening of the temporary file, which is created empty.
  unfoldable pub fetch : Env → PeerId → Text → Cache → Result TransferError Text × Cache
  unfolding finish receive
  fetch env peer digest m = if not env.opens_tmp then (err io, m) else elim env.replies [
    | none ↦ (err transport, insert (partial digest) [] m)
    | some rs ↦
        let received = receive env.writes 0 [] false false rs in
        finish env peer digest (insert (partial digest) received.0 m) received
  ]

  -- The path that is returned is the file's name in the cache directory.
  unfoldable pub pull_with_options : Env → PeerId → Text → Cache → Result TransferError Text × Cache
  unfolding fetch
  pull_with_options env peer digest m =
      if not env.creates_dir
      then (err io, m)
      else elim (get digest m) [ some _ ↦ (ok digest, m) | none ↦ fetch env peer digest m ]

  -- with the default options: the timeout is in the environment
  abbrev pub pull : Env → PeerId → Text → Cache → Result TransferError Text × Cache
  pull env peer digest m = pull_with_options env peer digest m
