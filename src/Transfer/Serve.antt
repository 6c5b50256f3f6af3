-- ===== src/Transfer/Serve.antt =====
-- `root_hash` and `stream_file_chunks`: the two loops that read a file.
pub mod RootHash
pub mod Rounds
pub mod Bounds
use mathlib.Core.Logic.{dite}
use mathlib.Core.WellFounded.{Acc}
use furcate_mesh.Prelude.{
  ℕ, ◌+◌, ◌^◌, ◌<◌, Bool, true, false, not, Option, none, some, List, [], ◌∷◌, length, take, drop,
  ltb, leb, Shorter, Shorter-wf, Result, ok, err, ◌>>=◌, if◌then◌else◌, dec_lt,
}
use furcate_mesh.Prelude.Text.{Bytes, Text}
use furcate_mesh.Core.Hex.{Hex}
use furcate_mesh.Transfer.{
  TransferError, io, transport, ChunkHeader, Blake3, HeaderCodec, chunk_hash,
}
use furcate_mesh.Transfer.Disk.{Reads, read_len, drop_shorter}

-- A reply of a Zenoh query: a sample with its attachment, or an error.
pub data Reply : Type 0 where
  sample : (attachment : Option Bytes) (payload : Bytes) → Reply
  failure : Reply

module _ {H : Type 0} (b3 : Blake3 H) (hex : Hex) (reads : Reads) where
  -- `rest` is what lies behind the position `pos`.
  hash_loop : (pos : ℕ) (hasher : H) (rest : Bytes) → Acc Shorter rest → Result TransferError H
  hash_loop pos hasher rest (Acc.intro _ below) = elim (reads pos) [
    | none ↦ err io
    | some k ↦
        let n = read_len k rest in
        dite (dec_lt 0 n)
          (λ more.
            hash_loop (pos + n) (b3.update hasher (take n rest)) (drop n rest)
              (below (drop n rest) (drop_shorter k rest more)))
          (λ _. ok hasher)
  ]

  -- The argument is the file's content, `none` where it cannot be opened.
  unfoldable pub root_hash : Option Bytes → Result TransferError Text
  unfolding hash_loop Shorter-wf
  root_hash none = err io
  root_hash (some content) = do
    hasher ← hash_loop 0 b3.new content (Shorter-wf.apply content)
    ok (hex.encode (b3.finalize hasher))

-- Whether `query.reply` succeeds at each offset.
abbrev pub Sends : Type 0
Sends = ℕ → Bool

-- The replies that were sent, and how the loop ended.
abbrev pub Stream : Type 0
Stream = List Reply × Result TransferError (Unit {0})

abbrev pub prepend : Reply → Stream → Stream
prepend r (rs, end) = (r ∷ rs, end)

module _ {H : Type 0} (b3 : Blake3 H) (hex : Hex) where
  unfoldable pub header_of : (total_len offset n : ℕ) (payload : Bytes) → ChunkHeader
  header_of total_len offset n payload = record {
    offset = offset;
    chunk_hash = chunk_hash b3 hex payload;
    len = n;
    last = leb total_len (offset + n);
  }

module _ {H : Type 0} (b3 : Blake3 H) (hex : Hex) (codec : HeaderCodec) (sends : Sends) where
  -- One chunk: the header, its JSON form and the reply. `after` is what the loop does after it.
  unfoldable pub send_chunk : (total_len offset n : ℕ) (payload : Bytes) (after : Stream) → Stream
  unfolding header_of
  send_chunk total_len offset n payload after =
      if leb (2 ^ 32) n
      then ([], err transport)
      else elim (codec.to_vec (header_of b3 hex total_len offset n payload)) [
        | none ↦ ([], err transport)
        | some json ↦
            if sends offset
            then prepend (sample (some json) payload)
                (if leb total_len (offset + n) then ([], ok tt) else after)
            else ([], err transport)
      ]

  -- `rest` is what lies behind `offset`.
  unfoldable pub stream_loop :
      (reads : Reads) (total_len offset : ℕ) (rest : Bytes) → Acc Shorter rest → Stream
  unfolding send_chunk
  stream_loop reads total_len offset rest (Acc.intro _ below) = elim (reads offset) [
    | none ↦ ([], err io)
    | some k ↦
        let n = read_len k rest in
        dite (dec_lt 0 n)
          (λ more.
            let after =
              stream_loop reads total_len (offset + n) (drop n rest)
                (below (drop n rest) (drop_shorter k rest more)) in
            send_chunk total_len offset n (take n rest) after)
          (λ _. ([], ok tt))
  ]

  -- The argument is the file's content, `none` where it cannot be opened.
  unfoldable pub stream_file_chunks : Reads → Option Bytes → Stream
  unfolding stream_loop Shorter-wf
  stream_file_chunks reads none = ([], err io)
  stream_file_chunks reads (some content) =
      stream_loop reads (length content) 0 content (Shorter-wf.apply content)
