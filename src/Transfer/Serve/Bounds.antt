-- ===== src/Transfer/Serve/Bounds.antt =====
-- The chunks that `stream_file_chunks` sends, whatever the disk and the network do.
use mathlib.Core.WellFounded.{Acc}
use furcate_mesh.Prelude.{
  ℕ, ◌+◌, ◌-◌, ◌^◌, ◌<◌, ◌≤◌, ◌≡◌, ◌↔◌, refl, ap, ◌∙◌, true, false, some, List, [], ◌∷◌, length,
  take, drop, arith, Shorter, Shorter-wf, Option-cases, Bool-cases, inl, inr, leb, dec_lt,
}
use furcate_mesh.Prelude.Lists.{length-take, length-drop}
use furcate_mesh.Prelude.Lists.Index.{drop-drop}
use furcate_mesh.Prelude.Text.{Bytes}
use furcate_mesh.Core.Hex.{Hex}
use furcate_mesh.Transfer.{Blake3, HeaderCodec, ChunkHeader, chunk_size, chunk_hash}
use furcate_mesh.Transfer.Disk.{Reads, read_len, read_len-le, drop_shorter}
use furcate_mesh.Transfer.Serve.{
  Reply, sample, Sends, Stream, header_of, send_chunk, stream_loop, stream_file_chunks,
}
use furcate_mesh.Transfer.Serve.Rounds.{stream_more, stream_end}

module _ {H : Type 0} (b3 : Blake3 H) (hex : Hex) (codec : HeaderCodec) (content : Bytes) where
  -- A chunk of some bytes at an offset: its header and its payload.
  pub record IsChunk (offset n : ℕ) (r : Reply) : Type 0 where
    pub header : ChunkHeader
    pub json : Bytes
    pub payload : Bytes
    pub reply : r ≡ sample (some json) payload
    pub encoded : codec.to_vec header ≡ some json
    pub at : header.offset ≡ offset
    pub hashed : header.chunk_hash ≡ chunk_hash b3 hex payload
    pub len : header.len ≡ n
    pub size : length payload ≡ n
    pub filled : 0 < n
    pub small : n ≤ chunk_size
    pub inside : offset + n ≤ length content
    pub piece : payload ≡ take n (drop offset content)
    pub last_iff : (header.last ≡ true) ↔ (offset + n ≡ length content)

  -- each chunk where the one before it ends
  abbrev pub Contiguous : ℕ → List Reply → Type 0
  Contiguous offset [] = Unit
  Contiguous offset (r ∷ rs) = (n : ℕ) × IsChunk offset n r × Contiguous (offset + n) rs

  IsChunk-sent :
      (offset n : ℕ) (payload json : Bytes)
      → payload ≡ take n (drop offset content)
      → length payload ≡ n
      → 0 < n
      → n ≤ chunk_size
      → offset + n ≤ length content
      → codec.to_vec (header_of b3 hex (length content) offset n payload) ≡ some json
      → IsChunk offset n (sample (some json) payload)
  unfolding header_of
  IsChunk-sent offset n payload json piece size pos small fits e = record {
    header = header_of b3 hex (length content) offset n payload;
    json = json;
    payload = payload;
    reply = refl;
    encoded = e;
    at = refl;
    hashed = refl;
    len = refl;
    size = size;
    filled = pos;
    small = small;
    inside = fits;
    piece = piece;
    last_iff = ground (arith, fits);
  }

  module _ (sends : Sends) where
    Contiguous-send_chunk :
        (offset n : ℕ) (payload : Bytes) (after : Stream)
        → payload ≡ take n (drop offset content)
        → length payload ≡ n
        → 0 < n
        → n ≤ chunk_size
        → offset + n ≤ length content
        → Contiguous (offset + n) after.0
        → Contiguous offset
            (send_chunk b3 hex codec sends (length content) offset n payload after).0
    unfolding send_chunk
    Contiguous-send_chunk offset n payload after piece size pos small fits rest =
        let big : leb (2 ^ 32) n ≡ false = ground arith in
        elim (Option-cases (codec.to_vec (header_of b3 hex (length content) offset n payload))) [
          | inl e ↦ rw (big, send_chunk) (rw e tt)
          | inr (json, e) ↦
              let chunk = IsChunk-sent offset n payload json piece size pos small fits e in
              elim (Bool-cases (sends offset)) [
                | inr s ↦ rw (big, send_chunk) (rw e (rw s tt))
                | inl s ↦ elim (Bool-cases (leb (length content) (offset + n))) [
                  | inl l ↦ rw (big, send_chunk) (rw e (rw s (rw l (n, chunk, tt))))
                  | inr l ↦ rw (big, send_chunk) (rw e (rw s (rw l (n, chunk, rest))))
                ]
              ]
        ]

    Contiguous-stream_loop :
        (reads : Reads) (offset : ℕ) (rest : Bytes) (w : Acc Shorter rest)
        → offset ≤ length content
        → rest ≡ drop offset content
        → Contiguous offset (stream_loop b3 hex codec sends reads (length content) offset rest w).0
    unfolding stream_loop
    Contiguous-stream_loop reads offset rest (Acc.intro _ below) l e =
        let size : length rest ≡ length content - offset =
          ap length e ∙ length-drop offset content in
        elim (Option-cases (reads offset)) [
          | inl q ↦ rw (q, stream_loop) tt
          | inr (k, q) ↦ elim (dec_lt 0 (read_len k rest)) [
            | no stop ↦
                rw (stream_end b3 hex codec sends reads (length content) offset rest below k q stop)
                  tt
            | yes more ↦
                let n = read_len k rest in
                let small : n ≤ length rest = (read_len-le k rest).0 in
                rw
                  (stream_more b3 hex codec sends reads (length content) offset rest below k q more)
                  (Contiguous-send_chunk offset n (take n rest) _ (ap (take n) e)
                    (omega (arith, length-take n rest)) more (read_len-le k rest).1 (omega arith)
                    (Contiguous-stream_loop reads (offset + n) (drop n rest)
                      (below (drop n rest) (drop_shorter k rest more)) (omega arith)
                      (ap (drop n) e ∙ drop-drop n offset content)))
          ]
        ]

    -- Whatever the reads, the encoder and the network do, the chunks of a file that are sent stand
    -- one behind the other from its start. Each has at least one byte and at most `CHUNK_SIZE`, lies
    -- inside the file, says its true offset, length and hash, and is marked as the last exactly if
    -- it ends the file.
    pub stream-Contiguous :
        (reads : Reads)
        → Contiguous 0 (stream_file_chunks b3 hex codec sends reads (some content)).0
    unfolding stream_file_chunks
    stream-Contiguous reads =
        Contiguous-stream_loop reads 0 content (Shorter-wf.apply content) (omega arith) refl
