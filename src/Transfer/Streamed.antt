-- ===== src/Transfer/Streamed.antt =====
-- What `stream_file_chunks` sends, over a working disk and network and however short the reads are:
-- replies that hold the whole file, each accepted by the receiver, the final one marked.
use furcate_mesh.Prelude.{
  ℕ, ◌+◌, ◌-◌, ◌^◌, ◌<◌, ◌≤◌, ◌≡◌, refl, ap, ◌∙◌, true, false, some, [], ◌∷◌, length, take, drop,
  arith, Shorter, Shorter-wf, inl, inr, Bool-cases, ok, leb, leb→le, if◌then◌else◌, dec_lt,
}
use mathlib.Core.Logic.{dif_neg}
use mathlib.Core.WellFounded.{Acc}
use furcate_mesh.Prelude.Lists.{length-take, length-drop}
use furcate_mesh.Prelude.Lists.Index.{drop-drop}
use furcate_mesh.Prelude.Text.{Bytes}
use furcate_mesh.Core.Hex.{Hex}
use furcate_mesh.Transfer.{Blake3, HeaderCodec, IsHeaderCodec, chunk_size}
use furcate_mesh.Transfer.Disk.{Reads, read_len, read_len-le, read_len_pos, drop_shorter}
use furcate_mesh.Transfer.Serve.{
  sample, Sends, Stream, prepend, stream_loop, send_chunk, stream_file_chunks,
}
use furcate_mesh.Transfer.Serve.Rounds.{stream_more, stream_end}
use furcate_mesh.Transfer.Pull.Complete.{NeverFails}
use furcate_mesh.Transfer.Whole.{IsWholeFrom, IsWholeFrom-cons, IsWholeFrom-nil, sent_header}

module _ {H : Type 0} (b3 : Blake3 H) (hex : Hex) (codec : HeaderCodec)
    (codes : IsHeaderCodec codec) where
  module _ (sends : Sends) (sends_all : (o : ℕ) → sends o ≡ true) (content : Bytes) where
    -- how the loop ends from an offset
    abbrev pub Sent : ℕ → Stream → Type 0
    Sent offset res = (res.1 ≡ ok tt) × IsWholeFrom b3 hex codec codes content offset res.0

    send_chunk_eq :
        (offset n : ℕ) (json payload : Bytes) (after : Stream)
        → n ≤ chunk_size
        → codec.to_vec (sent_header b3 hex codec codes content offset n json payload) ≡ some json
        → send_chunk b3 hex codec sends (length content) offset n payload after
          ≡ prepend
              (sample (some json) payload)
              (if leb (length content) (offset + n) then ([], ok tt) else after)
    unfolding send_chunk
    send_chunk_eq offset n json payload after small e =
        let fits : leb (2 ^ 32) n ≡ false = ground arith in
        rw (fits, send_chunk) (rw e (rw (sends_all offset) refl))

    Sent-cons :
        (offset n : ℕ) (json payload : Bytes) (after : Stream)
        → codec.to_vec (sent_header b3 hex codec codes content offset n json payload) ≡ some json
        → payload ≡ take n (drop offset content)
        → length payload ≡ n
        → 0 < n
        → offset + n ≤ length content
        → Sent (offset + n) after
        → Sent offset (
            prepend
              (sample (some json) payload)
              (if leb (length content) (offset + n) then ([], ok tt) else after))
    Sent-cons offset n json payload after e piece size pos fits (done, rest) =
        elim (Bool-cases (leb (length content) (offset + n))) [
          | inl h ↦ rw h (
            refl,
            IsWholeFrom-cons b3 hex codec codes content offset n json payload [] e piece size pos
                fits (IsWholeFrom-nil b3 hex codec codes content (offset + n) (leb→le _ _ h)),
          )
          | inr h ↦ rw h (
            done,
            IsWholeFrom-cons b3 hex codec codes content offset n json payload after.0 e piece size
                pos fits rest,
          )
        ]

    send_chunk_lem :
        (offset n : ℕ) (payload : Bytes) (after : Stream)
        → payload ≡ take n (drop offset content)
        → length payload ≡ n
        → 0 < n
        → n ≤ chunk_size
        → offset + n ≤ length content
        → Sent (offset + n) after
        → Sent offset (send_chunk b3 hex codec sends (length content) offset n payload after)
    send_chunk_lem offset n payload after piece size pos small fits sent =
        let (json, e) =
          codes.encodes (sent_header b3 hex codec codes content offset n [] payload) in
        rw (send_chunk_eq offset n json payload after small e)
          (Sent-cons offset n json payload after e piece size pos fits sent)

    stream_loop_lem :
        (reads : Reads) (offset : ℕ) (rest : Bytes) (w : Acc Shorter rest)
        → NeverFails reads
        → offset ≤ length content
        → rest ≡ drop offset content
        → Sent offset (stream_loop b3 hex codec sends reads (length content) offset rest w)
    stream_loop_lem reads offset rest (Acc.intro _ below) never l e =
        let (k, q) = never offset in
        let size : length rest ≡ length content - offset =
          ap length e ∙ length-drop offset content in
        elim (dec_lt 0 (read_len k rest)) [
          | yes more ↦
              let n = read_len k rest in
              let small : n ≤ length rest = (read_len-le k rest).0 in
              rw (stream_more b3 hex codec sends reads (length content) offset rest below k q more)
                (send_chunk_lem offset n (take n rest) _ (ap (take n) e)
                  (omega (arith, length-take n rest)) more (read_len-le k rest).1 (omega arith)
                  (stream_loop_lem reads (offset + n) (drop n rest)
                    (below (drop n rest) (drop_shorter k rest more)) never (omega arith)
                    (ap (drop n) e ∙ drop-drop n offset content)))
          | no stop ↦
              rw (stream_end b3 hex codec sends reads (length content) offset rest below k q stop) (
                refl,
                IsWholeFrom-nil b3 hex codec codes content offset (nothing_behind rest size k stop),
              )
        ]
      where
        nothing_behind :
            (rest : Bytes)
            → length rest ≡ length content - offset
            → (k : ℕ) → ¬ (0 < read_len k rest)
            → length content ≤ offset
        nothing_behind [] size k stop = omega arith
        nothing_behind (b ∷ bs) size k stop = absurd (stop (read_len_pos k (b ∷ bs) (omega arith)))

    pub stream_lem :
        (reads : Reads)
        → NeverFails reads
        → Sent 0 (stream_file_chunks b3 hex codec sends reads (some content))
    unfolding stream_file_chunks
    stream_lem reads never =
        stream_loop_lem reads 0 content (Shorter-wf.apply content) never (omega arith) refl

  -- nothing is sent of an empty file
  pub stream_empty :
      (sends : Sends) (reads : Reads)
      → NeverFails reads
      → stream_file_chunks b3 hex codec sends reads (some []) ≡ ([], ok tt)
  unfolding stream_file_chunks
  stream_empty sends reads never =
      let (k, q) = never 0 in
      rw (q, stream_loop)
        (dif_neg (dec_lt 0 (read_len k [])) (λ h. omega (arith, h, (read_len-le k []).0)) _ _)
