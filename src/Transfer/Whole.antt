-- ===== src/Transfer/Whole.antt =====
-- Replies that hold a whole file from an offset on.
use furcate_mesh.Prelude.{
  ℕ, ◌+◌, ◌<◌, ◌≤◌, ◌≡◌, refl, sym, ap, ◌∙◌, some, List, [], ◌∷◌, length, take, drop, arith, All,
  Member, inl, inr, Bool-cases, ok, ltb, leb, leb→lt, ltb→lt,
}
use furcate_mesh.Prelude.Text.{Bytes, text_eq_refl}
use furcate_mesh.Core.Hex.{Hex}
use furcate_mesh.Transfer.{ChunkHeader, Blake3, HeaderCodec, IsHeaderCodec, chunk_hash, verify}
use furcate_mesh.Transfer.Serve.{Reply, sample}
use furcate_mesh.Transfer.Pull.{accept}
use furcate_mesh.Transfer.Pull.Receive.{IsPiece, Covers, IsLast}

module _ {H : Type 0} (b3 : Blake3 H) (hex : Hex) (codec : HeaderCodec)
    (codes : IsHeaderCodec codec) where
  accept_sent :
      (h : ChunkHeader) (json payload : Bytes)
      → codec.to_vec h ≡ some json
      → h.chunk_hash ≡ chunk_hash b3 hex payload
      → accept b3 hex codec (sample (some json) payload) ≡ ok (h, payload)
  unfolding accept verify
  accept_sent h json payload e same =
      rw (codes.round_trip h json e) (rw same (rw (text_eq_refl (chunk_hash b3 hex payload)) refl))

  -- The replies hold the content from an offset on, and one of them is the last.
  pub record IsWholeFrom (content : Bytes) (offset : ℕ) (rs : List Reply) : Type 0 where
    pub pieces : All (IsPiece b3 hex codec content) rs
    pub covers :
        (i : ℕ)
        → offset ≤ i
        → i < length content
        → (r : Reply) × Member r rs × Covers b3 hex codec content i r
    pub last : offset < length content → (r : Reply) × Member r rs × IsLast b3 hex codec content r

  module _ (content : Bytes) (offset n : ℕ) (json payload : Bytes) where
    abbrev pub sent_header : ChunkHeader
    sent_header = record {
      offset = offset;
      chunk_hash = chunk_hash b3 hex payload;
      len = n;
      last = leb (length content) (offset + n);
    }

    -- one more chunk in front
    pub IsWholeFrom-cons :
        (rs : List Reply)
        → codec.to_vec sent_header ≡ some json
        → payload ≡ take n (drop offset content)
        → length payload ≡ n
        → 0 < n
        → offset + n ≤ length content
        → IsWholeFrom content (offset + n) rs
        → IsWholeFrom content offset (sample (some json) payload ∷ rs)
    IsWholeFrom-cons rs e piece size pos fits rest = record {
      pieces = (
        record {
          header = sent_header;
          payload = payload;
          accepted = accepted;
          fits = omega (arith, size);
          piece = piece ∙ ap (λ k. take k (drop offset content)) (sym size);
        },
        rest.pieces,
      );
      covers = covers;
      last = last;
    }
      where
        accepted : accept b3 hex codec (sample (some json) payload) ≡ ok (sent_header, payload)
        accepted = accept_sent sent_header json payload e refl

        covers :
            (i : ℕ)
            → offset ≤ i
            → i < length content
            → (r : Reply) × Member r (sample (some json) payload ∷ rs)
              × Covers b3 hex codec content i r
        covers i l u = elim (Bool-cases (ltb i (offset + n))) [
          | inl h ↦ (
            sample (some json) payload,
            inl refl,
            record {
              header = sent_header;
              payload = payload;
              accepted = accepted;
              from = l;
              to = omega (arith, size, ltb→lt i (offset + n) h);
            },
          )
          | inr h ↦ let (r, m, c) = rest.covers i (ground arith) u in (r, inr m, c)
        ]

        last :
            offset < length content
            → (r : Reply) × Member r (sample (some json) payload ∷ rs)
              × IsLast b3 hex codec content r
        last l = elim (Bool-cases (leb (length content) (offset + n))) [
          | inl h ↦ (
            sample (some json) payload,
            inl refl,
            record { header = sent_header; payload = payload; accepted = accepted; last = h },
          )
          | inr h ↦ let (r, m, c) = rest.last (leb→lt _ _ h) in (r, inr m, c)
        ]

  pub IsWholeFrom-nil :
      (content : Bytes) (offset : ℕ) → length content ≤ offset → IsWholeFrom content offset []
  IsWholeFrom-nil content offset h = record {
    pieces = tt;
    covers = λ i l u. absurd (omega arith);
    last = λ l. absurd (omega arith);
  }
