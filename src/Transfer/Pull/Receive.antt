-- ===== src/Transfer/Pull/Receive.antt =====
-- The loop over the replies, for replies that are true pieces of one file, in any order, repeated
-- or mixed from several peers: it writes them where they belong.
use furcate_mesh.Prelude.{
  ℕ, suc, ◌+◌, ◌-◌, ◌<◌, ◌≤◌, ◌≡◌, refl, sym, ap, ◌∙◌, Bool, true, ◌||◌, List, [], ◌∷◌, length,
  get_elem?, take, drop, arith, All, Member, inl, inr, Bool-cases, Result, ok, ltb, ltb→lt,
}
use furcate_mesh.Prelude.Lists.Index.{lt_of_get_elem?, get_elem?-lt, get_elem?-take, get_elem?-drop}
use furcate_mesh.Prelude.Text.{Bytes}
use furcate_mesh.Core.Hex.{Hex}
use furcate_mesh.Transfer.{TransferError, Blake3, HeaderCodec, ChunkHeader}
use furcate_mesh.Transfer.Disk.{write_at}
use furcate_mesh.Transfer.Disk.Written.{
  get_elem?-write_at_before, get_elem?-write_at_in, get_elem?-write_at_after, length-write_at,
}
use furcate_mesh.Transfer.Serve.{Reply}
use furcate_mesh.Transfer.Pull.{accept, receive}

-- The byte at a position is that of the content.
abbrev pub Right : Bytes → ℕ → Bytes → Type 0
Right content i file = get_elem? file i ≡ get_elem? content i

-- writing a piece of the content makes its bytes right
Right-write_at_in :
    (content file : Bytes) (offset : ℕ) (d : Bytes) (i : ℕ)
    → d ≡ take (length d) (drop offset content)
    → offset ≤ i
    → i < offset + length d
    → Right content i (write_at file offset d)
Right-write_at_in content file offset d i piece l u =
    get_elem?-write_at_in file offset d i l u
    ∙ ap (λ t. get_elem? t (i - offset)) piece
    ∙ get_elem?-take (length d) (drop offset content) (i - offset) (omega arith)
    ∙ get_elem?-drop offset content (i - offset)
    ∙ ap (get_elem? content) (omega arith)

-- and keeps what is right
Right-write_at :
    (content file : Bytes) (offset : ℕ) (d : Bytes) (i : ℕ)
    → d ≡ take (length d) (drop offset content)
    → i < length content
    → Right content i file
    → Right content i (write_at file offset d)
Right-write_at content file offset d i piece l h = elim (Bool-cases (ltb i offset)) [
  | inl before ↦
      let (x, e) = get_elem?-lt content i l in
      get_elem?-write_at_before file offset d i (ltb→lt i offset before)
        (lt_of_get_elem? file i x (h ∙ e))
      ∙ h
  | inr behind ↦ elim (Bool-cases (ltb i (offset + length d))) [
    | inl inside ↦
        Right-write_at_in content file offset d i piece (ground arith)
          (ltb→lt i (offset + length d) inside)
    | inr after ↦ get_elem?-write_at_after file offset d i (ground arith) ∙ h
  ]
]

module _ {H : Type 0} (b3 : Blake3 H) (hex : Hex) (codec : HeaderCodec) (content : Bytes) where
  -- The reply is accepted, and its payload is the piece of the content at its offset.
  pub record IsPiece (r : Reply) : Type 0 where
    pub header : ChunkHeader
    pub payload : Bytes
    pub accepted : accept b3 hex codec r ≡ ok (header, payload)
    pub fits : header.offset + length payload ≤ length content
    pub piece : payload ≡ take (length payload) (drop header.offset content)

  -- The reply holds the byte at a position.
  pub record Covers (i : ℕ) (r : Reply) : Type 0 where
    pub header : ChunkHeader
    pub payload : Bytes
    pub accepted : accept b3 hex codec r ≡ ok (header, payload)
    pub from : header.offset ≤ i
    pub to : i < header.offset + length payload

  pub record IsLast (r : Reply) : Type 0 where
    pub header : ChunkHeader
    pub payload : Bytes
    pub accepted : accept b3 hex codec r ≡ ok (header, payload)
    pub last : header.last ≡ true

  -- What the loop leaves after the replies `rs`, from an earlier state.
  pub record Received (file : Bytes) (got_any got_last : Bool) (rs : List Reply)
      (res : Bytes × Result TransferError (Bool × Bool)) : Type 0 where
    pub any : Bool
    pub last : Bool
    pub answer : res.1 ≡ ok (any, last)
    pub fits : length res.0 ≤ length content
    pub keeps : (i : ℕ) → i < length content → Right content i file → Right content i res.0
    pub covered :
        (i : ℕ) (r : Reply) → Member r rs → Covers i r → i < length content → Right content i res.0
    pub keeps_any : got_any ≡ true → any ≡ true
    pub keeps_last : got_last ≡ true → last ≡ true
    pub some_any : (r : Reply) → Member r rs → any ≡ true
    pub some_last : (r : Reply) → Member r rs → IsLast r → last ≡ true

  module _ (writes : ℕ → Bool) (all_write : (i : ℕ) → writes i ≡ true) where
    receive_round :
        (n : ℕ) (file : Bytes) (got_any got_last : Bool) (r : Reply) (rs : List Reply)
        (p : IsPiece r)
        → receive b3 hex codec writes n file got_any got_last (r ∷ rs)
          ≡ receive b3 hex codec writes
              (suc n)
              (write_at file p.header.offset p.payload)
              true
              (p.header.last || got_last)
              rs
    unfolding receive
    receive_round n file got_any got_last r rs p = rw (p.accepted, receive) (rw (all_write n) refl)

    Received_after :
        (file : Bytes) (got_any got_last : Bool) (r : Reply) (rs : List Reply) (p : IsPiece r)
        (res : Bytes × Result TransferError (Bool × Bool))
        → Received (write_at file p.header.offset p.payload) true (p.header.last || got_last) rs res
        → Received file got_any got_last (r ∷ rs) res
    Received_after file got_any got_last r rs p res q = record {
      any = q.any;
      last = q.last;
      answer = q.answer;
      fits = q.fits;
      keeps = λ i l k.
          q.keeps i l (Right-write_at content file p.header.offset p.payload i p.piece l k);
      covered = covered;
      keeps_any = λ e. q.keeps_any refl;
      keeps_last = λ e. q.keeps_last (ground arith);
      some_any = λ s m. q.keeps_any refl;
      some_last = some_last;
    }
      where
        covered :
            (i : ℕ) (s : Reply)
            → Member s (r ∷ rs)
            → Covers i s
            → i < length content
            → Right content i res.0
        covered i s (inl e) c l =
            let eh : c.header ≡ p.header = cc (c.accepted, p.accepted, e) in
            let ep : c.payload ≡ p.payload = cc (c.accepted, p.accepted, e) in
            q.keeps i l (
              Right-write_at_in content file p.header.offset p.payload i p.piece
                (rw (← ap (λ h. h.offset) eh) c.from)
                (omega (arith, c.to, ap (λ h. h.offset) eh, ap length ep)))
        covered i s (inr m) c l = q.covered i s m c l

        some_last : (s : Reply) → Member s (r ∷ rs) → IsLast s → q.last ≡ true
        some_last s (inl e) t =
            let eh : t.header ≡ p.header = cc (t.accepted, p.accepted, e) in
            let el : p.header.last ≡ true = ap (λ h. h.last) (sym eh) ∙ t.last in
            q.keeps_last (rw el refl)
        some_last s (inr m) t = q.some_last s m t

    Received-nil :
        (n : ℕ) (file : Bytes) (got_any got_last : Bool)
        → length file ≤ length content
        → Received file got_any got_last [] (receive b3 hex codec writes n file got_any got_last [])
    unfolding receive
    Received-nil n file got_any got_last h = record {
      any = got_any;
      last = got_last;
      answer = refl;
      fits = h;
      keeps = λ i l k. k;
      covered = λ i r m. absurd m;
      keeps_any = λ e. e;
      keeps_last = λ e. e;
      some_any = λ r m. absurd m;
      some_last = λ r m. absurd m;
    }

    pub receive-Received :
        (n : ℕ) (file : Bytes) (got_any got_last : Bool) (rs : List Reply)
        → All IsPiece rs
        → length file ≤ length content
        → Received file got_any got_last rs (receive b3 hex codec writes n file got_any got_last rs)
    receive-Received n file got_any got_last [] ps h = Received-nil n file got_any got_last h
    receive-Received n file got_any got_last (r ∷ rs) (p, ps) h =
        rw (receive_round n file got_any got_last r rs p) (
          Received_after file got_any got_last r rs p _ (
            receive-Received (suc n) (write_at file p.header.offset p.payload) true
              (p.header.last || got_last) rs ps
              (length-write_at file p.header.offset p.payload (length content) h p.fits)))
