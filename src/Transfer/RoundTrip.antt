-- ===== src/Transfer/RoundTrip.antt =====
-- Serving a file and pulling it.
use furcate_mesh.Prelude.{
  ℕ, ◌<◌, ◌≡◌, ◌≢◌, refl, ap, ◌∙◌, true, none, some, List, [], ◌∷◌, length, arith, Member,
  All-Member, All-of_Member, ok, err,
}
use furcate_mesh.Prelude.Text.{Bytes}
use furcate_mesh.Prelude.Equality.{text_eq_instance}
use furcate_mesh.Prelude.Dict.{get}
use furcate_mesh.Core.Hex.{Hex}
use furcate_mesh.Core.PeerId.{PeerId}
use furcate_mesh.Transfer.{peer_missing, Blake3, IsBlake3, HeaderCodec, IsHeaderCodec, chunk_hash}
use furcate_mesh.Transfer.Disk.{Reads}
use furcate_mesh.Transfer.Serve.{Reply, Sends, stream_file_chunks}
use furcate_mesh.Transfer.Pull.{Cache, Env, fetch, pull_with_options}
use furcate_mesh.Transfer.Pull.Receive.{IsPiece}
use furcate_mesh.Transfer.Pull.Complete.{IsFaultless, IsWhole, NeverFails, pull_whole}
use furcate_mesh.Transfer.Whole.{IsWholeFrom}
use furcate_mesh.Transfer.Streamed.{stream_lem, stream_empty}

-- The same replies, in any order and as often as may be.
pub record SameReplies (rs sent : List Reply) : Type 0 where
  pub received : (r : Reply) → Member r rs → Member r sent
  pub arrived : (r : Reply) → Member r sent → Member r rs

module _ {H : Type 0} (b3 : Blake3 H) (laws : IsBlake3 b3) (hex : Hex) (codec : HeaderCodec)
    (codes : IsHeaderCodec codec) (sends : Sends) (reads : Reads) (never : NeverFails reads) where
  positive : (content : Bytes) → content ≢ [] → 0 < length content
  positive [] h = absurd (h refl)
  positive (b ∷ bs) h = omega arith

  IsWhole-of_sent :
      (content : Bytes) (rs sent : List Reply)
      → content ≢ []
      → SameReplies rs sent
      → IsWholeFrom b3 hex codec codes content 0 sent
      → IsWhole b3 laws hex codec content rs
  IsWhole-of_sent content rs sent ne same w = record {
    pieces =
        All-of_Member (IsPiece b3 hex codec content) rs
          λ r m. All-Member (IsPiece b3 hex codec content) r sent w.pieces (same.received r m);
    covers = λ i l. let (r, m, c) = w.covers i (omega arith) l in (r, same.arrived r m, c);
    last = let (r, m, t) = w.last (positive content ne) in (r, same.arrived r m, t);
  }

  -- A file that is not empty is served and pulled back: over a working disk and network, whatever
  -- the short reads of the sender, if the replies sent arrive in any order and any number of
  -- times, the pull of the file's hash that is not yet cached returns it and leaves the file,
  -- byte for byte, under it.
  pub pull-stream :
      (sends_all : (o : ℕ) → sends o ≡ true) (content : Bytes) (rs : List Reply) (env : Env)
      (peer : PeerId) (m : Cache)
      → content ≢ []
      → SameReplies rs (stream_file_chunks b3 hex codec sends reads (some content)).0
      → IsFaultless env rs
      → get (chunk_hash b3 hex content) m ≡ none
      → ((pull_with_options b3 hex codec env peer (chunk_hash b3 hex content) m).0
          ≡ ok (chunk_hash b3 hex content))
        × (get
              (chunk_hash b3 hex content)
              (pull_with_options b3 hex codec env peer (chunk_hash b3 hex content) m).1
            ≡ some content)
  pull-stream sends_all content rs env peer m ne same free absent =
      pull_whole b3 laws hex codec content rs
        (IsWhole-of_sent content rs _ ne same
          (stream_lem b3 hex codec codes sends sends_all content reads never).1)
        env free peer m absent

  -- An empty file cannot be pulled: over a working disk and network, the pull of its hash that is
  -- not yet cached ends with the error that no peer has it, though a peer has served it.
  pub pull-stream_empty :
      (env : Env) (peer : PeerId) (m : Cache)
      → IsFaultless env (stream_file_chunks b3 hex codec sends reads (some [])).0
      → get (chunk_hash b3 hex []) m ≡ none
      → (pull_with_options b3 hex codec env peer (chunk_hash b3 hex []) m).0
        ≡ err (peer_missing peer (chunk_hash b3 hex []))
  unfolding pull_with_options
  pull-stream_empty env peer m free absent =
      let none_sent : env.replies ≡ some [] =
        free.replies ∙ ap (λ s. some s.0) (stream_empty b3 hex codec codes sends reads never) in
      rw (free.creates_dir, pull_with_options)
        (rw absent (rw (free.opens_tmp, fetch) (rw none_sent refl)))
