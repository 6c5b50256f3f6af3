-- ===== src/Transfer/Service/Hosted.antt =====
-- What the queryable answers, and pulling a file that a peer hosts.
use mathlib.Core.Path.{subst}
use furcate_mesh.Prelude.{
  ℕ, ◌≡◌, ◌≢◌, refl, ap, ◌∙◌, true, Option, none, some, List, [], ◌∷◌, ◌++◌, arith, ok,
  Option-cases, inl, inr, if◌then◌else◌,
}
use furcate_mesh.Prelude.Text.{Bytes, Text, codes, text_eq}
use furcate_mesh.Prelude.Equality.{text_eq_instance}
use furcate_mesh.Prelude.Dict.{get, get-insert}
use furcate_mesh.Core.Hex.{Hex}
use furcate_mesh.Core.PeerId.{PeerId}
use furcate_mesh.Transfer.{Blake3, IsBlake3, HeaderCodec, IsHeaderCodec, chunk_hash}
use furcate_mesh.Transfer.Disk.{Reads}
use furcate_mesh.Transfer.Serve.{Reply, Sends, stream_file_chunks}
use furcate_mesh.Transfer.Pull.{Cache, Env, pull_with_options}
use furcate_mesh.Transfer.Pull.Complete.{IsFaultless, NeverFails}
use furcate_mesh.Transfer.RoundTrip.{SameReplies, pull-stream}
use furcate_mesh.Transfer.Service.{
  ArtefactIndex, Happening, registers, asks, strip_prefix, selector, register, answer, serve_loop,
  serve, transfer_root,
}

strip_prefix-append : (prefix s : Text) → strip_prefix prefix (prefix ++ s) ≡ some s
unfolding strip_prefix
strip_prefix-append [] s = refl
strip_prefix-append (c ∷ prefix) s = ground (arith, strip_prefix-append prefix s)

-- the path that the last registration of a digest gave, `o` before
abbrev pub path_of : Option Text → Text → List Happening → Option Text
path_of o digest [] = o
path_of o digest (registers d path ∷ hs) =
    path_of (if text_eq d digest then some path else o) digest hs
path_of o digest (asks key ∷ hs) = path_of o digest hs

get-register :
    (d digest path : Text) (artefacts : ArtefactIndex)
    → get digest (register d path artefacts)
      ≡ (if text_eq d digest then some path else get digest artefacts)
unfolding register
get-register d digest path artefacts = get-insert d digest path artefacts

module _ {H : Type 0} (b3 : Blake3 H) (hex : Hex) (codec : HeaderCodec) (sends : Sends)
    (reads : Reads) (files : Text → Option Bytes) where
  -- the chunks of the file at a path, if there is one
  abbrev pub chunks_at : Option Text → List Reply
  chunks_at none = []
  chunks_at (some path) = (stream_file_chunks b3 hex codec sends reads (files path)).0

  answer-selector :
      (artefacts : ArtefactIndex) (digest : Text)
      → answer b3 hex codec sends reads files artefacts (selector digest)
        ≡ chunks_at (get digest artefacts)
  unfolding answer selector
  answer-selector artefacts digest =
      rw (strip_prefix-append (transfer_root ++ codes "/") digest, answer)
        (elim (Option-cases (get digest artefacts)) [
          | inl q ↦ rw q refl
          | inr (path, q) ↦ rw q refl
        ])

  serve_loop-append :
      (hs later : List Happening) (digest : Text) (artefacts : ArtefactIndex)
      → (rest : List (List Reply)) × (serve_loop b3 hex codec sends reads files artefacts
            (hs ++ asks (selector digest) ∷ later)
          ≡ serve_loop b3 hex codec sends reads files artefacts hs
            ++ chunks_at (path_of (get digest artefacts) digest hs) ∷ rest)
  unfolding serve_loop
  serve_loop-append [] later digest artefacts = (
    serve_loop b3 hex codec sends reads files artefacts later,
    ap (λ r. r ∷ serve_loop b3 hex codec sends reads files artefacts later)
        (answer-selector artefacts digest),
  )
  serve_loop-append (registers d path ∷ hs) later digest artefacts =
      let (rest, q) = serve_loop-append hs later digest (register d path artefacts) in
      (
        rest,
        q
            ∙ ap
                (λ o.
                  serve_loop b3 hex codec sends reads files (register d path artefacts) hs
                  ++ chunks_at (path_of o digest hs) ∷ rest)
                (get-register d digest path artefacts),
      )
  serve_loop-append (asks key ∷ hs) later digest artefacts =
      let (rest, q) = serve_loop-append hs later digest artefacts in
      (rest, ap (λ rs. answer b3 hex codec sends reads files artefacts key ∷ rs) q)

  -- Whatever files are registered and whatever queries arrive before and after it, a query for a
  -- digest is answered with the chunks of the file that was last registered under that digest, and
  -- with nothing if none was.
  pub serve_lem :
      (hs later : List Happening) (digest : Text)
      → (rest : List (List Reply)) × (serve b3 hex codec sends reads files true []
            (hs ++ asks (selector digest) ∷ later)
          ≡ ok (
              serve_loop b3 hex codec sends reads files [] hs
              ++ chunks_at (path_of none digest hs) ∷ rest))
  unfolding serve get
  serve_lem hs later digest =
      let (rest, q) = serve_loop-append hs later digest [] in (rest, ap ok q)

  -- A file that is not empty and that a peer has registered under its hash is pulled from that
  -- peer: over a working disk and network, if the replies to the query arrive in any order and any
  -- number of times, the pull of the hash that is not yet cached returns it and leaves the file
  -- under it.
  pub pull-answer :
      (laws : IsBlake3 b3) (codes_laws : IsHeaderCodec codec) (never : NeverFails reads)
      (sends_all : (o : ℕ) → sends o ≡ true) (artefacts : ArtefactIndex) (path : Text)
      (content : Bytes) (rs : List Reply) (env : Env) (peer : PeerId) (m : Cache)
      → content ≢ []
      → get (chunk_hash b3 hex content) artefacts ≡ some path
      → files path ≡ some content
      → SameReplies rs
          (answer b3 hex codec sends reads files artefacts (selector (chunk_hash b3 hex content)))
      → IsFaultless env rs
      → get (chunk_hash b3 hex content) m ≡ none
      → ((pull_with_options b3 hex codec env peer (chunk_hash b3 hex content) m).0
          ≡ ok (chunk_hash b3 hex content))
        × (get
              (chunk_hash b3 hex content)
              (pull_with_options b3 hex codec env peer (chunk_hash b3 hex content) m).1
            ≡ some content)
  pull-answer laws codes_laws never sends_all artefacts path content rs env peer m ne hosted held
        same free absent =
      pull-stream b3 laws hex codec codes_laws sends reads never sends_all content rs env peer m ne
        (subst (SameReplies rs)
          (answer-selector artefacts (chunk_hash b3 hex content)
            ∙ ap chunks_at hosted
            ∙ ap (λ c. (stream_file_chunks b3 hex codec sends reads c).0) held)
          same)
        free absent
