-- ===== src/Tests/TransferRuns.antt =====
-- crates/furcate-mesh-transfer: runs, and its theorems at concrete inputs.
use furcate_mesh.Prelude.{
  ℕ, ◌≡◌, ◌⊎◌, refl, true, Option, none, some, List, [], ◌∷◌, ◌++◌, inl, ok, err, dec_lt,
}
use furcate_mesh.Prelude.Text.{Bytes, Text, codes, text_eq_refl}
use furcate_mesh.Prelude.Equality.{text_eq_instance}
use furcate_mesh.Prelude.Dict.{get}
use furcate_mesh.Core.PeerId.{PeerId, from_bytes}
use furcate_mesh.Transfer.{io, peer_missing, chunk_hash}
use furcate_mesh.Transfer.Disk.{Reads, read_len}
use furcate_mesh.Transfer.Serve.{Reply, sample, Sends, root_hash, stream_file_chunks}
use furcate_mesh.Transfer.Serve.RootHash.{root_hash_lem}
use furcate_mesh.Transfer.Serve.Bounds.{Contiguous, stream-Contiguous}
use furcate_mesh.Transfer.Pull.{Env, pull_with_options}
use furcate_mesh.Transfer.Pull.Effect.{Effect, pull-Effect, partial_ne}
use furcate_mesh.Transfer.Pull.Verified.{IsRefused, bad_hash, Fails, pull_corrupt}
use furcate_mesh.Transfer.Pull.Complete.{IsFaultless}
use furcate_mesh.Transfer.RoundTrip.{SameReplies, pull-stream, pull-stream_empty}
use furcate_mesh.Transfer.Service.{
  ArtefactIndex, Happening, registers, asks, selector, answer, serve_loop, serve,
}
use furcate_mesh.Transfer.Service.Hosted.{path_of, chunks_at, serve_lem, pull-answer}
use furcate_mesh.Tests.Codecs.{
  encode, plain_hex, plain_hash, plain_hash-IsBlake3, plain_codec, plain_codec-IsHeaderCodec,
}

-- reads of at most two bytes
abbrev pub two_bytes : Reads
two_bytes p = some 1

abbrev pub sends : Sends
sends o = true

abbrev pub content : Bytes
content = 10 ∷ 20 ∷ 30 ∷ []

abbrev pub digest : Text
digest = chunk_hash plain_hash plain_hex content

abbrev pub sent : List Reply
sent = (stream_file_chunks plain_hash plain_hex plain_codec sends two_bytes (some content)).0

-- a disk and a network without faults
abbrev pub calm : List Reply → Env
calm rs = record {
  creates_dir = true;
  opens_tmp = true;
  replies = some rs;
  writes = λ i. true;
  flushes = true;
  reads = some two_bytes;
  removes = true;
  renames = true;
}

pub calm-IsFaultless : (rs : List Reply) → IsFaultless (calm rs) rs
calm-IsFaultless rs = record {
  creates_dir = refl;
  opens_tmp = refl;
  replies = refl;
  writes = λ i. refl;
  flushes = refl;
  plan = two_bytes;
  reads = refl;
  reads_all = λ p. (1, refl);
  renames = refl;
}

abbrev pub someone : PeerId
someone = from_bytes (1 ∷ [])

root_hash-content : root_hash plain_hash plain_hex two_bytes (some content) ≡ ok (codes "0a141e")
unfolding root_hash encode read_len dec_lt
root_hash-content = refl

root_hash_lem_example :
    ((root_hash plain_hash plain_hex two_bytes (some content) ≡ err io)
      × ((p : ℕ) × (two_bytes p ≡ none)))
    ⊎ (root_hash plain_hash plain_hex two_bytes (some content)
        ≡ ok (chunk_hash plain_hash plain_hex content))
root_hash_lem_example = root_hash_lem plain_hash plain_hash-IsBlake3 plain_hex two_bytes content

-- the replies in the order in which they were sent
pub sent-SameReplies : SameReplies sent sent
sent-SameReplies = record { received = λ r m. m; arrived = λ r m. m }

pull-stream_example :
    ((pull_with_options plain_hash plain_hex plain_codec (calm sent) someone digest []).0
      ≡ ok digest)
    × (get digest
          (pull_with_options plain_hash plain_hex plain_codec (calm sent) someone digest []).1
        ≡ some content)
unfolding get
pull-stream_example =
    pull-stream plain_hash plain_hash-IsBlake3 plain_hex plain_codec plain_codec-IsHeaderCodec sends
      two_bytes (λ p. (1, refl)) (λ o. refl) content sent (calm sent) someone [] (cc)
      sent-SameReplies (calm-IsFaultless sent) refl

pull-stream_empty_example :
    (pull_with_options plain_hash plain_hex plain_codec
      (calm (stream_file_chunks plain_hash plain_hex plain_codec sends two_bytes (some [])).0)
      someone
      (chunk_hash plain_hash plain_hex [])
      []).0
    ≡ err (peer_missing someone (chunk_hash plain_hash plain_hex []))
unfolding get
pull-stream_empty_example =
    pull-stream_empty plain_hash plain_hash-IsBlake3 plain_hex plain_codec plain_codec-IsHeaderCodec
      sends two_bytes (λ p. (1, refl)) (calm _) someone [] (calm-IsFaultless _) refl

-- a chunk whose header names another hash
abbrev forged : Reply
forged = sample (some (0 ∷ 1 ∷ 1 ∷ codes "00")) (10 ∷ [])

forged-IsRefused : IsRefused plain_hash plain_hex plain_codec forged
unfolding encode
forged-IsRefused = bad_hash _ _ _ refl λ h. cc h

pull_corrupt_example :
    Fails
      (pull_with_options plain_hash plain_hex plain_codec
        (calm (forged ∷ sent))
        someone
        digest
        []).0
unfolding get
pull_corrupt_example =
    pull_corrupt plain_hash plain_hex plain_codec (calm (forged ∷ sent)) someone digest []
      (forged ∷ sent) forged refl refl (inl refl) forged-IsRefused

pull-Effect_example :
    Effect plain_hash plain_hash-IsBlake3 plain_hex plain_codec [] digest digest
      (pull_with_options plain_hash plain_hex plain_codec (calm sent) someone digest [])
pull-Effect_example =
    pull-Effect plain_hash plain_hash-IsBlake3 plain_hex plain_codec (calm sent) someone digest
      digest [] (partial_ne digest)

no_replies :
    (pull_with_options plain_hash plain_hex plain_codec (calm []) someone digest []).0
    ≡ err (peer_missing someone digest)
unfolding pull_with_options get
no_replies = refl

-- a peer that hosts the file
abbrev disk : Text → Option Bytes
disk path = some content

abbrev hosted : List Happening
hosted = registers digest (codes "/models/m.gguf") ∷ []

serve_lem_example :
    (rest : List (List Reply)) × (serve plain_hash plain_hex plain_codec sends two_bytes disk true
        []
        (hosted ++ asks (selector digest) ∷ [])
      ≡ ok (
          serve_loop plain_hash plain_hex plain_codec sends two_bytes disk [] hosted
          ++ chunks_at plain_hash plain_hex plain_codec sends two_bytes disk
              (path_of none digest hosted)
            ∷ rest))
serve_lem_example = serve_lem plain_hash plain_hex plain_codec sends two_bytes disk hosted [] digest

abbrev table : ArtefactIndex
table = (digest, codes "/models/m.gguf") ∷ []

abbrev answers : List Reply
answers = answer plain_hash plain_hex plain_codec sends two_bytes disk table (selector digest)

table_hosts : get digest table ≡ some (codes "/models/m.gguf")
unfolding get
table_hosts = rw (text_eq_refl digest) refl

pull-answer_example :
    ((pull_with_options plain_hash plain_hex plain_codec (calm answers) someone digest []).0
      ≡ ok digest)
    × (get digest
          (pull_with_options plain_hash plain_hex plain_codec (calm answers) someone digest []).1
        ≡ some content)
unfolding get
pull-answer_example =
    pull-answer plain_hash plain_hex plain_codec sends two_bytes disk plain_hash-IsBlake3
      plain_codec-IsHeaderCodec (λ p. (1, refl)) (λ o. refl) table (codes "/models/m.gguf") content
      answers (calm answers) someone [] (cc) table_hosts refl
      (record { received = λ r m. m; arrived = λ r m. m }) (calm-IsFaultless answers) refl

stream-Contiguous_example : Contiguous plain_hash plain_hex plain_codec content 0 sent
stream-Contiguous_example =
    stream-Contiguous plain_hash plain_hex plain_codec content sends two_bytes
