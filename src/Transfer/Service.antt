-- ===== src/Transfer/Service.antt =====
-- `TransferService`: the table of artefacts, and the task that answers queries on it.
pub mod Hosted
use furcate_mesh.Prelude.{
  ℕ, Bool, Option, none, some, List, [], ◌∷◌, ◌++◌, ◌==◌, Result, ok, err, if◌then◌else◌,
}
use furcate_mesh.Prelude.Text.{Bytes, Text, codes}
use furcate_mesh.Prelude.Equality.{text_eq_instance}
use furcate_mesh.Prelude.Dict.{get, insert}
use furcate_mesh.Core.Hex.{Hex}
use furcate_mesh.Transfer.{Blake3, HeaderCodec, TransferError, transport}
use furcate_mesh.Transfer.Disk.{Reads}
use furcate_mesh.Transfer.Serve.{Reply, Sends, stream_file_chunks}

abbrev pub transfer_root : Text
transfer_root = codes "furcate/mesh/transfer"

-- `str::strip_prefix`
unfoldable pub strip_prefix : Text → Text → Option Text
strip_prefix [] s = some s
strip_prefix (c ∷ prefix) [] = none
strip_prefix (c ∷ prefix) (d ∷ s) = if c == d then strip_prefix prefix s else none

-- The key of a query for a digest.
unfoldable pub selector : Text → Text
selector digest = transfer_root ++ (codes "/" ++ digest)

-- From digests to paths.
abbrev pub ArtefactIndex : Type 0
ArtefactIndex = List (Text × Text)

unfoldable pub register : Text → Text → ArtefactIndex → ArtefactIndex
register digest path artefacts = insert digest path artefacts

-- What happens while a queryable runs: an operator adds a file, or a query arrives.
pub data Happening : Type 0 where
  registers : (digest path : Text) → Happening
  asks : (key : Text) → Happening

module _ {H : Type 0} (b3 : Blake3 H) (hex : Hex) (codec : HeaderCodec) (sends : Sends)
    (reads : Reads) (files : Text → Option Bytes) where
  -- The replies to a query: none where its key has no digest or nobody registered it.
  unfoldable pub answer : ArtefactIndex → Text → List Reply
  answer artefacts key = elim (strip_prefix (transfer_root ++ codes "/") key) [
    | none ↦ []
    | some digest ↦ elim (get digest artefacts) [
      | none ↦ []
      | some path ↦ (stream_file_chunks b3 hex codec sends reads (files path)).0
    ]
  ]

  -- The replies to each query, in order, until the channel closes.
  unfoldable pub serve_loop : ArtefactIndex → List Happening → List (List Reply)
  serve_loop artefacts [] = []
  serve_loop artefacts (registers digest path ∷ hs) = serve_loop (register digest path artefacts) hs
  serve_loop artefacts (asks key ∷ hs) = answer artefacts key ∷ serve_loop artefacts hs

  -- `declared` says whether Zenoh takes the queryable.
  unfoldable pub serve :
      (declared : Bool) → ArtefactIndex → List Happening → Result TransferError (List (List Reply))
  serve declared artefacts hs = if declared then ok (serve_loop artefacts hs) else err transport
