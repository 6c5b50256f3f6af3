-- ===== src/Transfer/Serve/Rounds.antt =====
-- One round of the loop of `stream_file_chunks`.
use mathlib.Core.Logic.{dif_pos, dif_neg}
use mathlib.Core.WellFounded.{Acc}
use native.Mathlib.Bridge.{le_prop}
use furcate_mesh.Prelude.{ℕ, ◌+◌, ◌<◌, ◌≡◌, some, [], take, drop, Shorter, ok, dec_lt}
use furcate_mesh.Prelude.Text.{Bytes}
use furcate_mesh.Core.Hex.{Hex}
use furcate_mesh.Transfer.{Blake3, HeaderCodec}
use furcate_mesh.Transfer.Disk.{Reads, read_len, drop_shorter}
use furcate_mesh.Transfer.Serve.{Sends, stream_loop, send_chunk}

module _ {H : Type 0} (b3 : Blake3 H) (hex : Hex) (codec : HeaderCodec) (sends : Sends)
    (reads : Reads) (total_len offset : ℕ) (rest : Bytes)
    (below : (m : Bytes) → Shorter m rest → Acc Shorter m) (k : ℕ) where
  pub stream_more :
      reads offset ≡ some k
      → (more : 0 < read_len k rest)
      → stream_loop b3 hex codec sends reads total_len offset rest (Acc.intro rest below)
        ≡ send_chunk b3 hex codec sends total_len offset
            (read_len k rest)
            (take (read_len k rest) rest)
            (stream_loop b3 hex codec sends reads total_len
              (offset + read_len k rest)
              (drop (read_len k rest) rest)
              (below (drop (read_len k rest) rest) (drop_shorter k rest more)))
  unfolding stream_loop
  stream_more q more = rw (q, stream_loop) (dif_pos (dec_lt 0 (read_len k rest)) le_prop more _ _)

  pub stream_end :
      reads offset ≡ some k
      → ¬ (0 < read_len k rest)
      → stream_loop b3 hex codec sends reads total_len offset rest (Acc.intro rest below)
        ≡ ([], ok tt)
  unfolding stream_loop
  stream_end q stop = rw (q, stream_loop) (dif_neg (dec_lt 0 (read_len k rest)) stop _ _)
