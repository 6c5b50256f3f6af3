-- ===== src/Transfer/Disk.antt =====
-- Files as the transfer crate reads and writes them: `read` into a buffer of `chunk_size` bytes,
-- and `seek` followed by `write_all`.
pub mod Written
use furcate_mesh.Prelude.{
  ℕ, ◌+◌, ◌-◌, ◌<◌, ◌≤◌, min, Option, none, some, List, [], ◌∷◌, ◌++◌, length, take, drop,
  replicate, arith,
}
use furcate_mesh.Prelude.Lists.{length-drop}
use furcate_mesh.Prelude.Text.{Bytes}
use furcate_mesh.Transfer.{chunk_size}

-- What the operating system does at each position of a file: an error, or at most one more than
-- that many bytes. A read may be short, and gives nothing only at the end of the file.
abbrev pub Reads : Type 0
Reads = ℕ → Option ℕ

unfoldable pub read_len : ℕ → Bytes → ℕ
read_len k rest = min (k + 1) (min chunk_size (length rest))

pub read_len-le :
    (k : ℕ) (rest : Bytes) → (read_len k rest ≤ length rest) × (read_len k rest ≤ chunk_size)
unfolding read_len
read_len-le k rest = omega arith

pub read_len_pos : (k : ℕ) (rest : Bytes) → 0 < length rest → 0 < read_len k rest
unfolding read_len
read_len_pos k rest h = omega arith

pub drop_shorter :
    (k : ℕ) (rest : Bytes)
    → 0 < read_len k rest
    → length (drop (read_len k rest) rest) < length rest
drop_shorter k rest h = omega (arith, length-drop (read_len k rest) rest, (read_len-le k rest).0)

-- Bytes between the end of the file and the position are zero.
unfoldable pub write_at : Bytes → ℕ → Bytes → Bytes
write_at file offset [] = file
write_at file offset (b ∷ bs) =
    take offset file
    ++ (replicate (offset - length file) 0 ++ ((b ∷ bs) ++ drop (offset + length (b ∷ bs)) file))
