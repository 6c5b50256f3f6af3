-- ===== src/Transfer/Concurrent.antt =====
-- `pull_with_options` as it runs beside other pulls into the same cache directory: each of its calls
-- of the file system is one step. A name stands for an inode, and a file that is open stays that
-- inode whatever becomes of its name.
pub mod Directory
pub mod Gone
pub mod Invariant
pub mod Active
pub mod Apart
pub mod Overlap
pub mod Distinct
pub mod View
pub mod Alone
pub mod Loops
pub mod Sequential
use furcate_mesh.Prelude.{
  ℕ, suc, ◌+◌, ◌<◌, ◌≤◌, ◌≡◌, ◌≢◌, Bool, true, false, not, ◌||◌, ◌&&◌, Option, none, some, List, [],
  ◌∷◌, ◌++◌, length, take, drop, Result, ok, err, if◌then◌else◌,
}
use furcate_mesh.Prelude.Text.{Bytes, Text}
use furcate_mesh.Prelude.Equality.{Eq, text_eq_instance, nat_eq_instance, update}
use furcate_mesh.Core.Hex.{Hex}
use furcate_mesh.Transfer.{TransferError, root_verify, ChunkHeader, Blake3, HeaderCodec, chunk_hash}
use furcate_mesh.Transfer.Disk.{write_at, read_len}
use furcate_mesh.Transfer.Serve.{Reply}
use furcate_mesh.Transfer.Pull.{partial, accept}

-- The cache directory.
pub record Disk : Type 0 where
  pub names : Text → Option ℕ
  pub inodes : ℕ → Bytes
  -- the inodes from here on are free
  pub next : ℕ

-- Where a pull stands.
pub data Phase : Type 0 where
  waiting : Phase
  -- the digest was not in the directory
  missed : Phase
  -- the temporary file is open
  receiving : (inode : ℕ) (got_any got_last : Bool) → Phase
  -- it is flushed and closed
  received : Phase
  -- it is open again for `root_hash`, with what has been read of it
  reading : (inode : ℕ) (read : Bytes) → Phase
  -- its hash is the digest
  checked : Phase
  -- a call has failed or a reply was refused: the error is on its way to the caller, while the last
  -- write to the open file may still be under way on the thread that `tokio::fs` gave it to
  leaving : (inode : ℕ) (e : TransferError) → Phase
  returned : Result TransferError Text → Phase

pub record State : Type 0 where
  pub disk : Disk
  pub phase : ℕ → Phase

-- before the first pull begins
abbrev pub at_rest : Disk → State
at_rest d = record { disk = d; phase = λ p. waiting }

-- the call under way may fail, and no write is
abbrev pub InProgress : Phase → Type 0
InProgress (returned r) = ⊥
InProgress (leaving i e) = ⊥
InProgress (receiving i got_any got_last) = ⊥
InProgress _ = Unit

abbrev pub put_inode : ℕ → Bytes → Disk → Disk
put_inode i file d = record d { inodes = update i file d.inodes }

-- a new file
abbrev pub create : Text → Disk → Disk
create name d = record {
  names = update name (some d.next) d.names;
  inodes = update d.next [] d.inodes;
  next = suc d.next;
}

abbrev pub unlink : Text → Disk → Disk
unlink name d = record d { names = update name none d.names }

abbrev pub move : Text → Text → ℕ → Disk → Disk
move from to i d = record d { names = update to (some i) (update from none d.names) }

module _ {H : Type 0} (b3 : Blake3 H) (hex : Hex) (codec : HeaderCodec) where
  -- A step of a pull of one digest: the directory and the phase before and after it.
  pub data Act (digest : Text) : Disk → Phase → Disk → Phase → Type 0 where
    hits :
        (d : Disk) (i : ℕ) → d.names digest ≡ some i → Act digest d waiting d (returned (ok digest))
    misses : (d : Disk) → d.names digest ≡ none → Act digest d waiting d missed
    -- `OpenOptions` with `create` and `truncate`
    opens_new :
        (d : Disk)
        → d.names (partial digest) ≡ none
        → Act digest d missed (create (partial digest) d) (receiving d.next false false)
    opens_old :
        (d : Disk) (i : ℕ)
        → d.names (partial digest) ≡ some i
        → Act digest d missed (put_inode i [] d) (receiving i false false)
    receives :
        (d : Disk) (i : ℕ) (got_any got_last : Bool) (r : Reply) (header : ChunkHeader)
        (payload : Bytes)
        → accept b3 hex codec r ≡ ok (header, payload)
        → Act digest d
            (receiving i got_any got_last)
            (put_inode i (write_at (d.inodes i) header.offset payload) d)
            (receiving i true (header.last || got_last))
    refuses :
        (d : Disk) (i : ℕ) (got_any got_last : Bool) (r : Reply) (e : TransferError)
        → accept b3 hex codec r ≡ err e
        → Act digest d (receiving i got_any got_last) d (leaving i e)
    -- any call fails while the file is open, also the one that removes the temporary file
    breaks :
        (d : Disk) (i : ℕ) (got_any got_last : Bool) (e : TransferError)
        → Act digest d (receiving i got_any got_last) d (leaving i e)
    -- the replies end, with none at all or without the last chunk
    gives_up :
        (d : Disk) (i : ℕ) (got_any got_last : Bool) (e : TransferError)
        → got_any && got_last ≡ false
        → Act digest d (receiving i got_any got_last) (unlink (partial digest) d) (leaving i e)
    -- the write under way ends, and leaves anything of what it should write; or there is none
    lands :
        (d : Disk) (i : ℕ) (e : TransferError) (file : Bytes)
        → Act digest d (leaving i e) (put_inode i file d) (returned (err e))
    settles :
        (d : Disk) (i : ℕ) (e : TransferError) → Act digest d (leaving i e) d (returned (err e))
    closes : (d : Disk) (i : ℕ) → Act digest d (receiving i true true) d received
    reopens :
        (d : Disk) (i : ℕ)
        → d.names (partial digest) ≡ some i
        → Act digest d received d (reading i [])
    reads :
        (d : Disk) (i k : ℕ) (read : Bytes)
        → Act digest d (reading i read) d (
            reading i (
              read
              ++ take
                  (read_len k (drop (length read) (d.inodes i)))
                  (drop (length read) (d.inodes i))))
    verifies :
        (d : Disk) (i : ℕ) (read : Bytes)
        → length (d.inodes i) ≤ length read
        → chunk_hash b3 hex read ≡ digest
        → Act digest d (reading i read) d checked
    rejects :
        (d : Disk) (i : ℕ) (read : Bytes)
        → length (d.inodes i) ≤ length read
        → chunk_hash b3 hex read ≢ digest
        → Act digest d
            (reading i read)
            (unlink (partial digest) d)
            (returned (err (root_verify digest (chunk_hash b3 hex read))))
    renames :
        (d : Disk) (i : ℕ)
        → d.names (partial digest) ≡ some i
        → Act digest d checked (move (partial digest) digest i d) (returned (ok digest))
    -- any call fails while the file is not open for writing, also the removal of the temporary file
    -- and the opening of a name that is gone
    fails :
        (d : Disk) (ph : Phase) (e : TransferError)
        → InProgress ph
        → Act digest d ph d (returned (err e))

  -- The pulls, each of its own digest, one step of one of them at a time.
  module _ (goal : ℕ → Text) where
    pub data Step : State → State → Type 0 where
      acts :
          (s : State) (p : ℕ) (d : Disk) (ph : Phase)
          → Act (goal p) s.disk (s.phase p) d ph
          → Step s (record { disk = d; phase = update p ph s.phase })

    pub data Reachable (s : State) : State → Type 0 where
      start : Reachable s s
      later : (t u : State) → Reachable s t → Step t u → Reachable s u
