-- ===== src/Tests/ConcurrentRuns.antt =====
-- Concurrent pulls into one cache directory: a run of two digests, and one of the same digest twice.
use furcate_mesh.Prelude.{ℕ, ◌+◌, ◌≤◌, ◌≡◌, ◌≢◌, refl, none, some, [], ◌∷◌, arith, length, ap, ok}
use furcate_mesh.Prelude.Lists.{length-append}
use furcate_mesh.Prelude.Text.{Text, codes, text_eq}
use furcate_mesh.Transfer.{chunk_hash, verify}
use furcate_mesh.Transfer.Disk.{write_at, read_len}
use furcate_mesh.Transfer.Serve.{Reply, sample}
use furcate_mesh.Transfer.Pull.{accept, partial}
use furcate_mesh.Transfer.Pull.Verified.{IsPartial}
use furcate_mesh.Transfer.Concurrent.{
  Disk, State, at_rest, returned, checked, missed, misses, opens_new, receives, closes, reopens,
  reads, verifies, renames, acts, Reachable, start, later,
}
use furcate_mesh.Transfer.Concurrent.Overlap.{overlap_lem}
use furcate_mesh.Transfer.Concurrent.Directory.{IsDirectory}
use furcate_mesh.Prelude.Dict.{get}
use furcate_mesh.Transfer.Pull.{pull_with_options}
use furcate_mesh.Transfer.Concurrent.{waiting}
use furcate_mesh.Transfer.Concurrent.View.{Represents}
use furcate_mesh.Transfer.Concurrent.Alone.{Runs}
use furcate_mesh.Transfer.Concurrent.Sequential.{pull-Runs}
use furcate_mesh.Tests.TransferRuns.{calm, sent, someone, digest}
use furcate_mesh.Tests.Codecs.{plain_hash-IsBlake3, encode, plain_hex, plain_hash, plain_codec}

abbrev pub empty : Disk
empty = record { names = λ n. none; inodes = λ i. []; next = 0 }

pub empty-IsDirectory : IsDirectory plain_hash plain_hex empty
empty-IsDirectory = record {
  tree = record { fresh = λ n i h. cc; exclusive = λ n m i h k. cc };
  verified = λ n i h. cc;
}

-- the hash of the byte 10, of 26, of 42 and so on for the first pulls
abbrev pub goal : ℕ → Text
goal p = (48 + p) ∷ 97 ∷ []

pub goal_plain : (p : ℕ) → ¬ IsPartial (goal p)
unfolding partial
goal_plain p (d, e) = omega (arith, ap length e, length-append d (codes ".partial"))

-- the whole file of a pull in one chunk
abbrev pub chunk : ℕ → Reply
chunk b = sample (some (0 ∷ 1 ∷ 1 ∷ encode (b ∷ []))) (b ∷ [])

pub one_byte : 1 ≤ 1
one_byte = omega arith

-- the first pull runs to its end while the second one receives
apart : (s : State) × Reachable plain_hash plain_hex plain_codec goal (at_rest empty) s
unfolding encode accept verify text_eq partial write_at read_len
apart = (
  _,
  later _ _
      (later _ _
        (later _ _
          (later _ _
            (later _ _
              (later _ _
                (later _ _
                  (later _ _
                    (later _ _
                      (later _ _ (later _ _ start (acts _ 0 _ _ (misses _ refl)))
                        (acts _ 1 _ _ (misses _ refl)))
                      (acts _ 0 _ _ (opens_new _ refl)))
                    (acts _ 1 _ _ (opens_new _ refl)))
                  (acts _ 0 _ _ (receives _ 0 _ _ (chunk 10) _ _ refl)))
                (acts _ 0 _ _ (closes _ 0)))
              (acts _ 0 _ _ (reopens _ 0 refl)))
            (acts _ 1 _ _ (receives _ 1 _ _ (chunk 26) _ _ refl)))
          (acts _ 0 _ _ (reads _ 0 100 [])))
        (acts _ 0 _ _ (verifies _ 0 _ one_byte refl)))
      (acts _ 0 _ _ (renames _ 0 refl)),
)

first_returned : apart.0.phase 0 ≡ returned (ok (goal 0))
unfolding apart
first_returned = refl

-- two pulls of one digest
abbrev pub same_goal : ℕ → Text
same_goal p = goal 0

-- the first pull has checked its hash, the second one has missed the file
together : (s : State) × Reachable plain_hash plain_hex plain_codec same_goal (at_rest empty) s
unfolding encode accept verify text_eq partial write_at read_len
together = (
  _,
  later _ _
      (later _ _
        (later _ _
          (later _ _
            (later _ _
              (later _ _
                (later _ _ (later _ _ start (acts _ 0 _ _ (misses _ refl)))
                  (acts _ 1 _ _ (misses _ refl)))
                (acts _ 0 _ _ (opens_new _ refl)))
              (acts _ 0 _ _ (receives _ 0 _ _ (chunk 10) _ _ refl)))
            (acts _ 0 _ _ (closes _ 0)))
          (acts _ 0 _ _ (reopens _ 0 refl)))
        (acts _ 0 _ _ (reads _ 0 100 [])))
      (acts _ 0 _ _ (verifies _ 0 _ one_byte refl)),
)

half_way : (together.0.phase 0 ≡ checked) × (together.0.phase 1 ≡ missed)
unfolding together text_eq partial
half_way = (refl, refl)

not_empty : chunk_hash plain_hash plain_hex [] ≢ goal 0
unfolding encode
not_empty h = cc h

overlap_lem_example :
    (t : State) × (i : ℕ) × Reachable plain_hash plain_hex plain_codec same_goal together.0 t
    × (t.phase 0 ≡ returned (ok (goal 0)))
    × (t.disk.names (goal 0) ≡ some i)
    × (t.disk.inodes i ≡ [])
    × (¬ IsDirectory plain_hash plain_hex t.disk)
overlap_lem_example =
    overlap_lem plain_hash plain_hex plain_codec same_goal 0 1 (omega arith) refl together.0
      (goal_plain 0) not_empty half_way.0 half_way.1

empty-Represents : Represents empty []
unfolding get
empty-Represents = record {
  tree = record { fresh = λ n i h. cc; exclusive = λ n m i h k. cc };
  files = λ n. refl;
}

pull-Runs_example :
    Runs plain_hash plain_hash-IsBlake3 plain_hex plain_codec digest empty waiting
      (pull_with_options plain_hash plain_hex plain_codec (calm sent) someone digest [])
pull-Runs_example =
    pull-Runs plain_hash plain_hash-IsBlake3 plain_hex plain_codec digest (calm sent) someone empty
      [] empty-Represents
