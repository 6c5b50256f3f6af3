-- ===== src/Transfer/Serve/RootHash.antt =====
-- `root_hash` computes the hash of the whole file, however the reads cut it.
use furcate_mesh.Prelude.{
  ℕ, ◌+◌, ◌<◌, ◌≡◌, ◌⊎◌, refl, ap, ◌∙◌, none, some, List, [], ◌∷◌, ◌++◌, arith, take, drop,
  take-append-drop, Shorter, Shorter-wf, ok, err, Option-cases, inl, inr, dec_lt,
}
use mathlib.Core.Logic.{dif_pos, dif_neg}
use native.Mathlib.Bridge.{le_prop}
use mathlib.Core.WellFounded.{Acc}
use furcate_mesh.Prelude.Text.{Bytes}
use furcate_mesh.Core.Hex.{Hex}
use furcate_mesh.Transfer.{io, Blake3, IsBlake3, update_all, concat, chunk_hash}
use furcate_mesh.Transfer.Disk.{Reads, read_len, read_len_pos, drop_shorter}
use furcate_mesh.Transfer.Serve.{hash_loop, root_hash}

module _ {H : Type 0} (b3 : Blake3 H) (hex : Hex) (reads : Reads) where
  -- one round of the loop
  hash_more :
      (pos : ℕ) (h : H) (rest : Bytes) (below : (m : Bytes) → Shorter m rest → Acc Shorter m)
      (k : ℕ)
      → reads pos ≡ some k
      → (more : 0 < read_len k rest)
      → hash_loop b3 hex reads pos h rest (Acc.intro rest below)
        ≡ hash_loop b3 hex reads
            (pos + read_len k rest)
            (b3.update h (take (read_len k rest) rest))
            (drop (read_len k rest) rest)
            (below (drop (read_len k rest) rest) (drop_shorter k rest more))
  unfolding hash_loop
  hash_more pos h rest below k q more =
      rw (q, hash_loop) (dif_pos (dec_lt 0 (read_len k rest)) le_prop more _ _)

  hash_end :
      (pos : ℕ) (h : H) (rest : Bytes) (below : (m : Bytes) → Shorter m rest → Acc Shorter m)
      (k : ℕ)
      → reads pos ≡ some k
      → ¬ (0 < read_len k rest)
      → hash_loop b3 hex reads pos h rest (Acc.intro rest below) ≡ ok h
  unfolding hash_loop
  hash_end pos h rest below k q stop =
      rw (q, hash_loop) (dif_neg (dec_lt 0 (read_len k rest)) stop _ _)

  hash_error :
      (pos : ℕ) (h : H) (rest : Bytes) (w : Acc Shorter rest)
      → reads pos ≡ none
      → hash_loop b3 hex reads pos h rest w ≡ err io
  unfolding hash_loop
  hash_error pos h rest (Acc.intro _ below) q = rw (q, hash_loop) refl

  nothing_left : (k : ℕ) (rest : Bytes) → ¬ (0 < read_len k rest) → [] ≡ rest
  nothing_left k [] stop = refl
  nothing_left k (b ∷ bs) stop = absurd (stop (read_len_pos k (b ∷ bs) (omega arith)))

  -- the loop ends with an error of a read, or has fed the hasher the whole of what was left
  pieces :
      (pos : ℕ) (h : H) (rest : Bytes) (w : Acc Shorter rest)
      → ((hash_loop b3 hex reads pos h rest w ≡ err io) × ((p : ℕ) × (reads p ≡ none)))
        ⊎ ((cs : List Bytes) × (hash_loop b3 hex reads pos h rest w ≡ ok (update_all b3 h cs))
            × (concat cs ≡ rest))
  pieces pos h rest (Acc.intro _ below) = elim (Option-cases (reads pos)) [
    | inl q ↦ inl (hash_error pos h rest (Acc.intro rest below) q, (pos, q))
    | inr (k, q) ↦ elim (dec_lt 0 (read_len k rest)) [
      | yes more ↦
          let n = read_len k rest in
          let round = hash_more pos h rest below k q more in
          elim (pieces (pos + n) (b3.update h (take n rest)) (drop n rest)
            (below (drop n rest) (drop_shorter k rest more))) [
              | inl (e, fault) ↦ inl (round ∙ e, fault)
              | inr (cs, e, whole) ↦ inr (
                take n rest ∷ cs,
                round ∙ e,
                ap (◌++◌ (take n rest)) whole ∙ take-append-drop n rest,
              )
            ]
      | no stop ↦ inr ([], hash_end pos h rest below k q stop, nothing_left k rest stop)
    ]
  ]

module _ {H : Type 0} (b3 : Blake3 H) (laws : IsBlake3 b3) (hex : Hex) where
  root_hash_of_pieces :
      (reads : Reads) (content : Bytes) (cs : List Bytes)
      → hash_loop b3 hex reads 0 b3.new content (Shorter-wf.apply content)
        ≡ ok (update_all b3 b3.new cs)
      → concat cs ≡ content
      → root_hash b3 hex reads (some content) ≡ ok (chunk_hash b3 hex content)
  unfolding root_hash
  root_hash_of_pieces reads content cs e whole =
      rw e (ap (λ h. ok (hex.encode h)) (laws cs ∙ ap b3.hash whole))

  root_hash_of_error :
      (reads : Reads) (content : Bytes)
      → hash_loop b3 hex reads 0 b3.new content (Shorter-wf.apply content) ≡ err io
      → root_hash b3 hex reads (some content) ≡ err io
  unfolding root_hash
  root_hash_of_error reads content e = rw e refl

  -- `root_hash` gives the hex hash of the whole content, however short the reads are, or it fails
  -- with an I/O error, which it does only if some read fails.
  pub root_hash_lem :
      (reads : Reads) (content : Bytes)
      → ((root_hash b3 hex reads (some content) ≡ err io) × ((p : ℕ) × (reads p ≡ none)))
        ⊎ (root_hash b3 hex reads (some content) ≡ ok (chunk_hash b3 hex content))
  root_hash_lem reads content =
      elim (pieces b3 hex reads 0 b3.new content (Shorter-wf.apply content)) [
        | inl (e, fault) ↦ inl (root_hash_of_error reads content e, fault)
        | inr (cs, e, whole) ↦ inr (root_hash_of_pieces reads content cs e whole)
      ]
