-- ===== src/Transfer/Pull/Complete.antt =====
-- A pull over a working disk and network, from replies that together hold the whole file.
use furcate_mesh.Prelude.{
  ℕ, ◌<◌, ◌≡◌, refl, ◌∙◌, Bool, true, false, none, some, List, [], length, arith, All, Member, inl,
  inr, Result, ok,
}
use furcate_mesh.Prelude.Lists.Index.{list_ext}
use furcate_mesh.Prelude.Text.{Bytes, Text, text_eq_refl}
use furcate_mesh.Prelude.Equality.{text_eq_instance}
use furcate_mesh.Prelude.Dict.{get, insert, remove, get-insert}
use furcate_mesh.Core.Hex.{Hex}
use furcate_mesh.Core.PeerId.{PeerId}
use furcate_mesh.Transfer.{TransferError, Blake3, IsBlake3, HeaderCodec, chunk_hash}
use furcate_mesh.Transfer.Disk.{Reads}
use furcate_mesh.Transfer.Serve.{Reply, root_hash}
use furcate_mesh.Transfer.Serve.RootHash.{root_hash_lem}
use furcate_mesh.Transfer.Pull.{
  Cache, Env, partial, rename, read_back, install, fetch, receive, pull_with_options,
}
use furcate_mesh.Transfer.Pull.Receive.{IsPiece, Covers, IsLast, Received, receive-Received}

abbrev pub NeverFails : Reads → Type 0
NeverFails reads = (p : ℕ) → (k : ℕ) × (reads p ≡ some k)

-- Nothing fails, and the replies are `rs`.
pub record IsFaultless (env : Env) (rs : List Reply) : Type 0 where
  pub creates_dir : env.creates_dir ≡ true
  pub opens_tmp : env.opens_tmp ≡ true
  pub replies : env.replies ≡ some rs
  pub writes : (i : ℕ) → env.writes i ≡ true
  pub flushes : env.flushes ≡ true
  pub plan : Reads
  pub reads : env.reads ≡ some plan
  pub reads_all : NeverFails plan
  pub renames : env.renames ≡ true

module _ {H : Type 0} (b3 : Blake3 H) (laws : IsBlake3 b3) (hex : Hex) (codec : HeaderCodec) where
  pub root_hash_total :
      (reads : Reads) (content : Bytes)
      → NeverFails reads
      → root_hash b3 hex reads (some content) ≡ ok (chunk_hash b3 hex content)
  root_hash_total reads content h = elim (root_hash_lem b3 laws hex reads content) [
    | inl (e, (p, q)) ↦ let (k, r) = h p in cc
    | inr e ↦ e
  ]

  -- Replies that hold every byte of the content, and one of which is the last.
  pub record IsWhole (content : Bytes) (rs : List Reply) : Type 0 where
    pub pieces : All (IsPiece b3 hex codec content) rs
    pub covers :
        (i : ℕ) → i < length content → (r : Reply) × Member r rs × Covers b3 hex codec content i r
    pub last : (r : Reply) × Member r rs × IsLast b3 hex codec content r

  module _ (content : Bytes) (rs : List Reply) (whole : IsWhole content rs) (env : Env)
      (free : IsFaultless env rs) where
    abbrev outcome : Bytes × Result TransferError (Bool × Bool)
    outcome = receive b3 hex codec env.writes 0 [] false false rs

    received : Received b3 hex codec content [] false false rs outcome
    received =
        receive-Received b3 hex codec content env.writes free.writes 0 [] false false rs
          whole.pieces (omega arith)

    file_received : outcome.0 ≡ content
    file_received =
        list_ext outcome.0 content received.fits
          λ i l. let (r, m, c) = whole.covers i l in received.covered i r m c l

    flags_received : outcome.1 ≡ ok (true, true)
    flags_received =
        let (r, m, t) = whole.last in
        received.answer ∙ (λ i. ok (received.some_any r m i, received.some_last r m t i))

    outcome_eq : outcome ≡ (content, ok (true, true))
    outcome_eq = λ i. (file_received i, flags_received i)

    -- the digest of the content
    abbrev digest : Text
    digest = chunk_hash b3 hex content

    install-content :
        (m : Cache)
        → install b3 hex codec env digest content m ≡ (ok digest, rename digest content m)
    unfolding install read_back
    install-content m =
        rw (free.reads, install)
          (rw (root_hash_total free.plan content free.reads_all)
            (rw (text_eq_refl digest) (rw free.renames refl)))

    fetch_whole :
        (peer : PeerId) (m : Cache)
        → fetch b3 hex codec env peer digest m
          ≡ (ok digest, rename digest content (insert (partial digest) content m))
    unfolding fetch
    fetch_whole peer m =
        rw (free.opens_tmp, fetch)
          (rw free.replies
            (rw outcome_eq (rw free.flushes (install-content (insert (partial digest) content m)))))

    pull_eq :
        (peer : PeerId) (m : Cache)
        → get digest m ≡ none
        → pull_with_options b3 hex codec env peer digest m
          ≡ (ok digest, rename digest content (insert (partial digest) content m))
    unfolding pull_with_options
    pull_eq peer m absent =
        rw (free.creates_dir, pull_with_options) (rw absent (fetch_whole peer m))

    get-rename_self : (m : Cache) → get digest (rename digest content m) ≡ some content
    unfolding rename
    get-rename_self m =
        get-insert digest digest content (remove (partial digest) m) ∙ rw (text_eq_refl digest) refl

    -- On a working disk and network, from replies that together hold the whole file, in whatever
    -- order and from however many peers, a pull of the file's digest that is not yet cached
    -- returns the digest and leaves the whole file under it.
    pub pull_whole :
        (peer : PeerId) (m : Cache)
        → get digest m ≡ none
        → ((pull_with_options b3 hex codec env peer digest m).0 ≡ ok digest)
          × (get digest (pull_with_options b3 hex codec env peer digest m).1 ≡ some content)
    pull_whole peer m absent = rw (pull_eq peer m absent) (refl, get-rename_self _)
