-- ===== src/Transfer/Pull/Effect.antt =====
-- What a pull can do to the cache directory, whatever the disk and the network do: besides its own
-- temporary file it adds at most one file, under its digest, and only with content of that hash.
use furcate_mesh.Prelude.{
  ◌≡◌, ◌≢◌, ◌⊎◌, refl, ap, ◌∙◌, Bool, true, false, none, some, Option, [], length, length-append,
  arith, inl, inr, Bool-cases, Option-cases, Result, ok, err, Result-cases,
}
use furcate_mesh.Prelude.Text.{Bytes, Text, codes, text_eq, text_eq_iff}
use furcate_mesh.Prelude.Equality.{text_eq_instance}
use furcate_mesh.Prelude.Dict.{get, insert, remove, get-insert, get-remove}
use furcate_mesh.Core.Hex.{Hex}
use furcate_mesh.Core.PeerId.{PeerId}
use furcate_mesh.Transfer.{TransferError, Blake3, IsBlake3, HeaderCodec, chunk_hash}
use furcate_mesh.Transfer.Disk.{Reads}
use furcate_mesh.Transfer.Serve.RootHash.{root_hash_lem}
use furcate_mesh.Transfer.Pull.{
  Cache, Env, partial, discard, rename, read_back, install, finish, fetch, receive,
  pull_with_options,
}

pub partial_ne : (digest : Text) → digest ≢ partial digest
unfolding partial
partial_ne digest h = absurd (omega (arith, ap length h, length-append digest (codes ".partial")))

get-discard :
    (env : Env) (digest j : Text) (m : Cache)
    → j ≢ partial digest
    → get j (discard env digest m) ≡ get j m
unfolding discard
get-discard env digest j m ne =
    ground (arith, get-remove (partial digest) j m, text_eq_iff (partial digest) j)

get-rename :
    (digest j : Text) (file : Bytes) (m : Cache)
    → j ≢ partial digest
    → (get j (rename digest file m) ≡ get j m)
      ⊎ ((j ≡ digest) × (get j (rename digest file m) ≡ some file))
unfolding rename
get-rename digest j file m ne = ground (
  arith,
  get-insert digest j file (remove (partial digest) m),
  get-remove (partial digest) j m,
  text_eq_iff (partial digest) j,
  text_eq_iff digest j,
)

module _ {H : Type 0} (b3 : Blake3 H) (laws : IsBlake3 b3) (hex : Hex) (codec : HeaderCodec) where
  -- The file of name `j` is left as it was, or it is the pulled one.
  abbrev pub Effect : Cache → Text → Text → Result TransferError Text × Cache → Type 0
  Effect m digest j res =
      (get j res.1 ≡ get j m)
      ⊎ ((j ≡ digest)
          × (res.0 ≡ ok digest)
          × ((c : Bytes) × (get j res.1 ≡ some c) × (chunk_hash b3 hex c ≡ digest)))

  pub read_back_lem :
      (reads : Option Reads) (file : Bytes) (a : Text)
      → read_back b3 hex codec reads file ≡ ok a
      → chunk_hash b3 hex file ≡ a
  unfolding read_back
  read_back_lem none file a h = cc
  read_back_lem (some reads) file a h = elim (root_hash_lem b3 laws hex reads file) [
    | inl (e, fault) ↦ cc
    | inr e ↦ cc
  ]

  -- an answer that leaves the file of name `j` alone
  kept :
      (m : Cache) (digest j : Text) (res : Result TransferError Text × Cache)
      → get j res.1 ≡ get j m
      → Effect m digest j res
  kept m digest j res h = inl h

  install-Effect :
      (env : Env) (digest j : Text) (file : Bytes) (m : Cache)
      → j ≢ partial digest
      → Effect m digest j (install b3 hex codec env digest file m)
  unfolding install
  install-Effect env digest j file m ne =
      elim (Result-cases (read_back b3 hex codec env.reads file)) [
        | inl (e, q) ↦ rw (q, install) (inl refl)
        | inr (a, q) ↦ elim (Bool-cases (text_eq a digest)) [
          | inl same ↦ elim (Bool-cases env.renames) [
            | inl done ↦
                rw (q, install)
                  (rw same (
                    rw done (
                      moved (get-rename digest j file m ne)
                        (read_back_lem env.reads file a q ∙ (text_eq_iff a digest).0 same))))
            | inr failed ↦ rw (q, install) (rw same (rw failed (inl refl)))
          ]
          | inr other ↦ rw (q, install) (rw other (inl (get-discard env digest j m ne)))
        ]
      ]
    where
      moved :
          (get j (rename digest file m) ≡ get j m)
            ⊎ ((j ≡ digest) × (get j (rename digest file m) ≡ some file))
          → chunk_hash b3 hex file ≡ digest
          → Effect m digest j (ok digest, rename digest file m)
      moved (inl h) v = inl h
      moved (inr (h, g)) v = inr (h, refl, (file, g, v))

  finish-Effect :
      (env : Env) (peer : PeerId) (digest j : Text) (m : Cache)
      (received : Bytes × Result TransferError (Bool × Bool))
      → j ≢ partial digest
      → Effect m digest j (finish b3 hex codec env peer digest m received)
  unfolding finish
  finish-Effect env peer digest j m (file, err e) ne = inl refl
  finish-Effect env peer digest j m (file, ok (false, got_last)) ne =
      inl (get-discard env digest j m ne)
  finish-Effect env peer digest j m (file, ok (true, false)) ne =
      inl (get-discard env digest j m ne)
  finish-Effect env peer digest j m (file, ok (true, true)) ne = elim (Bool-cases env.flushes) [
    | inl done ↦ rw done (install-Effect env digest j file m ne)
    | inr failed ↦ rw failed (inl refl)
  ]

  -- an effect after the temporary file was written
  over_partial :
      (m : Cache) (digest j : Text) (file : Bytes) (res : Result TransferError Text × Cache)
      → j ≢ partial digest
      → Effect (insert (partial digest) file m) digest j res
      → Effect m digest j res
  over_partial m digest j file res ne (inl h) = inl (h ∙ get-insert_partial)
    where
      get-insert_partial : get j (insert (partial digest) file m) ≡ get j m
      get-insert_partial =
          ground (arith, get-insert (partial digest) j file m, text_eq_iff (partial digest) j)
  over_partial m digest j file res ne (inr h) = inr h

  fetch-Effect :
      (env : Env) (peer : PeerId) (digest j : Text) (m : Cache)
      → j ≢ partial digest
      → Effect m digest j (fetch b3 hex codec env peer digest m)
  unfolding fetch
  fetch-Effect env peer digest j m ne = elim (Bool-cases env.opens_tmp) [
    | inl opened ↦ elim (Option-cases env.replies) [
      | inl q ↦ rw (opened, fetch) (rw q (over_partial m digest j [] _ ne (inl refl)))
      | inr (rs, q) ↦
          let received = receive b3 hex codec env.writes 0 [] false false rs in
          rw (opened, fetch)
            (rw q (
              over_partial m digest j received.0 _ ne (
                finish-Effect env peer digest j (insert (partial digest) received.0 m) received
                  ne)))
    ]
    | inr failed ↦ rw (failed, fetch) (inl refl)
  ]

  -- Whatever the disk, the network and the peers do, a pull leaves every file except its own
  -- temporary one as it was, or it returns the digest and has put under it a file whose hash is
  -- that digest.
  pub pull-Effect :
      (env : Env) (peer : PeerId) (digest j : Text) (m : Cache)
      → j ≢ partial digest
      → Effect m digest j (pull_with_options b3 hex codec env peer digest m)
  unfolding pull_with_options
  pull-Effect env peer digest j m ne = elim (Bool-cases env.creates_dir) [
    | inl made ↦ elim (Option-cases (get digest m)) [
      | inl q ↦ rw (made, pull_with_options) (rw q (fetch-Effect env peer digest j m ne))
      | inr (c, q) ↦ rw (made, pull_with_options) (rw q (inl refl))
    ]
    | inr failed ↦ rw (failed, pull_with_options) (inl refl)
  ]
