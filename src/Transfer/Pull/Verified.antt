-- ===== src/Transfer/Pull/Verified.antt =====
-- The cache holds only verified files, and a failed pull adds none.
use furcate_mesh.Prelude.{
  arith, ℕ, suc, ◌≡◌, ◌≢◌, ◌⊎◌, refl, ap, sym, ◌∙◌, Bool, true, false, ◌||◌, none, some, List, [],
  ◌∷◌, inl, inr, Member, Bool-cases, Result-cases, Result, ok, err,
}
use furcate_mesh.Prelude.Text.{Bytes, Text, text_eq, text_eq_iff}
use furcate_mesh.Prelude.Equality.{text_eq_instance}
use furcate_mesh.Prelude.Dict.{get}
use furcate_mesh.Core.Hex.{Hex}
use furcate_mesh.Core.PeerId.{PeerId}
use furcate_mesh.Transfer.{
  TransferError, io, transport, malformed_reply, chunk_verify, ChunkHeader, Blake3, IsBlake3,
  HeaderCodec, chunk_hash, verify,
}
use furcate_mesh.Transfer.Disk.{write_at}
use furcate_mesh.Transfer.Serve.{Reply, sample, failure}
use furcate_mesh.Transfer.Pull.{
  Cache, Env, partial, accept, receive, finish, fetch, pull_with_options,
}
use furcate_mesh.Transfer.Pull.Effect.{Effect, pull-Effect}

-- A name that some digest gives to its temporary file.
abbrev pub IsPartial : Text → Type 0
IsPartial j = (d : Text) × (j ≡ partial d)

module _ {H : Type 0} (b3 : Blake3 H) (laws : IsBlake3 b3) (hex : Hex) (codec : HeaderCodec) where
  -- Every file but temporary ones stands under the hash of its content.
  pub record IsVerified (m : Cache) : Type 0 where
    pub verified :
        (j : Text) (c : Bytes) → get j m ≡ some c → IsPartial j ⊎ (chunk_hash b3 hex c ≡ j)

  over-Effect :
      (m : Cache) (digest j : Text) (c : Bytes) (res : Result TransferError Text × Cache)
      → IsVerified m
      → Effect b3 laws hex codec m digest j res
      → get j res.1 ≡ some c
      → IsPartial j ⊎ (chunk_hash b3 hex c ≡ j)
  over-Effect m digest j c res v (inl same) h = v.verified j c (sym same ∙ h)
  over-Effect m digest j c res v (inr (name, done, (d, held, hash))) h =
      inr (cc (h, held, hash, name))

  -- Whatever the disk, the network and the peers do, and whether it succeeds or fails, a pull keeps
  -- every file of the cache, temporary ones apart, under the hash of its content.
  pub pull-IsVerified :
      (env : Env) (peer : PeerId) (digest : Text) (m : Cache)
      → IsVerified m
      → IsVerified (pull_with_options b3 hex codec env peer digest m).1
  pull-IsVerified env peer digest m v = record {
    verified = λ j c h. elim (Bool-cases (text_eq j (partial digest))) [
      | inl e ↦ inl (digest, (text_eq_iff j (partial digest)).0 e)
      | inr n ↦
          over-Effect m digest j c _ v
            (pull-Effect b3 laws hex codec env peer digest j m
              (λ e. cc (n, (text_eq_iff j (partial digest)).1 e)))
            h
    ];
  }

  failed-Effect :
      (m : Cache) (digest j : Text) (res : Result TransferError Text × Cache) (e : TransferError)
      → Effect b3 laws hex codec m digest j res
      → res.0 ≡ err e
      → get j res.1 ≡ get j m
  failed-Effect m digest j res e (inl same) h = same
  failed-Effect m digest j res e (inr (name, done, held)) h = cc

  -- A pull that fails leaves every file as it was, apart from its own temporary one.
  pub pull_failed :
      (env : Env) (peer : PeerId) (digest j : Text) (m : Cache) (e : TransferError)
      → (pull_with_options b3 hex codec env peer digest m).0 ≡ err e
      → j ≢ partial digest
      → get j (pull_with_options b3 hex codec env peer digest m).1 ≡ get j m
  pull_failed env peer digest j m e h ne =
      failed-Effect m digest j _ e (pull-Effect b3 laws hex codec env peer digest j m ne) h

-- A reply that no pull may accept: the peer's error, a sample without a header or with one that
-- does not parse, or a payload whose hash is not the one that its header names.
pub data IsRefused {H : Type 0} (b3 : Blake3 H) (hex : Hex) (codec : HeaderCodec)
    : Reply → Type 0 where
  failed_reply : IsRefused b3 hex codec failure
  no_header : (payload : Bytes) → IsRefused b3 hex codec (sample none payload)
  bad_header :
      (bytes payload : Bytes)
      → codec.from_slice bytes ≡ none
      → IsRefused b3 hex codec (sample (some bytes) payload)
  bad_hash :
      (bytes payload : Bytes) (header : ChunkHeader)
      → codec.from_slice bytes ≡ some header
      → header.chunk_hash ≢ hex.encode (b3.hash payload)
      → IsRefused b3 hex codec (sample (some bytes) payload)

-- An answer that is some error.
abbrev pub Fails : {A : Type 0} → Result TransferError A → Type 0
Fails r = (e : TransferError) × (r ≡ err e)

module _ {H : Type 0} (b3 : Blake3 H) (hex : Hex) (codec : HeaderCodec) where
  accept-IsRefused : (r : Reply) → IsRefused b3 hex codec r → Fails (accept b3 hex codec r)
  unfolding accept verify
  accept-IsRefused failure failed_reply = (transport, refl)
  accept-IsRefused (sample none payload) (no_header _) = (malformed_reply, refl)
  accept-IsRefused (sample (some bytes) payload) (bad_header _ _ h) = rw h (malformed_reply, refl)
  accept-IsRefused (sample (some bytes) payload) (bad_hash _ _ header h ne) = (
    chunk_verify header.offset,
    ground (arith, h, text_eq_iff (hex.encode (b3.hash payload)) header.chunk_hash),
  )

  receive_corrupt :
      (writes : ℕ → Bool) (i : ℕ) (file : Bytes) (got_any got_last : Bool) (rs : List Reply)
      (r : Reply) (e : TransferError)
      → Member r rs
      → accept b3 hex codec r ≡ err e
      → Fails (receive b3 hex codec writes i file got_any got_last rs).1
  unfolding receive
  receive_corrupt writes i file got_any got_last [] r e m h = absurd m
  receive_corrupt writes i file got_any got_last (s ∷ rs) r e (inl q) h =
      rw (ap (accept b3 hex codec) (sym q) ∙ h, receive) (e, refl)
  receive_corrupt writes i file got_any got_last (s ∷ rs) r e (inr m) h =
      elim (Result-cases (accept b3 hex codec s)) [
        | inl (e', q) ↦ rw (q, receive) (e', refl)
        | inr (hp, q) ↦ elim (Bool-cases (writes i)) [
          | inl w ↦
              rw (q, receive)
                (rw w (
                  receive_corrupt writes (suc i) (write_at file hp.0.offset hp.1) true
                    (hp.0.last || got_last) rs r e m h))
          | inr w ↦ rw (q, receive) (rw w (io, refl))
        ]
      ]

  finish_failed :
      (env : Env) (peer : PeerId) (digest : Text) (m : Cache)
      (received : Bytes × Result TransferError (Bool × Bool))
      → Fails received.1
      → Fails (finish b3 hex codec env peer digest m received).0
  unfolding finish
  finish_failed env peer digest m (file, err e) h = (e, refl)
  finish_failed env peer digest m (file, ok flags) (e, h) = cc

  -- One reply that is an error, has no header, has a header that does not parse, or has a payload
  -- whose hash is not the one in its header, makes the whole pull of a file that is not yet cached
  -- fail, wherever it stands among the replies and whatever the disk does.
  pub pull_corrupt :
      (env : Env) (peer : PeerId) (digest : Text) (m : Cache) (rs : List Reply) (r : Reply)
      → get digest m ≡ none
      → env.replies ≡ some rs
      → Member r rs
      → IsRefused b3 hex codec r
      → Fails (pull_with_options b3 hex codec env peer digest m).0
  unfolding pull_with_options
  pull_corrupt env peer digest m rs r absent replies mem refused =
      elim (Bool-cases env.creates_dir) [
        | inl made ↦ elim (Bool-cases env.opens_tmp) [
          | inl opened ↦
              rw (made, pull_with_options)
                (rw absent (
                  rw (opened, fetch)
                    (rw replies (
                      let (e, h) = accept-IsRefused r refused in
                      finish_failed env peer digest _ _
                        (receive_corrupt env.writes 0 [] false false rs r e mem h)))))
          | inr failed ↦ rw (made, pull_with_options) (rw absent (rw (failed, fetch) (io, refl)))
        ]
        | inr failed ↦ rw (failed, pull_with_options) (io, refl)
      ]
