-- ===== src/Transfer/Concurrent/Alone.antt =====
-- One pull by itself, in steps.
use mathlib.Core.Path.{subst}
use furcate_mesh.Prelude.{
  ℕ, ◌≡◌, ◌≢◌, if◌then◌else◌, refl, sym, ap, ◌∙◌, Bool, some, [], ◌∷◌, ◌++◌, append-nil,
  append_assoc, length, take, drop, arith, inl, inr, Bool-cases, Result, ok, err, Result-cases,
}
use furcate_mesh.Prelude.Text.{Bytes, Text, text_eq, text_eq_iff}
use furcate_mesh.Prelude.Equality.{text_eq_instance, nat_eq_instance}
use furcate_mesh.Core.Hex.{Hex}
use furcate_mesh.Transfer.{
  TransferError, io, root_verify, Blake3, IsBlake3, HeaderCodec, chunk_hash,
}
use furcate_mesh.Transfer.Disk.{read_len}
use furcate_mesh.Transfer.Pull.{Cache, Env, partial, discard, rename, read_back, install}
use furcate_mesh.Transfer.Pull.Effect.{read_back_lem}
use furcate_mesh.Transfer.Concurrent.{
  Disk, Phase, receiving, received, reading, checked, leaving, returned, InProgress, unlink, move,
  Act, reopens, reads, verifies, rejects, renames, breaks, settles, fails,
}
use furcate_mesh.Transfer.Concurrent.Invariant.{drop-append}
use furcate_mesh.Transfer.Concurrent.View.{Represents, Represents-unlink, Represents-move}

-- where a pull stands when the replies have ended or one was refused
abbrev pub phase_of : ℕ → Result TransferError (Bool × Bool) → Phase
phase_of i (ok (got_any, got_last)) = receiving i got_any got_last
phase_of i (err e) = leaving i e

module _ {H : Type 0} (b3 : Blake3 H) (laws : IsBlake3 b3) (hex : Hex) (codec : HeaderCodec)
    (digest : Text) where
  -- The steps of a pull, with no step of another between them.
  pub data Alone : Disk → Phase → Disk → Phase → Type 0 where
    rest : (d : Disk) (ph : Phase) → Alone d ph d ph
    also :
        (d e f : Disk) (ph next end : Phase)
        → Act b3 hex codec digest d ph e next
        → Alone e next f end
        → Alone d ph f end

  -- Some steps lead to the answer of the sequential model, and to the directory that it leaves.
  pub record Runs (d : Disk) (ph : Phase) (res : Result TransferError Text × Cache) : Type 0 where
    pub left : Disk
    pub path : Alone d ph left (returned res.0)
    pub view : Represents left res.1

  pub Runs-also :
      (d e : Disk) (ph next : Phase) (res : Result TransferError Text × Cache)
      → Act b3 hex codec digest d ph e next
      → Runs e next res
      → Runs d ph res
  Runs-also d e ph next res act runs = record {
    left = runs.left;
    path = also d e runs.left ph next (returned res.0) act runs.path;
    view = runs.view;
  }

  pub Runs-last :
      (d e : Disk) (ph : Phase) (answer : Result TransferError Text) (m : Cache)
      → Act b3 hex codec digest d ph e (returned answer)
      → Represents e m
      → Runs d ph (answer, m)
  Runs-last d e ph answer m act view = record {
    left = e;
    path = also d e e ph (returned answer) (returned answer) act (rest e (returned answer));
    view = view;
  }

  pub Runs-fails :
      (d : Disk) (ph : Phase) (e : TransferError) (m : Cache)
      → InProgress ph
      → Represents d m
      → Runs d ph (err e, m)
  Runs-fails d ph e m busy view = Runs-last d d ph (err e) m (fails d ph e busy) view

  pub Runs-settles :
      (d : Disk) (i : ℕ) (e : TransferError) (m : Cache)
      → Represents d m
      → Runs d (leaving i e) (err e, m)
  Runs-settles d i e m view = Runs-last d d (leaving i e) (err e) m (settles d i e) view

  pub Runs-breaks :
      (d : Disk) (i : ℕ) (got_any got_last : Bool) (e : TransferError) (m : Cache)
      → Represents d m
      → Runs d (receiving i got_any got_last) (err e, m)
  Runs-breaks d i got_any got_last e m view =
      Runs-also d d _ (leaving i e) _ (breaks d i got_any got_last e) (Runs-settles d i e m view)

  -- reading byte by byte
  next_byte :
      (b : ℕ) (read behind file : Bytes)
      → read ++ b ∷ behind ≡ file
      → read ++ take (read_len 0 (drop (length read) file)) (drop (length read) file)
        ≡ read ++ b ∷ []
  unfolding read_len
  next_byte b read behind file e =
      let left : drop (length read) file ≡ b ∷ behind =
        ap (drop (length read)) (sym e) ∙ drop-append read (b ∷ behind) in
      let one : read_len 0 (b ∷ behind) ≡ 1 = omega arith in rw (left, one) refl

  read_all :
      (d : Disk) (i : ℕ) (read behind : Bytes) (res : Result TransferError Text × Cache)
      → read ++ behind ≡ d.inodes i
      → Runs d (reading i (d.inodes i)) res
      → Runs d (reading i read) res
  read_all d i read [] res e runs =
      subst (λ x. Runs d (reading i x) res) (sym (sym (append-nil read) ∙ e)) runs
  read_all d i read (b ∷ behind) res e runs =
      Runs-also d d (reading i read) _ res (reads d i 0 read) (
        subst (λ x. Runs d (reading i x) res) (sym (next_byte b read behind (d.inodes i) e))
          (read_all d i (read ++ b ∷ []) behind res (append_assoc read (b ∷ []) behind ∙ e) runs))

  -- From the comparison of the hashes.
  module _ (env : Env) (d : Disk) (i : ℕ) (m : Cache) (view : Represents d m)
      (held : d.names (partial digest) ≡ some i) where
    Runs-checked :
        Runs d checked
          (if env.renames then (ok digest, rename digest (d.inodes i) m) else (err io, m))
    unfolding rename
    Runs-checked = elim (Bool-cases env.renames) [
      | inl r ↦ rw r (
          Runs-last d (move (partial digest) digest i d) checked (ok digest) _ (renames d i held)
            (Represents-move d m view (partial digest) i digest held))
      | inr r ↦ rw r (Runs-fails d checked io m tt view)
    ]

    Runs-rejected :
        chunk_hash b3 hex (d.inodes i) ≢ digest
        → Runs d
            (reading i (d.inodes i))
            (err (root_verify digest (chunk_hash b3 hex (d.inodes i))), discard env digest m)
    unfolding discard
    Runs-rejected ne = elim (Bool-cases env.removes) [
      | inl r ↦ rw r (
          Runs-last d (unlink (partial digest) d) _ _ _ (rejects d i (d.inodes i) (omega arith) ne)
            (Represents-unlink d m view (partial digest)))
      | inr r ↦ rw r (Runs-fails d _ _ m tt view)
    ]

    pub Runs-install : Runs d received (install b3 hex codec env digest (d.inodes i) m)
    unfolding install
    Runs-install = elim (Result-cases (read_back b3 hex codec env.reads (d.inodes i))) [
      | inl (e, q) ↦ rw (q, install) (Runs-fails d received e m tt view)
      | inr (a, q) ↦
          let hash = read_back_lem b3 laws hex codec env.reads (d.inodes i) a q in
          Runs-also d d received (reading i []) _ (reopens d i held) (
            read_all d i [] (d.inodes i) _ refl (elim (Bool-cases (text_eq a digest)) [
              | inl same ↦
                  rw (q, install)
                    (rw same (
                      Runs-also d d _ checked _
                        (verifies d i (d.inodes i) (omega arith)
                          (hash ∙ (text_eq_iff a digest).0 same))
                        Runs-checked))
              | inr other ↦
                  rw (q, install)
                    (rw other (
                      subst
                        (λ x.
                          Runs d (reading i (d.inodes i))
                            (err (root_verify digest x), discard env digest m))
                        hash
                        (Runs-rejected (λ e. cc (other, (text_eq_iff a digest).1 (sym hash ∙ e))))))
            ]))
    ]
