-- ===== src/Transfer/Concurrent/Sequential.antt =====
-- `pull_with_options` as one piece is a run of its steps.
use mathlib.Core.Path.{subst}
use furcate_mesh.Prelude.{
  ℕ, ◌≡◌, refl, ◌∙◌, Bool, true, false, ◌&&◌, some, [], inl, inr, Bool-cases, Option-cases, Result,
  ok, err,
}
use furcate_mesh.Prelude.Text.{Bytes, Text}
use furcate_mesh.Prelude.Equality.{text_eq_instance, nat_eq_instance, update_same}
use furcate_mesh.Prelude.Dict.{get}
use furcate_mesh.Core.Hex.{Hex}
use furcate_mesh.Core.PeerId.{PeerId}
use furcate_mesh.Transfer.{
  TransferError, io, transport, peer_missing, malformed_reply, Blake3, IsBlake3, HeaderCodec,
}
use furcate_mesh.Transfer.Pull.{
  Cache, Env, partial, discard, install, finish, fetch, pull_with_options,
}
use furcate_mesh.Transfer.Concurrent.{
  Disk, Phase, waiting, missed, receiving, received, leaving, put_inode, create, unlink, Act, hits,
  misses, opens_new, opens_old, gives_up, closes,
}
use furcate_mesh.Transfer.Concurrent.Directory.{
  IsTree, put_inode-IsTree, put_inode-Frame, create-IsTree, create-Frame,
}
use furcate_mesh.Transfer.Concurrent.Loops.{Holds, Represents-Holds, Loops-receive}
use furcate_mesh.Transfer.Concurrent.View.{
  Represents, name-of_file, no_name-of_file, Represents-unlink,
}
use furcate_mesh.Transfer.Concurrent.Alone.{
  Alone, rest, also, phase_of, Runs, Runs-also, Runs-last, Runs-fails, Runs-settles, Runs-breaks,
  Runs-install,
}

module _ {H : Type 0} (b3 : Blake3 H) (laws : IsBlake3 b3) (hex : Hex) (codec : HeaderCodec)
    (digest : Text) where
  Run : Disk → Phase → Result TransferError Text × Cache → Type 0
  Run d ph res = Runs b3 laws hex codec digest d ph res

  -- a pull that gives up, and removes the temporary file if it can
  Runs-gives_up :
      (env : Env) (d : Disk) (i : ℕ) (got_any got_last : Bool) (e : TransferError) (m : Cache)
      → got_any && got_last ≡ false
      → Represents d m
      → Run d (receiving i got_any got_last) (err e, discard env digest m)
  unfolding Run discard
  Runs-gives_up env d i got_any got_last e m q view = elim (Bool-cases env.removes) [
    | inl r ↦ rw r (
        Runs-also b3 laws hex codec digest d (unlink (partial digest) d) _ (leaving i e) _
          (gives_up d i got_any got_last e q)
          (Runs-settles b3 laws hex codec digest _ i e _
            (Represents-unlink d m view (partial digest))))
    | inr r ↦ rw r (Runs-breaks b3 laws hex codec digest d i got_any got_last e m view)
  ]

  Runs-finish :
      (env : Env) (peer : PeerId) (e : Disk) (i : ℕ) (m : Cache)
      (received : Bytes × Result TransferError (Bool × Bool))
      → e.names (partial digest) ≡ some i
      → e.inodes i ≡ received.0
      → Represents e m
      → Run e (phase_of i received.1) (finish b3 hex codec env peer digest m received)
  unfolding Run finish
  Runs-finish env peer e i m (file, err x) name content view =
      Runs-settles b3 laws hex codec digest e i x m view
  Runs-finish env peer e i m (file, ok (false, got_last)) name content view =
      Runs-gives_up env e i false got_last (peer_missing peer digest) m refl view
  Runs-finish env peer e i m (file, ok (true, false)) name content view =
      Runs-gives_up env e i true false malformed_reply m refl view
  Runs-finish env peer e i m (file, ok (true, true)) name content view =
      elim (Bool-cases env.flushes) [
        | inr f ↦ rw f (Runs-breaks b3 laws hex codec digest e i true true io m view)
        | inl f ↦ rw f (
            Runs-also b3 laws hex codec digest e e _ _ _ (closes e i) (
              subst (λ x. Run e received (install b3 hex codec env digest x m)) content
                (Runs-install b3 laws hex codec digest env e i m view name)))
      ]

  -- the temporary file open and empty
  record Opened (d : Disk) : Type 0 where
    pub left : Disk
    pub inode : ℕ
    pub act : Act b3 hex codec digest d missed left (receiving inode false false)
    pub holds : Holds digest d left inode []

  open_tmp : (d : Disk) → IsTree d → Opened d
  open_tmp d tree = elim (Option-cases (d.names (partial digest))) [
    | inl q ↦ record {
      left = create (partial digest) d;
      inode = d.next;
      act = opens_new d q;
      holds = record {
        tree = create-IsTree d tree (partial digest);
        name = update_same (partial digest) (some d.next) d.names;
        content = update_same d.next [] d.inodes;
        others = create-Frame d tree (partial digest);
      };
    }
    | inr (i, q) ↦ record {
      left = put_inode i [] d;
      inode = i;
      act = opens_old d i q;
      holds = record {
        tree = put_inode-IsTree d tree (partial digest) i q [];
        name = q;
        content = update_same i [] d.inodes;
        others = put_inode-Frame d tree (partial digest) i q [];
      };
    }
  ]

  Alone-append :
      (d e : Disk) (ph next : Phase) (res : Result TransferError Text × Cache)
      → Alone b3 laws hex codec digest d ph e next
      → Run e next res
      → Run d ph res
  unfolding Run
  Alone-append _ _ _ _ res (rest d ph) runs = runs
  Alone-append _ _ _ _ res (also d e f ph next end act path) runs =
      Runs-also b3 laws hex codec digest d e ph next res act
        (Alone-append e f next end res path runs)

  Runs-fetch :
      (env : Env) (peer : PeerId) (d : Disk) (m : Cache)
      → Represents d m
      → Run d missed (fetch b3 hex codec env peer digest m)
  unfolding Run fetch
  Runs-fetch env peer d m view =
      let o = open_tmp d view.tree in
      elim (Bool-cases env.opens_tmp) [
        | inr f ↦ rw (f, fetch) (Runs-fails b3 laws hex codec digest d missed io m tt view)
        | inl f ↦
            Runs-also b3 laws hex codec digest d o.left missed _ _ o.act
              (elim (Option-cases env.replies) [
                | inl q ↦
                    rw (f, fetch)
                      (rw q (
                        Runs-breaks b3 laws hex codec digest o.left o.inode false false transport _
                          (Represents-Holds digest d o.left o.inode [] m view o.holds)))
                | inr (rs, q) ↦
                    let l =
                      Loops-receive b3 laws hex codec digest env.writes 0 d o.left o.inode [] false
                        false rs o.holds in
                    rw (f, fetch)
                      (rw q (
                        Alone-append o.left l.left _ _ _ l.path (
                          Runs-finish env peer l.left o.inode _ _ l.holds.name l.holds.content
                            (Represents-Holds digest d l.left o.inode _ m view l.holds))))
              ])
      ]

  -- Whatever the disk, the network and the peers do, the pull as one piece is a run of the steps of
  -- a pull with no other between them: from a directory with the files of a cache there are steps
  -- that end with the same answer and with the files of the cache that is left.
  pub pull-Runs :
      (env : Env) (peer : PeerId) (d : Disk) (m : Cache)
      → Represents d m
      → Runs b3 laws hex codec digest d waiting (pull_with_options b3 hex codec env peer digest m)
  unfolding Run pull_with_options
  pull-Runs env peer d m view = elim (Bool-cases env.creates_dir) [
    | inr f ↦ rw (f, pull_with_options) (Runs-fails b3 laws hex codec digest d waiting io m tt view)
    | inl f ↦ elim (Option-cases (get digest m)) [
      | inl q ↦
          rw (f, pull_with_options)
            (rw q (
              Runs-also b3 laws hex codec digest d d waiting missed _
                (misses d (no_name-of_file d digest (view.files digest ∙ q)))
                (Runs-fetch env peer d m view)))
      | inr (c, q) ↦
          let (i, name, content) = name-of_file d digest c (view.files digest ∙ q) in
          rw (f, pull_with_options)
            (rw q
              (Runs-last b3 laws hex codec digest d d waiting (ok digest) m (hits d i name) view))
    ]
  ]
