-- ===== src/Transfer/Concurrent/Loops.antt =====
-- The loop of a pull over its replies, in steps.
use mathlib.Core.Path.{subst}
use furcate_mesh.Prelude.{
  ℕ, suc, ◌≡◌, ◌≢◌, ap, ◌∙◌, Bool, true, ◌||◌, some, List, [], ◌∷◌, inl, inr, Bool-cases, Result,
  err, Result-cases,
}
use furcate_mesh.Prelude.Text.{Bytes, Text}
use furcate_mesh.Prelude.Equality.{text_eq_instance, nat_eq_instance, update_same}
use furcate_mesh.Prelude.Dict.{insert}
use furcate_mesh.Core.Hex.{Hex}
use furcate_mesh.Transfer.{TransferError, io, Blake3, IsBlake3, HeaderCodec}
use furcate_mesh.Transfer.Disk.{write_at}
use furcate_mesh.Transfer.Serve.{Reply}
use furcate_mesh.Transfer.Pull.{Cache, partial, accept, receive}
use furcate_mesh.Transfer.Concurrent.{
  Disk, Phase, receiving, leaving, put_inode, Act, receives, refuses, breaks,
}
use furcate_mesh.Transfer.Concurrent.Directory.{
  Frame, Frame-trans, IsTree, put_inode-IsTree, put_inode-Frame,
}
use furcate_mesh.Transfer.Concurrent.View.{Represents, file_at-some, Represents-insert}
use furcate_mesh.Transfer.Concurrent.Alone.{Alone, rest, also, phase_of}

module _ (digest : Text) where
  -- what the temporary file is, and that nothing else has changed
  pub record Holds (d e : Disk) (i : ℕ) (file : Bytes) : Type 0 where
    pub tree : IsTree e
    pub name : e.names (partial digest) ≡ some i
    pub content : e.inodes i ≡ file
    pub others : (t : Text) → t ≢ partial digest → Frame t d e

  pub Holds-put_inode :
      (c d : Disk) (i : ℕ) (file new : Bytes) → Holds c d i file → Holds c (put_inode i new d) i new
  Holds-put_inode c d i file new h = record {
    tree = put_inode-IsTree d h.tree (partial digest) i h.name new;
    name = h.name;
    content = update_same i new d.inodes;
    others = λ t ne.
        Frame-trans t c d (put_inode i new d) (h.others t ne)
          (put_inode-Frame d h.tree (partial digest) i h.name new t ne);
  }

  pub Represents-Holds :
      (d e : Disk) (i : ℕ) (file : Bytes) (m : Cache)
      → Represents d m
      → Holds d e i file
      → Represents e (insert (partial digest) file m)
  Represents-Holds d e i file m view h =
      Represents-insert d e m (partial digest) view h.tree h.others file
        (file_at-some e (partial digest) i h.name ∙ ap some h.content)

module _ {H : Type 0} (b3 : Blake3 H) (laws : IsBlake3 b3) (hex : Hex) (codec : HeaderCodec)
    (digest : Text) where
  -- the loop over the replies
  pub record Loops (c d : Disk) (i : ℕ) (ph : Phase)
      (res : Bytes × Result TransferError (Bool × Bool)) : Type 0 where
    pub left : Disk
    pub path : Alone b3 laws hex codec digest d ph left (phase_of i res.1)
    pub holds : Holds digest c left i res.0

  Loops-also :
      (c d e : Disk) (i : ℕ) (ph next : Phase) (res : Bytes × Result TransferError (Bool × Bool))
      → Act b3 hex codec digest d ph e next
      → Loops c e i next res
      → Loops c d i ph res
  Loops-also c d e i ph next res act l = record {
    left = l.left;
    path = also d e l.left ph next (phase_of i res.1) act l.path;
    holds = l.holds;
  }

  Loops-last :
      (c d : Disk) (i : ℕ) (ph : Phase) (file : Bytes) (e : TransferError)
      → Act b3 hex codec digest d ph d (leaving i e)
      → Holds digest c d i file
      → Loops c d i ph (file, err e)
  Loops-last c d i ph file e act h =
      Loops-also c d d i ph (leaving i e) (file, err e) act
        (record { left = d; path = rest d (leaving i e); holds = h })

  pub Loops-receive :
      (writes : ℕ → Bool) (n : ℕ) (c d : Disk) (i : ℕ) (file : Bytes) (got_any got_last : Bool)
      (rs : List Reply)
      → Holds digest c d i file
      → Loops c d i
          (receiving i got_any got_last)
          (receive b3 hex codec writes n file got_any got_last rs)
  unfolding receive
  Loops-receive writes n c d i file got_any got_last [] h = record {
    left = d;
    path = rest d (receiving i got_any got_last);
    holds = h;
  }
  Loops-receive writes n c d i file got_any got_last (r ∷ rs) h =
      elim (Result-cases (accept b3 hex codec r)) [
        | inl (e, q) ↦
            rw (q, receive) (Loops-last c d i _ file e (refuses d i got_any got_last r e q) h)
        | inr ((header, payload), q) ↦ elim (Bool-cases (writes n)) [
          | inr w ↦
              rw (q, receive) (rw w (Loops-last c d i _ file io (breaks d i got_any got_last io) h))
          | inl w ↦
              rw (q, receive)
                (rw w (
                  Loops-also c d _ i _ _ _ (receives d i got_any got_last r header payload q) (
                    Loops-receive writes (suc n) c _ i _ true (header.last || got_last) rs (
                      subst
                        (λ x.
                          Holds digest c
                            (put_inode i (write_at (d.inodes i) header.offset payload) d) i
                            (write_at x header.offset payload))
                        h.content
                        (Holds-put_inode digest c d i file
                          (write_at (d.inodes i) header.offset payload) h)))))
        ]
      ]
