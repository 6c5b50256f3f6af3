-- ===== src/Transfer/Concurrent/Gone.antt =====
-- Inodes whose name is gone: what is still written to them is seen under no name.
use furcate_mesh.Prelude.{ℕ, ◌<◌, ◌≡◌, ◌≢◌, inl, inr, refl, sym, ap, ◌∙◌, none, some, arith}
use furcate_mesh.Prelude.Text.{Bytes, Text}
use furcate_mesh.Prelude.Equality.{text_eq_instance, nat_eq_instance, update_same, update_other}
use furcate_mesh.Core.Hex.{Hex}
use furcate_mesh.Transfer.{Blake3, chunk_hash}
use furcate_mesh.Transfer.Concurrent.{Disk, put_inode, create, unlink, move}
use furcate_mesh.Transfer.Concurrent.Directory.{
  Frame, IsTree, IsDirectory, Created, Moved, create_cases, move_cases, unlink_cases,
}

-- The inode is in use, and no name stands for it.
pub record IsGone (i : ℕ) (d : Disk) : Type 0 where
  pub used : i < d.next
  pub nameless : (n : Text) → d.names n ≢ some i

pub put_inode-IsGone :
    (d : Disk) (i j : ℕ) (file : Bytes) → IsGone i d → IsGone i (put_inode j file d)
put_inode-IsGone d i j file g = record { used = g.used; nameless = g.nameless }

pub create-IsGone : (d : Disk) (i : ℕ) (tmp : Text) → IsGone i d → IsGone i (create tmp d)
create-IsGone d i tmp g = record {
  used = omega (arith, g.used);
  nameless = λ n h. made n (create_cases d tmp n i h);
}
  where
    made : (n : Text) → ¬ Created d tmp n i
    made n (inl (e, q)) = omega (arith, q, g.used)
    made n (inr h) = g.nameless n h

pub unlink-IsGone : (d : Disk) (i : ℕ) (tmp : Text) → IsGone i d → IsGone i (unlink tmp d)
unlink-IsGone d i tmp g = record {
  used = g.used;
  nameless = λ n h. g.nameless n (unlink_cases d tmp n i h);
}

pub move-IsGone :
    (d : Disk) (i j : ℕ) (tmp g : Text)
    → d.names tmp ≡ some j
    → IsGone i d
    → IsGone i (move tmp g j d)
move-IsGone d i j tmp g held gone = record {
  used = gone.used;
  nameless = λ n h. moved n (move_cases d tmp g j n i h);
}
  where
    moved : (n : Text) → ¬ Moved d tmp g j n i
    moved n (inl (e, q)) = gone.nameless tmp (held ∙ ap some (sym q))
    moved n (inr (e, h)) = gone.nameless n h

-- a file whose only name is removed
pub IsGone-unlink :
    (d : Disk) (i : ℕ) (tmp : Text) → IsTree d → d.names tmp ≡ some i → IsGone i (unlink tmp d)
IsGone-unlink d i tmp tree held = record {
  used = tree.fresh tmp i held;
  nameless = λ n h.
      let k = unlink_cases d tmp n i h in
      let e = tree.exclusive n tmp i k held in cc (e, h, removed n e);
}
  where
    removed : (n : Text) → n ≡ tmp → (unlink tmp d).names n ≡ none
    removed n e = ap (unlink tmp d).names e ∙ update_same tmp none d.names

-- writing to such an inode
module _ (d : Disk) (i : ℕ) (file : Bytes) (gone : IsGone i d) where
  pub gone-Frame : (t : Text) → Frame t d (put_inode i file d)
  gone-Frame t = record {
    name = refl;
    content = λ j h. update_other i j file d.inodes (λ e. gone.nameless t (h ∙ ap some (sym e)));
  }

  pub gone-IsDirectory :
      {H : Type 0} (b3 : Blake3 H) (hex : Hex)
      → IsDirectory b3 hex d
      → IsDirectory b3 hex (put_inode i file d)
  gone-IsDirectory b3 hex dir = record {
    tree = record { fresh = dir.tree.fresh; exclusive = dir.tree.exclusive };
    verified = λ n j h. elim (dir.verified n j h) [
      | inl p ↦ inl p
      | inr v ↦ inr (ap (chunk_hash b3 hex) ((gone-Frame n).content j h) ∙ v)
    ];
  }
