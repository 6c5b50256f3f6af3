-- ===== src/Transfer/Concurrent/Directory.antt =====
-- What one change of the directory keeps.
use furcate_mesh.Prelude.{
  ℕ, suc, ◌<◌, ◌≡◌, ◌≢◌, ◌⊎◌, inl, inr, refl, sym, ap, ◌∙◌, none, some, [], arith,
}
use furcate_mesh.Prelude.Text.{Bytes, Text}
use furcate_mesh.Prelude.Equality.{
  text_eq_instance, nat_eq_instance, update, update_other, update_cases,
}
use furcate_mesh.Core.Hex.{Hex}
use furcate_mesh.Transfer.{Blake3, chunk_hash}
use furcate_mesh.Transfer.Pull.{partial}
use furcate_mesh.Transfer.Pull.Verified.{IsPartial}
use furcate_mesh.Transfer.Concurrent.{Disk, put_inode, create, unlink, move}

-- The file of a name is the same, with the same content.
pub record Frame (t : Text) (d e : Disk) : Type 0 where
  pub name : e.names t ≡ d.names t
  pub content : (i : ℕ) → d.names t ≡ some i → e.inodes i ≡ d.inodes i

pub Frame-refl : (t : Text) (d : Disk) → Frame t d d
Frame-refl t d = record { name = refl; content = λ i h. refl }

pub Frame-trans : (t : Text) (c d e : Disk) → Frame t c d → Frame t d e → Frame t c e
Frame-trans t c d e f g = record {
  name = g.name ∙ f.name;
  content = λ i h. g.content i (f.name ∙ h) ∙ f.content i h;
}

-- Names stand for inodes in use, one name for each.
pub record IsTree (d : Disk) : Type 0 where
  pub fresh : (n : Text) (i : ℕ) → d.names n ≡ some i → i < d.next
  pub exclusive : (n m : Text) (i : ℕ) → d.names n ≡ some i → d.names m ≡ some i → n ≡ m

-- a name after a move of the inode `i` from `tmp` to `g`, after the creation of `tmp`, and after its
-- removal
abbrev pub Moved : Disk → Text → Text → ℕ → Text → ℕ → Type 0
Moved d tmp g i n j = ((n ≡ g) × (j ≡ i)) ⊎ ((n ≢ tmp) × (d.names n ≡ some j))

abbrev pub Created : Disk → Text → Text → ℕ → Type 0
Created d tmp n j = ((n ≡ tmp) × (j ≡ d.next)) ⊎ (d.names n ≡ some j)

module _ (d : Disk) (tmp : Text) where
  pub move_cases :
      (g : Text) (i : ℕ) (n : Text) (j : ℕ)
      → (move tmp g i d).names n ≡ some j
      → Moved d tmp g i n j
  move_cases g i n j h = elim (update_cases g n (some i) (update tmp none d.names)) [
    | inl (e, q) ↦ inl (sym e, cc (h, q))
    | inr (e, q) ↦ elim (update_cases tmp n none d.names) [
      | inl (e', q') ↦ absurd (cc (h, q, q'))
      | inr (e', q') ↦ inr (λ a. e' (sym a), sym q' ∙ sym q ∙ h)
    ]
  ]

  pub create_cases : (n : Text) (j : ℕ) → (create tmp d).names n ≡ some j → Created d tmp n j
  create_cases n j h = elim (update_cases tmp n (some d.next) d.names) [
    | inl (e, q) ↦ inl (sym e, cc (h, q))
    | inr (e, q) ↦ inr (sym q ∙ h)
  ]

  pub unlink_cases : (n : Text) (j : ℕ) → (unlink tmp d).names n ≡ some j → d.names n ≡ some j
  unlink_cases n j h = elim (update_cases tmp n none d.names) [
    | inl (e, q) ↦ absurd (ground (arith, h, q))
    | inr (e, q) ↦ sym q ∙ h
  ]

module _ (d : Disk) (tree : IsTree d) (tmp : Text) where
  module _ (i : ℕ) (held : d.names tmp ≡ some i) where
    pub put_inode-IsTree : (file : Bytes) → IsTree (put_inode i file d)
    put_inode-IsTree file = record { fresh = tree.fresh; exclusive = tree.exclusive }

    pub put_inode-Frame : (file : Bytes) (t : Text) → t ≢ tmp → Frame t d (put_inode i file d)
    put_inode-Frame file t ne = record {
      name = refl;
      content = λ j h.
          update_other i j file d.inodes
            (λ e. ne (tree.exclusive t tmp i (h ∙ ap some (sym e)) held));
    }

    pub move-IsTree : (g : Text) → IsTree (move tmp g i d)
    move-IsTree g = record {
      fresh = λ n j h. fresh n j (move_cases d tmp g i n j h);
      exclusive = λ n m j h k. same n m j (move_cases d tmp g i n j h) (move_cases d tmp g i m j k);
    }
      where
        fresh : (n : Text) (j : ℕ) → Moved d tmp g i n j → j < d.next
        fresh n j (inl (e, q)) = omega (arith, q, tree.fresh tmp i held)
        fresh n j (inr (e, h)) = tree.fresh n j h

        same : (n m : Text) (j : ℕ) → Moved d tmp g i n j → Moved d tmp g i m j → n ≡ m
        same n m j (inl (e, q)) (inl (e', q')) = e ∙ sym e'
        same n m j (inl (e, q)) (inr (e', h)) =
            absurd (e' (tree.exclusive m tmp j h (held ∙ ap some (sym q))))
        same n m j (inr (e, h)) (inl (e', q)) =
            absurd (e (tree.exclusive n tmp j h (held ∙ ap some (sym q))))
        same n m j (inr (e, h)) (inr (e', h')) = tree.exclusive n m j h h'

    pub move-Frame : (g t : Text) → t ≢ tmp → t ≢ g → Frame t d (move tmp g i d)
    move-Frame g t ne other = record {
      name =
          update_other g t (some i) (update tmp none d.names) (λ e. other (sym e))
          ∙ update_other tmp t none d.names (λ e. ne (sym e));
      content = λ j h. refl;
    }

  pub unlink-IsTree : IsTree (unlink tmp d)
  unlink-IsTree = record {
    fresh = λ n j h. tree.fresh n j (unlink_cases d tmp n j h);
    exclusive =
        λ n m j h k. tree.exclusive n m j (unlink_cases d tmp n j h) (unlink_cases d tmp m j k);
  }

  pub unlink-Frame : (t : Text) → t ≢ tmp → Frame t d (unlink tmp d)
  unlink-Frame t ne = record {
    name = update_other tmp t none d.names (λ e. ne (sym e));
    content = λ j h. refl;
  }

  pub create-IsTree : IsTree (create tmp d)
  create-IsTree = record {
    fresh = λ n j h. fresh n j (create_cases d tmp n j h);
    exclusive = λ n m j h k. same n m j (create_cases d tmp n j h) (create_cases d tmp m j k);
  }
    where
      fresh : (n : Text) (j : ℕ) → Created d tmp n j → j < suc d.next
      fresh n j (inl (e, q)) = omega (arith, q)
      fresh n j (inr h) = omega (arith, tree.fresh n j h)

      same : (n m : Text) (j : ℕ) → Created d tmp n j → Created d tmp m j → n ≡ m
      same n m j (inl (e, q)) (inl (e', q')) = e ∙ sym e'
      same n m j (inl (e, q)) (inr h) = absurd (omega (arith, q, tree.fresh m j h))
      same n m j (inr h) (inl (e, q)) = absurd (omega (arith, q, tree.fresh n j h))
      same n m j (inr h) (inr k) = tree.exclusive n m j h k

  pub create-Frame : (t : Text) → t ≢ tmp → Frame t d (create tmp d)
  create-Frame t ne = record {
    name = update_other tmp t (some d.next) d.names (λ e. ne (sym e));
    content = λ j h. update_other d.next j [] d.inodes (λ e. omega (arith, e, tree.fresh t j h));
  }

module _ {H : Type 0} (b3 : Blake3 H) (hex : Hex) where
  -- Besides, every file but temporary ones stands under the hash of its content.
  pub record IsDirectory (d : Disk) : Type 0 where
    pub tree : IsTree d
    pub verified :
        (n : Text) (i : ℕ) → d.names n ≡ some i → IsPartial n ⊎ (chunk_hash b3 hex (d.inodes i) ≡ n)

  module _ (d : Disk) (dir : IsDirectory d) (g : Text) where
    pub put_inode-IsDirectory :
        (i : ℕ) → d.names (partial g) ≡ some i → (file : Bytes) → IsDirectory (put_inode i file d)
    put_inode-IsDirectory i held file = record {
      tree = put_inode-IsTree d dir.tree (partial g) i held file;
      verified = λ n j h. elim (update_cases i j file d.inodes) [
        | inl (e, q) ↦ inl (g, dir.tree.exclusive n (partial g) i (h ∙ ap some (sym e)) held)
        | inr (e, q) ↦ elim (dir.verified n j h) [
          | inl p ↦ inl p
          | inr v ↦ inr (ap (chunk_hash b3 hex) q ∙ v)
        ]
      ];
    }

    pub move-IsDirectory :
        (i : ℕ)
        → d.names (partial g) ≡ some i
        → chunk_hash b3 hex (d.inodes i) ≡ g
        → IsDirectory (move (partial g) g i d)
    move-IsDirectory i held hashed = record {
      tree = move-IsTree d dir.tree (partial g) i held g;
      verified = λ n j h. elim (move_cases d (partial g) g i n j h) [
        | inl (e, q) ↦ inr (ap (λ x. chunk_hash b3 hex (d.inodes x)) q ∙ hashed ∙ sym e)
        | inr (e, k) ↦ dir.verified n j k
      ];
    }

    pub unlink-IsDirectory : IsDirectory (unlink (partial g) d)
    unlink-IsDirectory = record {
      tree = unlink-IsTree d dir.tree (partial g);
      verified = λ n j h. dir.verified n j (unlink_cases d (partial g) n j h);
    }

    pub create-IsDirectory : IsDirectory (create (partial g) d)
    create-IsDirectory = record {
      tree = create-IsTree d dir.tree (partial g);
      verified = λ n j h. elim (create_cases d (partial g) n j h) [
        | inl (e, q) ↦ inl (g, e)
        | inr k ↦ elim (dir.verified n j k) [
          | inl p ↦ inl p
          | inr v ↦ inr (
              ap (chunk_hash b3 hex)
                (update_other d.next j [] d.inodes (λ e. omega (arith, e, dir.tree.fresh n j k)))
              ∙ v)
        ]
      ];
    }
