-- ===== src/Transfer/Concurrent/Invariant.antt =====
-- What each step of a pull keeps of the directory, of the pull itself and of the others.
use furcate_mesh.Prelude.{
  ℕ, ◌≤◌, ◌≡◌, ◌≢◌, ◌⊎◌, inl, inr, refl, sym, ap, ◌∙◌, none, some, [], ◌∷◌, ◌++◌, append-nil,
  append_assoc, length, take, drop, arith, ok, err,
}
use furcate_mesh.Prelude.Lists.{take-append-drop, length-append}
use furcate_mesh.Prelude.Text.{Bytes, Text}
use furcate_mesh.Prelude.Equality.{text_eq_instance, nat_eq_instance, update, update_same}
use furcate_mesh.Core.Hex.{Hex}
use furcate_mesh.Transfer.{Blake3, HeaderCodec, chunk_hash}
use furcate_mesh.Transfer.Disk.{write_at, read_len}
use furcate_mesh.Transfer.Pull.{partial}
use furcate_mesh.Transfer.Concurrent.{
  Disk, Phase, waiting, missed, receiving, received, reading, checked, leaving, returned, Act, hits,
  misses, opens_new, opens_old, receives, refuses, breaks, gives_up, lands, settles, closes,
  reopens, reads, verifies, rejects, renames, fails,
}
use furcate_mesh.Transfer.Concurrent.Directory.{
  Frame, Frame-refl, IsDirectory, put_inode-IsDirectory, put_inode-Frame, move-IsDirectory,
  move-Frame, unlink-IsDirectory, unlink-Frame, create-IsDirectory, create-Frame,
}
use furcate_mesh.Transfer.Concurrent.Gone.{
  IsGone, put_inode-IsGone, create-IsGone, unlink-IsGone, move-IsGone, IsGone-unlink, gone-Frame,
  gone-IsDirectory,
}

-- What has been read is the beginning of the file.
abbrev pub IsPrefix : Bytes → Bytes → Type 0
IsPrefix read file = (rest : Bytes) × (read ++ rest ≡ file)

pub drop-append : (xs ys : Bytes) → drop (length xs) (xs ++ ys) ≡ ys
drop-append [] ys = refl
drop-append (x ∷ xs) ys = drop-append xs ys

IsPrefix-take :
    (k : ℕ) (read file : Bytes)
    → IsPrefix read file
    → IsPrefix (read ++ take (read_len k (drop (length read) file)) (drop (length read) file)) file
IsPrefix-take k read file (rest, e) =
    let n = read_len k rest in
    let behind : drop (length read) file ≡ rest =
      ap (drop (length read)) (sym e) ∙ drop-append read rest in
    rw behind (
      drop n rest,
      append_assoc read (take n rest) (drop n rest)
          ∙ ap (λ x. read ++ x) (take-append-drop n rest)
          ∙ e,
    )

eq_of_IsPrefix : (read file : Bytes) → IsPrefix read file → length file ≤ length read → read ≡ file
eq_of_IsPrefix read file ([], e) h = sym (append-nil read) ∙ e
eq_of_IsPrefix read file (b ∷ rest, e) h =
    absurd (omega (arith, h, ap length e, length-append read (b ∷ rest)))

module _ {H : Type 0} (b3 : Blake3 H) (hex : Hex) (codec : HeaderCodec) where
  -- What the directory holds for a pull that has come to a phase.
  abbrev pub IsPhase : Text → Disk → Phase → Type 0
  IsPhase g d (receiving i got_any got_last) = d.names (partial g) ≡ some i
  IsPhase g d (reading i read) = (d.names (partial g) ≡ some i) × IsPrefix read (d.inodes i)
  IsPhase g d checked = (i : ℕ) → d.names (partial g) ≡ some i → chunk_hash b3 hex (d.inodes i) ≡ g
  IsPhase g d (leaving i e) = (d.names (partial g) ≡ some i) ⊎ IsGone i d
  IsPhase g d (returned (ok name)) = (name ≡ g) × ((i : ℕ) × (d.names g ≡ some i))
  IsPhase g d _ = Unit

  -- A change that keeps both names of a pull keeps its phase.
  pub Frame-IsPhase :
      (g : Text) (d e : Disk) (ph : Phase)
      → Frame (partial g) d e
      → Frame g d e
      → ((i : ℕ) → IsGone i d → IsGone i e)
      → IsPhase g d ph
      → IsPhase g e ph
  Frame-IsPhase g d e waiting t f k h = tt
  Frame-IsPhase g d e missed t f k h = tt
  Frame-IsPhase g d e (receiving i got_any got_last) t f k h = t.name ∙ h
  Frame-IsPhase g d e received t f k h = tt
  Frame-IsPhase g d e (reading i read) t f k (h, (rest, q)) =
      (t.name ∙ h, (rest, q ∙ sym (t.content i h)))
  Frame-IsPhase g d e checked t f k h =
      λ i q. let held = sym t.name ∙ q in ap (chunk_hash b3 hex) (t.content i held) ∙ h i held
  Frame-IsPhase g d e (leaving i x) t f k (inl h) = inl (t.name ∙ h)
  Frame-IsPhase g d e (leaving i x) t f k (inr h) = inr (k i h)
  Frame-IsPhase g d e (returned (ok name)) t f k (same, (i, q)) = (same, (i, f.name ∙ q))
  Frame-IsPhase g d e (returned (err x)) t f k h = tt

  -- What a step of the pull of `g` keeps.
  pub record Keeps (g : Text) (d e : Disk) (ph : Phase) : Type 0 where
    pub directory : IsDirectory b3 hex e
    pub own : IsPhase g e ph
    pub others : (t : Text) → t ≢ partial g → t ≢ g → Frame t d e
    pub gone : (i : ℕ) → IsGone i d → IsGone i e

  pub Act-Keeps :
      (g : Text) (d e : Disk) (ph next : Phase)
      → IsDirectory b3 hex d
      → IsPhase g d ph
      → Act b3 hex codec g d ph e next
      → Keeps g d e next
  Act-Keeps g _ _ _ _ dir h (hits d i q) = record {
    directory = dir;
    own = (refl, (i, q));
    others = λ t a b. Frame-refl t d;
    gone = λ k x. x;
  }
  Act-Keeps g _ _ _ _ dir h (misses d q) = record {
    directory = dir;
    own = tt;
    others = λ t a b. Frame-refl t d;
    gone = λ k x. x;
  }
  Act-Keeps g _ _ _ _ dir h (opens_new d q) = record {
    directory = create-IsDirectory b3 hex d dir g;
    own = update_same (partial g) (some d.next) d.names;
    others = λ t a b. create-Frame d dir.tree (partial g) t a;
    gone = λ k x. create-IsGone d k (partial g) x;
  }
  Act-Keeps g _ _ _ _ dir h (opens_old d i q) = record {
    directory = put_inode-IsDirectory b3 hex d dir g i q [];
    own = q;
    others = λ t a b. put_inode-Frame d dir.tree (partial g) i q [] t a;
    gone = λ k x. put_inode-IsGone d k i [] x;
  }
  Act-Keeps g _ _ _ _ dir h (receives d i got_any got_last r header payload q) =
      let file = write_at (d.inodes i) header.offset payload in
      record {
        directory = put_inode-IsDirectory b3 hex d dir g i h file;
        own = h;
        others = λ t a b. put_inode-Frame d dir.tree (partial g) i h file t a;
        gone = λ k x. put_inode-IsGone d k i file x;
      }
  Act-Keeps g _ _ _ _ dir h (refuses d i got_any got_last r e q) = record {
    directory = dir;
    own = inl h;
    others = λ t a b. Frame-refl t d;
    gone = λ k x. x;
  }
  Act-Keeps g _ _ _ _ dir h (breaks d i got_any got_last e) = record {
    directory = dir;
    own = inl h;
    others = λ t a b. Frame-refl t d;
    gone = λ k x. x;
  }
  Act-Keeps g _ _ _ _ dir (inl h) (lands d i e file) = record {
    directory = put_inode-IsDirectory b3 hex d dir g i h file;
    own = tt;
    others = λ t a b. put_inode-Frame d dir.tree (partial g) i h file t a;
    gone = λ k x. put_inode-IsGone d k i file x;
  }
  Act-Keeps g _ _ _ _ dir (inr h) (lands d i e file) = record {
    directory = gone-IsDirectory d i file h b3 hex dir;
    own = tt;
    others = λ t a b. gone-Frame d i file h t;
    gone = λ k x. put_inode-IsGone d k i file x;
  }
  Act-Keeps g _ _ _ _ dir h (settles d i e) = record {
    directory = dir;
    own = tt;
    others = λ t a b. Frame-refl t d;
    gone = λ k x. x;
  }
  Act-Keeps g _ _ _ _ dir h (gives_up d i got_any got_last e q) = record {
    directory = unlink-IsDirectory b3 hex d dir g;
    own = inr (IsGone-unlink d i (partial g) dir.tree h);
    others = λ t a b. unlink-Frame d dir.tree (partial g) t a;
    gone = λ k x. unlink-IsGone d k (partial g) x;
  }
  Act-Keeps g _ _ _ _ dir h (closes d i) = record {
    directory = dir;
    own = tt;
    others = λ t a b. Frame-refl t d;
    gone = λ k x. x;
  }
  Act-Keeps g _ _ _ _ dir h (reopens d i q) = record {
    directory = dir;
    own = (q, (d.inodes i, refl));
    others = λ t a b. Frame-refl t d;
    gone = λ k x. x;
  }
  Act-Keeps g _ _ _ _ dir h (reads d i k read) = record {
    directory = dir;
    own = (h.0, IsPrefix-take k read (d.inodes i) h.1);
    others = λ t a b. Frame-refl t d;
    gone = λ k x. x;
  }
  Act-Keeps g _ _ _ _ dir h (verifies d i read whole q) = record {
    directory = dir;
    own = λ j k. cc (h.0, k, q, eq_of_IsPrefix read (d.inodes i) h.1 whole);
    others = λ t a b. Frame-refl t d;
    gone = λ k x. x;
  }
  Act-Keeps g _ _ _ _ dir h (rejects d i read whole q) = record {
    directory = unlink-IsDirectory b3 hex d dir g;
    own = tt;
    others = λ t a b. unlink-Frame d dir.tree (partial g) t a;
    gone = λ k x. unlink-IsGone d k (partial g) x;
  }
  Act-Keeps g _ _ _ _ dir h (renames d i q) = record {
    directory = move-IsDirectory b3 hex d dir g i q (h i q);
    own = (refl, (i, update_same g (some i) (update (partial g) none d.names)));
    others = λ t a b. move-Frame d dir.tree (partial g) i q g t a b;
    gone = λ k x. move-IsGone d k i (partial g) g q x;
  }
  Act-Keeps g _ _ _ _ dir h (fails d ph e q) = record {
    directory = dir;
    own = tt;
    others = λ t a b. Frame-refl t d;
    gone = λ k x. x;
  }
