-- ===== src/Transfer/Concurrent/View.antt =====
-- The directory as the map of names to contents that the sequential model keeps.
use furcate_mesh.Prelude.{
  ℕ, ◌≡◌, ◌≢◌, inl, inr, refl, sym, ap, ◌∙◌, Option, none, some, [], Option-cases, Bool-cases,
}
use furcate_mesh.Prelude.Text.{Bytes, Text, text_eq, text_eq_iff}
use furcate_mesh.Prelude.Equality.{
  text_eq_instance, nat_eq_instance, update, update_same, update_other,
}
use furcate_mesh.Prelude.Dict.{get, insert, remove, get-insert, get-remove}
use furcate_mesh.Transfer.Pull.{Cache}
use furcate_mesh.Transfer.Concurrent.{Disk, put_inode, create, unlink, move}
use furcate_mesh.Transfer.Concurrent.Directory.{
  Frame, IsTree, put_inode-IsTree, put_inode-Frame, move-IsTree, unlink-IsTree, unlink-Frame,
  create-IsTree, create-Frame,
}

abbrev pub file_at : Disk → Text → Option Bytes
file_at d n = elim (d.names n) [ none ↦ none | some i ↦ some (d.inodes i) ]

pub record Represents (d : Disk) (m : Cache) : Type 0 where
  pub tree : IsTree d
  pub files : (n : Text) → file_at d n ≡ get n m

pub file_at-some :
    (d : Disk) (n : Text) (i : ℕ) → d.names n ≡ some i → file_at d n ≡ some (d.inodes i)
file_at-some d n i h = rw (file_at, h) refl

file_at-none : (d : Disk) (n : Text) → d.names n ≡ none → file_at d n ≡ none
file_at-none d n h = rw (file_at, h) refl

pub name-of_file :
    (d : Disk) (n : Text) (c : Bytes)
    → file_at d n ≡ some c
    → (i : ℕ) × (d.names n ≡ some i) × (d.inodes i ≡ c)
name-of_file d n c h = elim (Option-cases (d.names n)) [
  | inl q ↦ absurd (cc (h, file_at-none d n q))
  | inr (i, q) ↦ (i, q, cc (h, file_at-some d n i q))
]

pub no_name-of_file : (d : Disk) (n : Text) → file_at d n ≡ none → d.names n ≡ none
no_name-of_file d n h = elim (Option-cases (d.names n)) [
  | inl q ↦ q
  | inr (i, q) ↦ absurd (cc (h, file_at-some d n i q))
]

file_at-Frame : (d e : Disk) (t : Text) → Frame t d e → file_at e t ≡ file_at d t
file_at-Frame d e t f = elim (Option-cases (d.names t)) [
  | inl q ↦ file_at-none e t (f.name ∙ q) ∙ sym (file_at-none d t q)
  | inr (i, q) ↦
      file_at-some e t i (f.name ∙ q) ∙ ap some (f.content i q) ∙ sym (file_at-some d t i q)
]

-- a change of one file
module _ (d e : Disk) (m : Cache) (tmp : Text) (rep : Represents d m) (tree : IsTree e)
    (frame : (t : Text) → t ≢ tmp → Frame t d e) where
  pub Represents-insert : (c : Bytes) → file_at e tmp ≡ some c → Represents e (insert tmp c m)
  Represents-insert c h = record {
    tree = tree;
    files = λ n. elim (Bool-cases (text_eq tmp n)) [
      | inl q ↦
          rw (get-insert tmp n c m) (rw q (ap (file_at e) (sym ((text_eq_iff tmp n).0 q)) ∙ h))
      | inr q ↦ rw (get-insert tmp n c m) (
          rw q (
            file_at-Frame d e n (frame n (λ a. cc (q, (text_eq_iff tmp n).1 (sym a))))
            ∙ rep.files n))
    ];
  }

  pub Represents-remove : file_at e tmp ≡ none → Represents e (remove tmp m)
  Represents-remove h = record {
    tree = tree;
    files = λ n. elim (Bool-cases (text_eq tmp n)) [
      | inl q ↦ rw (get-remove tmp n m) (rw q (ap (file_at e) (sym ((text_eq_iff tmp n).0 q)) ∙ h))
      | inr q ↦ rw (get-remove tmp n m) (
          rw q (
            file_at-Frame d e n (frame n (λ a. cc (q, (text_eq_iff tmp n).1 (sym a))))
            ∙ rep.files n))
    ];
  }

module _ (d : Disk) (m : Cache) (rep : Represents d m) (tmp : Text) where
  pub Represents-put_inode :
      (i : ℕ) (file : Bytes)
      → d.names tmp ≡ some i
      → Represents (put_inode i file d) (insert tmp file m)
  Represents-put_inode i file held =
      Represents-insert d (put_inode i file d) m tmp rep
        (put_inode-IsTree d rep.tree tmp i held file) (put_inode-Frame d rep.tree tmp i held file)
        file (file_at-some (put_inode i file d) tmp i held ∙ ap some (update_same i file d.inodes))

  pub Represents-create : Represents (create tmp d) (insert tmp [] m)
  Represents-create =
      Represents-insert d (create tmp d) m tmp rep (create-IsTree d rep.tree tmp)
        (create-Frame d rep.tree tmp) []
        (file_at-some (create tmp d) tmp d.next (update_same tmp (some d.next) d.names)
          ∙ ap some (update_same d.next [] d.inodes))

  pub Represents-unlink : Represents (unlink tmp d) (remove tmp m)
  Represents-unlink =
      Represents-remove d (unlink tmp d) m tmp rep (unlink-IsTree d rep.tree tmp)
        (unlink-Frame d rep.tree tmp) (rw (file_at, update_same tmp none d.names) refl)

  pub Represents-move :
      (i : ℕ) (g : Text)
      → d.names tmp ≡ some i
      → Represents (move tmp g i d) (insert g (d.inodes i) (remove tmp m))
  Represents-move i g held =
      Represents-insert (unlink tmp d) (move tmp g i d) (remove tmp m) g Represents-unlink
        (move-IsTree d rep.tree tmp i held g)
        (λ t ne. record {
          name = update_other g t (some i) (update tmp none d.names) (λ e. ne (sym e));
          content = λ j h. refl;
        })
        (d.inodes i)
        (file_at-some (move tmp g i d) g i (update_same g (some i) (update tmp none d.names)))
