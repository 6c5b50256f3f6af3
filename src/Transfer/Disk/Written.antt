-- ===== src/Transfer/Disk/Written.antt =====
-- The bytes of a file after `write_at`.
use furcate_mesh.Prelude.{
  ℕ, zero, suc, ◌+◌, ◌-◌, ◌<◌, ◌≤◌, ◌≡◌, refl, sym, ap, ◌∙◌, [], ◌∷◌, ◌++◌, append_assoc, length,
  get_elem?, take, drop, replicate, arith, length-append,
}
use furcate_mesh.Prelude.Lists.{length-take, length-drop}
use furcate_mesh.Prelude.Lists.Index.{
  get_elem?-append_left, get_elem?-append_right, get_elem?-take, get_elem?-drop,
}
use furcate_mesh.Prelude.Text.{Bytes}
use furcate_mesh.Transfer.Disk.{write_at}

length-replicate : (n b : ℕ) → length (replicate n b) ≡ n
length-replicate zero b = omega arith
length-replicate (suc n) b = omega (arith, length-replicate n b)

-- what stands before the written bytes
before : Bytes → ℕ → Bytes
before file offset = take offset file ++ replicate (offset - length file) 0

length-before : (file : Bytes) (offset : ℕ) → length (before file offset) ≡ offset
unfolding before
length-before file offset = omega (
  arith,
  length-append (take offset file) (replicate (offset - length file) 0),
  length-take offset file,
  length-replicate (offset - length file) 0,
)

write_at-before :
    (file : Bytes) (offset b : ℕ) (bs : Bytes)
    → write_at file offset (b ∷ bs)
      ≡ before file offset ++ ((b ∷ bs) ++ drop (offset + length (b ∷ bs)) file)
unfolding write_at before
write_at-before file offset b bs =
    sym (append_assoc (take offset file) (replicate (offset - length file) 0) _)

-- at a position given as an offset into the second of two pieces
get_elem?-behind :
    (xs ys : Bytes) (n i : ℕ)
    → length xs ≡ n
    → n ≤ i
    → get_elem? (xs ++ ys) i ≡ get_elem? ys (i - n)
get_elem?-behind xs ys n i h l =
    ap (get_elem? (xs ++ ys)) (omega arith) ∙ get_elem?-append_right xs ys (i - n)

get_elem?-before :
    (file : Bytes) (offset i : ℕ)
    → i < offset
    → i < length file
    → get_elem? (before file offset) i ≡ get_elem? file i
unfolding before
get_elem?-before file offset i h l =
    get_elem?-append_left (take offset file) _ i (omega (arith, length-take offset file))
    ∙ get_elem?-take offset file i h

pub get_elem?-write_at_before :
    (file : Bytes) (offset : ℕ) (d : Bytes) (i : ℕ)
    → i < offset
    → i < length file
    → get_elem? (write_at file offset d) i ≡ get_elem? file i
get_elem?-write_at_before file offset [] i h l = unfold write_at in refl
get_elem?-write_at_before file offset (b ∷ bs) i h l = rw (write_at-before file offset b bs) (
    get_elem?-append_left (before file offset) _ i (omega (arith, length-before file offset))
    ∙ get_elem?-before file offset i h l)

pub get_elem?-write_at_in :
    (file : Bytes) (offset : ℕ) (d : Bytes) (i : ℕ)
    → offset ≤ i
    → i < offset + length d
    → get_elem? (write_at file offset d) i ≡ get_elem? d (i - offset)
get_elem?-write_at_in file offset [] i h l = absurd (omega arith)
get_elem?-write_at_in file offset (b ∷ bs) i h l = rw (write_at-before file offset b bs) (
    get_elem?-behind (before file offset) _ offset i (length-before file offset) h
    ∙ get_elem?-append_left (b ∷ bs) _ (i - offset) (omega arith))

pub get_elem?-write_at_after :
    (file : Bytes) (offset : ℕ) (d : Bytes) (i : ℕ)
    → offset + length d ≤ i
    → get_elem? (write_at file offset d) i ≡ get_elem? file i
get_elem?-write_at_after file offset [] i h = unfold write_at in refl
get_elem?-write_at_after file offset (b ∷ bs) i h = rw (write_at-before file offset b bs) (
    get_elem?-behind (before file offset) _ offset i (length-before file offset) (omega arith)
    ∙ get_elem?-behind (b ∷ bs) _ (length (b ∷ bs)) (i - offset) refl (omega arith)
    ∙ get_elem?-drop (offset + length (b ∷ bs)) file (i - offset - length (b ∷ bs))
    ∙ ap (get_elem? file) (omega arith))

pub length-write_at :
    (file : Bytes) (offset : ℕ) (d : Bytes) (n : ℕ)
    → length file ≤ n
    → offset + length d ≤ n
    → length (write_at file offset d) ≤ n
length-write_at file offset [] n h l = unfold write_at in h
length-write_at file offset (b ∷ bs) n h l = rw (write_at-before file offset b bs) (
    omega (
      arith,
      length-append (before file offset) ((b ∷ bs) ++ drop (offset + length (b ∷ bs)) file),
      length-append (b ∷ bs) (drop (offset + length (b ∷ bs)) file),
      length-before file offset,
      length-drop (offset + length (b ∷ bs)) file,
    ))
