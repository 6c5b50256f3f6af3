-- ===== src/Prelude/Text/Order.antt =====
-- The lexicographic order of byte strings is a total order.
use Prim.Native.Nat.{ℕ, Ordering}
use mathlib.Core.Path.{◌≡◌, refl}
use mathlib.Core.Logic.{◌≢◌}
use mathlib.Core.List.{List, [], ◌∷◌}
use native.Mathlib.Omega.{arith}
use furcate_mesh.Prelude.Text.{bytes_cmp}

abbrev pub reverse : Ordering → Ordering
reverse Ordering.lt = Ordering.gt
reverse Ordering.eq = Ordering.eq
reverse Ordering.gt = Ordering.lt

pub bytes_cmp_refl : (xs : List ℕ) → bytes_cmp xs xs ≡ Ordering.eq
unfolding bytes_cmp
bytes_cmp_refl [] = refl
bytes_cmp_refl (x ∷ xs) = ground (arith, bytes_cmp_refl xs)

pub eq_of_bytes_cmp : (xs ys : List ℕ) → bytes_cmp xs ys ≡ Ordering.eq → xs ≡ ys
unfolding bytes_cmp
eq_of_bytes_cmp [] [] h = refl
eq_of_bytes_cmp [] (y ∷ ys) h = cc
eq_of_bytes_cmp (x ∷ xs) [] h = cc
eq_of_bytes_cmp (x ∷ xs) (y ∷ ys) h = ground (arith, eq_of_bytes_cmp xs ys)

pub bytes_cmp_swap : (xs ys : List ℕ) → bytes_cmp ys xs ≡ reverse (bytes_cmp xs ys)
unfolding bytes_cmp
bytes_cmp_swap [] [] = refl
bytes_cmp_swap [] (y ∷ ys) = refl
bytes_cmp_swap (x ∷ xs) [] = refl
bytes_cmp_swap (x ∷ xs) (y ∷ ys) = ground (arith, bytes_cmp_swap xs ys)

pub bytes_cmp_trans :
    (xs ys zs : List ℕ)
    → bytes_cmp xs ys ≢ Ordering.gt
    → bytes_cmp ys zs ≢ Ordering.gt
    → bytes_cmp xs zs ≢ Ordering.gt
unfolding bytes_cmp
bytes_cmp_trans [] ys [] h k = cc
bytes_cmp_trans [] ys (z ∷ zs) h k = cc
bytes_cmp_trans (x ∷ xs) [] zs h k = absurd (h refl)
bytes_cmp_trans (x ∷ xs) (y ∷ ys) [] h k = absurd (k refl)
bytes_cmp_trans (x ∷ xs) (y ∷ ys) (z ∷ zs) h k = ground (arith, bytes_cmp_trans xs ys zs)

pub bytes_cmp_lt_trans :
    (xs ys zs : List ℕ)
    → bytes_cmp xs ys ≡ Ordering.lt
    → bytes_cmp ys zs ≡ Ordering.lt
    → bytes_cmp xs zs ≡ Ordering.lt
unfolding bytes_cmp
bytes_cmp_lt_trans [] ys [] h k = ground (arith, bytes_cmp_swap [] ys)
bytes_cmp_lt_trans [] ys (z ∷ zs) h k = refl
bytes_cmp_lt_trans (x ∷ xs) [] zs h k = cc
bytes_cmp_lt_trans (x ∷ xs) (y ∷ ys) [] h k = cc
bytes_cmp_lt_trans (x ∷ xs) (y ∷ ys) (z ∷ zs) h k = ground (arith, bytes_cmp_lt_trans xs ys zs)
