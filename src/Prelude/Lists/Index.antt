-- ===== src/Prelude/Lists/Index.antt =====
-- Elements of a list by position.
use Prim.Native.Nat.{ℕ, zero, suc, ◌+◌, ◌<◌, ◌≤◌}
use mathlib.Core.Path.{◌≡◌, refl, ap, ap₂}
use mathlib.Core.List.{List, [], ◌∷◌, ◌++◌}
use mathlib.Core.Option.{none, some}
use native.Mathlib.Omega.{arith}
use furcate_mesh.Prelude.Lists.{length, get_elem?, take, drop}

module _ {ℓ} {A : Type ℓ} where
  pub get_elem?-ge : (xs : List A) (i : ℕ) → length xs ≤ i → get_elem? xs i ≡ none
  get_elem?-ge [] i h = refl
  get_elem?-ge (x ∷ xs) zero h = elim h [ ]
  get_elem?-ge (x ∷ xs) (suc i) h = get_elem?-ge xs i (omega arith)

  pub lt_of_get_elem? : (xs : List A) (i : ℕ) (x : A) → get_elem? xs i ≡ some x → i < length xs
  lt_of_get_elem? [] i x h = cc
  lt_of_get_elem? (y ∷ xs) zero x h = omega arith
  lt_of_get_elem? (y ∷ xs) (suc i) x h = omega (arith, lt_of_get_elem? xs i x h)

  pub get_elem?-lt : (xs : List A) (i : ℕ) → i < length xs → (x : A) × (get_elem? xs i ≡ some x)
  get_elem?-lt [] i h = elim h [ ]
  get_elem?-lt (x ∷ xs) zero h = (x, refl)
  get_elem?-lt (x ∷ xs) (suc i) h = get_elem?-lt xs i (omega arith)

  pub get_elem?-append_left :
      (xs ys : List A) (i : ℕ) → i < length xs → get_elem? (xs ++ ys) i ≡ get_elem? xs i
  get_elem?-append_left [] ys i h = elim h [ ]
  get_elem?-append_left (x ∷ xs) ys zero h = refl
  get_elem?-append_left (x ∷ xs) ys (suc i) h = get_elem?-append_left xs ys i (omega arith)

  pub get_elem?-append_right :
      (xs ys : List A) (i : ℕ) → get_elem? (xs ++ ys) (length xs + i) ≡ get_elem? ys i
  get_elem?-append_right [] ys i = ap (get_elem? ys) (omega arith)
  get_elem?-append_right (x ∷ xs) ys i =
      let e : suc (length xs) + i ≡ suc (length xs + i) = omega arith in
      rw e (get_elem?-append_right xs ys i)

  pub get_elem?-take :
      (n : ℕ) (xs : List A) (i : ℕ) → i < n → get_elem? (take n xs) i ≡ get_elem? xs i
  get_elem?-take zero xs i h = elim h [ ]
  get_elem?-take (suc n) [] i h = refl
  get_elem?-take (suc n) (x ∷ xs) zero h = refl
  get_elem?-take (suc n) (x ∷ xs) (suc i) h = get_elem?-take n xs i (omega arith)

  pub get_elem?-drop :
      (n : ℕ) (xs : List A) (i : ℕ) → get_elem? (drop n xs) i ≡ get_elem? xs (n + i)
  get_elem?-drop zero xs i = ap (get_elem? xs) (omega arith)
  get_elem?-drop (suc n) [] i = refl
  get_elem?-drop (suc n) (x ∷ xs) i =
      let e : suc n + i ≡ suc (n + i) = omega arith in rw e (get_elem?-drop n xs i)

  drop-nil : (m : ℕ) → drop {A = A} m [] ≡ []
  drop-nil zero = refl
  drop-nil (suc m) = refl

  pub drop-drop : (m n : ℕ) (xs : List A) → drop m (drop n xs) ≡ drop (n + m) xs
  drop-drop m zero xs = ap (λ k. drop k xs) (omega arith)
  drop-drop m (suc n) [] = let e : suc n + m ≡ suc (n + m) = omega arith in rw e (drop-nil m)
  drop-drop m (suc n) (x ∷ xs) =
      let e : suc n + m ≡ suc (n + m) = omega arith in rw e (drop-drop m n xs)

  -- Lists with the same elements at each position are equal.
  pub list_ext :
      (xs ys : List A)
      → length xs ≤ length ys
      → ((i : ℕ) → i < length ys → get_elem? xs i ≡ get_elem? ys i)
      → xs ≡ ys
  list_ext [] [] l h = refl
  list_ext [] (y ∷ ys) l h = cc (h 0 (omega arith))
  list_ext (x ∷ xs) [] l h = elim l [ ]
  list_ext (x ∷ xs) (y ∷ ys) l h =
      ap₂ ◌∷◌ (ground (arith, h 0 (omega arith)))
        (list_ext xs ys (omega arith) (λ i k. h (suc i) (omega arith)))
