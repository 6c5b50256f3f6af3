-- ===== src/Prelude/Lists.antt =====
-- Lists measured, cut and searched by native numbers and Boolean tests, under the library's names.
pub mod Index
use Prim.Native.Nat.{ℕ, zero, suc, ◌+◌, ◌-◌, ◌<◌, ◌≤◌, min}
use mathlib.Core.Path.{◌≡◌, refl, ap, sym, subst}
use mathlib.Core.Logic.{◌⊎◌, inl, inr}
use mathlib.Core.Bool.{Bool, true, false, ◌&&◌, ◌||◌}
use mathlib.Core.List.{List, [], ◌∷◌, ◌++◌, map}
use mathlib.Core.Option.{Option, none, some}
use mathlib.Core.WellFounded.{Acc, WellFounded}
use native.Mathlib.Omega.{arith}
use furcate_mesh.Prelude.Tests.{if◌then◌else◌, Bool-cases}

module _ {ℓ} {A : Type ℓ} where
  abbrev pub length : List A → ℕ
  length [] = 0
  length (x ∷ xs) = suc (length xs)

  abbrev pub get_elem? : List A → ℕ → Option A
  get_elem? [] i = none
  get_elem? (x ∷ xs) zero = some x
  get_elem? (x ∷ xs) (suc i) = get_elem? xs i

  abbrev pub take : ℕ → List A → List A
  take zero xs = []
  take (suc n) [] = []
  take (suc n) (x ∷ xs) = x ∷ take n xs

  abbrev pub drop : ℕ → List A → List A
  drop zero xs = xs
  drop (suc n) [] = []
  drop (suc n) (x ∷ xs) = drop n xs

  abbrev pub replicate : ℕ → A → List A
  replicate zero a = []
  replicate (suc n) a = a ∷ replicate n a

  -- `iter().any(p)`
  abbrev pub any : (A → Bool) → List A → Bool
  any p [] = false
  any p (x ∷ xs) = p x || any p xs

  -- `iter().filter(p)`
  abbrev pub filter : (A → Bool) → List A → List A
  filter p [] = []
  filter p (x ∷ xs) = let rest = filter p xs in if p x then x ∷ rest else rest

  abbrev pub All {κ} : (A → Type κ) → List A → Type κ
  All P [] = Unit
  All P (x ∷ xs) = P x × All P xs

module _ {ℓ} {A : Type ℓ} where
  pub length-append : (xs ys : List A) → length (xs ++ ys) ≡ length xs + length ys
  length-append [] ys = omega arith
  length-append (x ∷ xs) ys = omega (arith, length-append xs ys)

  pub take-append-drop : (n : ℕ) (xs : List A) → take n xs ++ drop n xs ≡ xs
  take-append-drop zero xs = refl
  take-append-drop (suc n) [] = refl
  take-append-drop (suc n) (x ∷ xs) = ap (◌∷◌ x) (take-append-drop n xs)

  pub length-take : (n : ℕ) (xs : List A) → length (take n xs) ≡ min n (length xs)
  length-take zero xs = omega arith
  length-take (suc n) [] = omega arith
  length-take (suc n) (x ∷ xs) = omega (arith, length-take n xs)

  pub length-drop : (n : ℕ) (xs : List A) → length (drop n xs) ≡ length xs - n
  length-drop zero xs = omega arith
  length-drop (suc n) [] = omega arith
  length-drop (suc n) (x ∷ xs) = omega (arith, length-drop n xs)

  pub All-append {κ} : (P : A → Type κ) (xs ys : List A) → All P xs → All P ys → All P (xs ++ ys)
  All-append P [] ys _ hy = hy
  All-append P (x ∷ xs) ys (px, hx) hy = (px, All-append P xs ys hx hy)

  -- The order of recursion for a loop that consumes its input.
  abbrev pub Shorter : List A → List A → Type 0
  Shorter a b = length a < length b

  acc_below : (k : ℕ) (l : List A) → length l < k → Acc Shorter l
  acc_below zero l h = elim h [ ]
  acc_below (suc k) l h = Acc.intro l λ m shorter. acc_below k m (omega arith)

  unfoldable pub Shorter-wf : WellFounded Shorter
  unfolding acc_below
  Shorter-wf = record { apply = λ l. acc_below (suc (length l)) l (omega arith) }

-- Membership, with the place where the element stands.
module _ {A : Type 0} where
  abbrev pub Member : A → List A → Type 0
  Member x [] = ⊥
  Member x (y ∷ ys) = (x ≡ y) ⊎ Member x ys

  pub All-Member : (P : A → Type 0) (x : A) (xs : List A) → All P xs → Member x xs → P x
  All-Member P x [] h m = absurd m
  All-Member P x (y ∷ ys) (hy, hs) (inl e) = subst P (sym e) hy
  All-Member P x (y ∷ ys) (hy, hs) (inr m) = All-Member P x ys hs m

  pub All-of_Member : (P : A → Type 0) (xs : List A) → ((x : A) → Member x xs → P x) → All P xs
  All-of_Member P [] h = tt
  All-of_Member P (x ∷ xs) h = (h x (inl refl), All-of_Member P xs (λ y m. h y (inr m)))

  -- what a filter keeps
  pub filter-Member :
      (p : A → Bool) (x : A) (xs : List A) → Member x (filter p xs) → Member x xs × (p x ≡ true)
  filter-Member p x [] m = absurd m
  filter-Member p x (y ∷ ys) m = elim (Bool-cases (p y)) [
    | inl e ↦ kept (filter-Member p x ys) e (rw e at m)
    | inr e ↦ let (n, q) = filter-Member p x ys (rw e at m) in (inr n, q)
  ]
    where
      kept :
          (Member x (filter p ys) → Member x ys × (p x ≡ true))
          → p y ≡ true
          → Member x (y ∷ filter p ys)
          → Member x (y ∷ ys) × (p x ≡ true)
      kept ih e (inl q) = (inl q, rw q e)
      kept ih e (inr n) = let (k, q) = ih n in (inr k, q)

  pub Member-filter :
      (p : A → Bool) (x : A) (xs : List A) → Member x xs → p x ≡ true → Member x (filter p xs)
  Member-filter p x [] m h = absurd m
  Member-filter p x (y ∷ ys) (inl e) h = rw (← e, h) (inl refl)
  Member-filter p x (y ∷ ys) (inr m) h = elim (Bool-cases (p y)) [
    | inl e ↦ rw e (inr (Member-filter p x ys m h))
    | inr e ↦ rw e (Member-filter p x ys m h)
  ]

module _ {A B : Type 0} where
  pub Member-map : (f : A → B) (x : A) (xs : List A) → Member x xs → Member (f x) (map f xs)
  Member-map f x [] m = absurd m
  Member-map f x (y ∷ ys) (inl e) = inl (ap f e)
  Member-map f x (y ∷ ys) (inr m) = inr (Member-map f x ys m)

  pub map-Member :
      (f : A → B) (b : B) (xs : List A) → Member b (map f xs) → (x : A) × Member x xs × (b ≡ f x)
  map-Member f b [] m = absurd m
  map-Member f b (y ∷ ys) (inl e) = (y, inl refl, e)
  map-Member f b (y ∷ ys) (inr m) = let (x, n, e) = map-Member f b ys m in (x, inr n, e)
