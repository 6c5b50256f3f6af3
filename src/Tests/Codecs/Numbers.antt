-- ===== src/Tests/Codecs/Numbers.antt =====
-- A stand-in for f64 with the laws that are asked of it.
use furcate_mesh.Prelude.{ℕ, ◌≡◌, ◌≢◌, ◌⊎◌, refl, Ordering, Option, none, some, arith, compare}
use furcate_mesh.Core.Float.{Float, IsIeee, reverse}

-- Whole numbers, and `none` for NaN.
abbrev pub whole_cmp : Option ℕ → Option ℕ → Option Ordering
whole_cmp (some a) (some b) = some (compare a b)
whole_cmp _ _ = none

abbrev pub whole : Float (Option ℕ)
whole = record { partial_cmp = whole_cmp; max_value = some 1000000 }

pub whole-IsIeee : IsIeee whole
whole-IsIeee = record {
  max_value-IsNumber = refl;
  compares = compares;
  nan_compares = nan_compares;
  number_or_nan = number_or_nan;
  antisymmetric = antisymmetric;
  lt_trans = lt_trans;
  eq_left = eq_left;
}
  where
    compares :
        (x y : Option ℕ)
        → whole_cmp x x ≡ some Ordering.eq
        → whole_cmp y y ≡ some Ordering.eq
        → whole_cmp x y ≢ none
    compares x y h k = ground arith

    nan_compares : (x y : Option ℕ) → whole_cmp x x ≡ none → whole_cmp x y ≡ none
    nan_compares x y h = ground arith

    number_or_nan : (x : Option ℕ) → (whole_cmp x x ≡ some Ordering.eq) ⊎ (whole_cmp x x ≡ none)
    number_or_nan x = ground arith

    antisymmetric :
        (x y : Option ℕ) (o : Ordering) → whole_cmp x y ≡ some o → whole_cmp y x ≡ some (reverse o)
    antisymmetric x y o h = ground arith

    lt_trans :
        (x y z : Option ℕ)
        → whole_cmp x y ≡ some Ordering.lt
        → whole_cmp y z ≡ some Ordering.lt
        → whole_cmp x z ≡ some Ordering.lt
    lt_trans x y z h k = ground arith

    eq_left : (x y z : Option ℕ) → whole_cmp x y ≡ some Ordering.eq → whole_cmp x z ≡ whole_cmp y z
    eq_left x y z h = ground arith
