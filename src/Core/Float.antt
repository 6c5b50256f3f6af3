-- ===== src/Core/Float.antt =====
-- `f64`: any type with the two things that the code uses of it, the partial comparison and
-- `f64::MAX`. NaN is a value that is not comparable with itself.
use furcate_mesh.Prelude.{◌≡◌, ◌≢◌, Ordering, Option, none, some, ◌⊎◌}

pub record Float (F : Type 0) : Type 0 where
  pub partial_cmp : F → F → Option Ordering
  pub max_value : F

abbrev pub reverse : Ordering → Ordering
reverse Ordering.lt = Ordering.gt
reverse Ordering.eq = Ordering.eq
reverse Ordering.gt = Ordering.lt

module _ {F : Type 0} (f : Float F) where
  -- not NaN
  abbrev pub IsNumber : F → Type 0
  IsNumber x = f.partial_cmp x x ≡ some Ordering.eq

  -- IEEE 754: away from NaN the comparison is a total preorder, and NaN compares with nothing.
  pub record IsIeee : Type 0 where
    pub max_value-IsNumber : IsNumber f.max_value
    pub compares : (x y : F) → IsNumber x → IsNumber y → f.partial_cmp x y ≢ none
    pub nan_compares : (x y : F) → f.partial_cmp x x ≡ none → f.partial_cmp x y ≡ none
    pub number_or_nan :
        (x : F) → (f.partial_cmp x x ≡ some Ordering.eq) ⊎ (f.partial_cmp x x ≡ none)
    pub antisymmetric :
        (x y : F) (o : Ordering) → f.partial_cmp x y ≡ some o → f.partial_cmp y x ≡ some (reverse o)
    pub lt_trans :
        (x y z : F)
        → f.partial_cmp x y ≡ some Ordering.lt
        → f.partial_cmp y z ≡ some Ordering.lt
        → f.partial_cmp x z ≡ some Ordering.lt
    -- values that compare as equal compare alike with every other
    pub eq_left :
        (x y z : F) → f.partial_cmp x y ≡ some Ordering.eq → f.partial_cmp x z ≡ f.partial_cmp y z
