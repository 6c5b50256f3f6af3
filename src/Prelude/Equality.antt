-- ===== src/Prelude/Equality.antt =====
-- Types whose keys the code compares by `==`.
use mathlib.Core.Path.{◌≡◌}
use mathlib.Core.Logic.{◌↔◌}
use mathlib.Core.Bool.{Bool, true}
use mathlib.Core.List.{List}
use Prim.Native.Nat.{ℕ}
use furcate_mesh.Prelude.Tests.{◌==◌, ==_iff, if◌then◌else◌, Bool-cases}
use mathlib.Core.Logic.{◌≢◌, ◌⊎◌, inl, inr}
use native.Mathlib.Omega.{arith}
use furcate_mesh.Prelude.Text.{text_eq, text_eq_iff}

pub record Eq {ℓ} (Key : Type ℓ) : Type ℓ where
  pub same : (x y : Key) → Bool
  pub same_iff : (x y : Key) → (same x y ≡ true) ↔ (x ≡ y)

instance abbrev pub text_eq_instance : Eq (List ℕ)
text_eq_instance = record { same_iff = text_eq_iff; same = text_eq }

instance abbrev pub nat_eq_instance : Eq ℕ
nat_eq_instance = record { same = ◌==◌; same_iff = ==_iff }

-- a function changed at one place
module _ {ℓ κ} {K : Type ℓ} {A : Type κ} ⦃e : Eq K⦄ where
  abbrev pub update : K → A → (K → A) → K → A
  update k a f = λ j. if e.same k j then a else f j

  pub update_same : (k : K) (a : A) (f : K → A) → update k a f k ≡ a
  update_same k a f = ground (arith, e.same_iff k k)

  pub update_other : (k j : K) (a : A) (f : K → A) → k ≢ j → update k a f j ≡ f j
  update_other k j a f h = ground (arith, e.same_iff k j)

  -- where a function is changed, and what it is elsewhere
  pub update_cases :
      (k j : K) (a : A) (f : K → A)
      → ((k ≡ j) × (update k a f j ≡ a)) ⊎ ((k ≢ j) × (update k a f j ≡ f j))
  update_cases k j a f = elim (Bool-cases (e.same k j)) [
    | inl h ↦ inl ((e.same_iff k j).0 h, ground (arith, h))
    | inr h ↦ inr (λ q. ground (arith, h, (e.same_iff k j).1 q), ground (arith, h))
  ]
