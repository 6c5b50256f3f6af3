-- ===== src/Prelude/Text/Decimal.antt =====
-- `{}` of an unsigned integer, of at most 20 digits as a u64 is.
use Prim.Native.Nat.{ℕ, zero, suc, ◌+◌, ◌-◌, ◌*◌, ◌/◌, ◌%◌, ◌^◌, ◌<◌}
use mathlib.Core.Path.{◌≡◌, refl, ◌∙◌}
use mathlib.Core.Logic.{inl, inr}
use native.Mathlib.Omega.{arith}
use native.Mathlib.Nat.{pow-suc}
use mathlib.Core.Bool.{true, false}
use mathlib.Core.List.{[], ◌∷◌, ◌++◌}
use furcate_mesh.Prelude.Tests.{ltb, Bool-cases}
use furcate_mesh.Prelude.Text.{Text}

unfoldable pub digits : (fuel n : ℕ) → Text
digits zero n = []
digits (suc fuel) n = elim (ltb n 10) [
  | true ↦ (n + b'0') ∷ []
  | false ↦ digits fuel (n / 10) ++ (n % 10 + b'0') ∷ []
]

unfoldable pub decimal : ℕ → Text
unfolding digits
decimal n = digits 20 n

-- the number that some digits stand for, behind a number already read
value : ℕ → Text → ℕ
value n [] = n
value n (c ∷ s) = value (n * 10 + (c - b'0')) s

value-append : (n c : ℕ) (s : Text) → value n (s ++ c ∷ []) ≡ value n s * 10 + (c - b'0')
unfolding value
value-append n c [] = refl
value-append n c (d ∷ s) = value-append (n * 10 + (d - b'0')) c s

value-digits : (fuel n : ℕ) → n < 10 ^ fuel → value 0 (digits fuel n) ≡ n
unfolding digits value
value-digits zero n h = omega (arith, h)
value-digits (suc fuel) n h = elim (Bool-cases (ltb n 10)) [
  | inl q ↦ rw (digits, q) (omega arith)
  | inr q ↦
      let front = value-digits fuel (n / 10) (omega (arith, h, pow-suc 10 fuel)) in
      rw (digits, q) (value-append 0 (n % 10 + b'0') (digits fuel (n / 10)) ∙ omega (arith, front))
]

-- Twenty digits are enough for a u64.
value-decimal : (n : ℕ) → n < 2 ^ 64 → value 0 (decimal n) ≡ n
unfolding decimal
value-decimal n h = value-digits 20 n (omega (arith, h))
