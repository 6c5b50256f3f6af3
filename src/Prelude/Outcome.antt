-- ===== src/Prelude/Outcome.antt =====
-- Rust's `Result<A, E>`, its `?` operator as bind, and `map_err`.
use mathlib.Core.Path.{◌≡◌, refl}
use mathlib.Core.Logic.{◌⊎◌, inl, inr}
use mathlib.Core.Option.{Option, none, some}

pub data Result {ℓ κ} (E : Type ℓ) (A : Type κ) : Type (ℓ ⊔ κ) where
  ok : A → Result E A
  err : E → Result E A

-- `?`: the first error is the answer.
module _ {ℓ κ} {E : Type ℓ} {T : Type κ} where
  infixl 5 ◌>>=◌ ◌>>◌
  abbrev pub ◌>>=◌ {μ} : {S : Type μ} → Result E S → (S → Result E T) → Result E T
  err problem >>= next = err problem
  ok value >>= next = next value

  -- a step that is done for its effect alone
  abbrev pub ◌>>◌ : Result E (Unit {0}) → Result E T → Result E T
  err problem >> next = err problem
  ok _ >> next = next

-- `o.ok_or(e)`
abbrev pub ok_or {ℓ κ} : {E : Type ℓ} {A : Type κ} → Option A → E → Result E A
ok_or none e = err e
ok_or (some a) e = ok a

-- `r.map_err(f)`
abbrev pub map_err {ℓ κ μ} :
    {E : Type ℓ} {F : Type κ} {A : Type μ} → (E → F) → Result E A → Result F A
map_err f (ok a) = ok a
map_err f (err e) = err (f e)

-- `r.ok()`
abbrev pub to_option {ℓ κ} : {E : Type ℓ} {A : Type κ} → Result E A → Option A
to_option (ok a) = some a
to_option (err e) = none

pub Result-cases {ℓ κ} :
    {E : Type ℓ} {A : Type κ} (r : Result E A) → ((e : E) × (r ≡ err e)) ⊎ ((a : A) × (r ≡ ok a))
Result-cases (ok a) = inr (a, refl)
Result-cases (err e) = inl (e, refl)
