-- ===== src/Prelude/Text.antt =====
-- Byte strings, and Rust's `str` as its UTF-8 bytes: equality, the derived order, ASCII case.
pub mod Order
pub mod Decimal
use Prim.Native.Nat.{ℕ, ◌+◌, ◌≤◌, ◌<◌, compare, Ordering}
use Prim.Native.Char.{code}
use Prim.Native.String.{String}
use mathlib.Core.Path.{◌≡◌, refl, ap, ap₂}
use mathlib.Core.Logic.{◌↔◌}
use mathlib.Core.Bool.{Bool, true, false, ◌&&◌}
use mathlib.Core.List.{List, [], ◌∷◌, map}
use native.Mathlib.Omega.{arith}
use furcate_mesh.Prelude.Tests.{leb, ◌==◌, ==_iff, if◌then◌else◌}
use furcate_mesh.Prelude.Lists.{All, any}

abbrev pub Bytes : Type 0
Bytes = List ℕ

-- A `str` or `String`: its UTF-8 bytes.
abbrev pub Text : Type 0
Text = List ℕ

abbrev pub codes : String → Text
codes String.[] = []
codes (String.◌∷◌ c s) = code c ∷ codes s

abbrev pub IsByte : ℕ → Type 0
IsByte b = b < 256

-- `==` on slices and strings
unfoldable pub text_eq : List ℕ → List ℕ → Bool
text_eq [] [] = true
text_eq [] (y ∷ ys) = false
text_eq (x ∷ xs) [] = false
text_eq (x ∷ xs) (y ∷ ys) = (x == y) && text_eq xs ys

pub text_eq_sound : (xs ys : List ℕ) → text_eq xs ys ≡ true → xs ≡ ys
unfolding text_eq
text_eq_sound [] [] h = refl
text_eq_sound [] (y ∷ ys) h = cc
text_eq_sound (x ∷ xs) [] h = cc
text_eq_sound (x ∷ xs) (y ∷ ys) h = ground (arith, text_eq_sound xs ys)

pub text_eq_refl : (xs : List ℕ) → text_eq xs xs ≡ true
unfolding text_eq
text_eq_refl [] = refl
text_eq_refl (x ∷ xs) = ground (arith, text_eq_refl xs)

pub text_eq_iff : (xs ys : List ℕ) → (text_eq xs ys ≡ true) ↔ (xs ≡ ys)
text_eq_iff xs ys = (text_eq_sound xs ys, λ e. rw e (text_eq_refl ys))

-- `Ordering::then_with`
abbrev pub then_with : Ordering → Ordering → Ordering
then_with Ordering.lt o = Ordering.lt
then_with Ordering.eq o = o
then_with Ordering.gt o = Ordering.gt

-- `Ord` of slices and arrays: lexicographic
unfoldable pub bytes_cmp : List ℕ → List ℕ → Ordering
bytes_cmp [] [] = Ordering.eq
bytes_cmp [] (y ∷ ys) = Ordering.lt
bytes_cmp (x ∷ xs) [] = Ordering.gt
bytes_cmp (x ∷ xs) (y ∷ ys) = then_with (compare x y) (bytes_cmp xs ys)

-- `char::is_ascii_uppercase`; the bytes of a longer UTF-8 sequence are 128 and above
abbrev pub is_ascii_uppercase : ℕ → Bool
is_ascii_uppercase c = leb b'A' c && leb c b'Z'

-- `u8::to_ascii_lowercase`
unfoldable pub to_ascii_lowercase : ℕ → ℕ
to_ascii_lowercase c = if is_ascii_uppercase c then c + 32 else c

pub lowercase_of_no_uppercase :
    (s : Text) → any is_ascii_uppercase s ≡ false → map to_ascii_lowercase s ≡ s
unfolding to_ascii_lowercase
lowercase_of_no_uppercase [] h = refl
lowercase_of_no_uppercase (c ∷ s) h = ground (arith, lowercase_of_no_uppercase s)
