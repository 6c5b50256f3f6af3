-- ===== src/Transport/Matching.antt =====
-- The key expressions of Zenoh, to which crates/furcate-mesh-transport leaves the matching of keys.
-- Zenoh is not part of the repository: what its documentation promises of the keys and expressions
-- that are used here is the record `IsKeyMatching`.
use furcate_mesh.Prelude.{
  ℕ, ◌≡◌, ◌≢◌, refl, Bool, true, false, ◌||◌, ◌&&◌, List, [], ◌∷◌, ◌++◌, arith, any, All, ◌==◌,
  if◌then◌else◌, ◌⊎◌,
}
use furcate_mesh.Prelude.Text.{Text, codes, text_eq}

-- a character in front of the first chunk
abbrev pub in_front : ℕ → List Text → List Text
in_front c [] = (c ∷ []) ∷ []
in_front c (w ∷ ws) = (c ∷ w) ∷ ws

-- the chunks between slashes
abbrev pub chunks : Text → List Text
chunks [] = [] ∷ []
chunks (c ∷ s) = if c == b'/' then [] ∷ chunks s else in_front c (chunks s)

abbrev pub wild : Text
wild = codes "*"

abbrev pub double_wild : Text
double_wild = codes "**"

-- what is left of a list after some of its first elements
abbrev pub tails : List Text → List (List Text)
tails [] = [] ∷ []
tails (k ∷ ks) = (k ∷ ks) ∷ tails ks

-- `*` stands for one chunk, `**` for any number of chunks, any other chunk for itself.
unfoldable pub glob : (expr key : List Text) → Bool
glob [] [] = true
glob [] (k ∷ ks) = false
glob (e ∷ es) ks =
    if text_eq e double_wild
    then any (λ rest. glob es rest) (tails ks)
    else elim ks [ [] ↦ false | k ∷ rest ↦ (text_eq e wild || text_eq e k) && glob es rest ]

-- A chunk that is not empty, has no character that is reserved, and does not begin with the `@` of
-- verbatim chunks.
abbrev pub reserved : ℕ → Bool
reserved c = c == b'*' || c == b'$' || c == b'?' || c == b'#'

abbrev pub IsPlain : Text → Type 0
IsPlain [] = ⊥
IsPlain (c ∷ w) = (c ≢ b'@') × (any reserved (c ∷ w) ≡ false)

-- the keys and the expressions of which the law speaks
abbrev pub IsKey : Text → Type 0
IsKey key = All IsPlain (chunks key)

abbrev pub IsKeyExpr : Text → Type 0
IsKeyExpr expr = All (λ w. IsPlain w ⊎ (w ≡ wild) ⊎ (w ≡ double_wild)) (chunks expr)

pub record IsKeyMatching (matches : (expr key : Text) → Bool) : Type 0 where
  pub matches-glob :
      (expr key : Text)
      → IsKeyExpr expr
      → IsKey key
      → matches expr key ≡ glob (chunks expr) (chunks key)

pub chunks-append :
    (w s : Text) → any (λ c. c == b'/') w ≡ false → chunks (w ++ b'/' ∷ s) ≡ w ∷ chunks s
chunks-append [] s h = refl
chunks-append (c ∷ w) s h = ground (arith, chunks-append w s)
