-- ===== src/Cli/Watch/Printed.antt =====
-- The text that `peers_list` and `model_list` print, written out.
use furcate_mesh.Prelude.{
  ℕ, ◌/◌, ◌≡◌, refl, ap, Option, none, some, List, [], ◌∷◌, ◌++◌, map, Member, Member-map, Ordering,
  All, sym, ◌∙◌, arith, inr,
}
use furcate_mesh.Prelude.Text.{Text, codes, bytes_cmp}
use furcate_mesh.Prelude.SortedMap.{Ord, Before, IsSorted}
use furcate_mesh.Prelude.Text.Decimal.{decimal}
use furcate_mesh.Core.Hex.{Hex}
use furcate_mesh.Core.PeerId.{PeerId, display, to_hex}
use furcate_mesh.Cli.Watch.{
  Peers, Models, model_ord, peers_heading, models_heading, peer_row, model_row, print_peers,
  print_models,
}

-- A table: one line that says that there is nothing, or a heading and a line for each entry.
abbrev pub table : {A : Type 0} → (nothing heading : Text) → (A → Text) → List A → List Text
table nothing heading line [] = nothing ∷ []
table nothing heading line (entry ∷ entries) = heading ∷ map line (entry ∷ entries)

-- The entries stand in the ascending order of their keys, each key once.
abbrev pub Ascending : {K V : Type 0} → (K → K → Ordering) → List (K × V) → Type 0
Ascending cmp [] = Unit
Ascending cmp (e ∷ entries) = All (λ d. cmp e.0 d.0 ≡ Ordering.lt) entries × Ascending cmp entries

-- ids by their bytes, and models by the id of their peer and then by their name
abbrev pub id_order : PeerId → PeerId → Ordering
id_order p q = bytes_cmp p.key q.key

abbrev pub model_order : PeerId × Text → PeerId × Text → Ordering
model_order p q = elim (bytes_cmp p.0.key q.0.key) [
  | Ordering.lt ↦ Ordering.lt
  | Ordering.eq ↦ bytes_cmp p.1 q.1
  | Ordering.gt ↦ Ordering.gt
]

module _ {K V : Type 0} ⦃o : Ord K⦄ (cmp : K → K → Ordering)
    (same : (j k : K) → o.cmp j k ≡ cmp j k) where
  behind :
      (e : K × V) (ds : List (K × V))
      → All (Before e.0) ds
      → All (λ d. cmp e.0 d.0 ≡ Ordering.lt) ds
  behind e [] h = tt
  behind e (d ∷ ds) h = (sym (same e.0 d.0) ∙ h.0, behind e ds h.1)

  pub Ascending-of_IsSorted : (entries : List (K × V)) → IsSorted entries → Ascending cmp entries
  Ascending-of_IsSorted [] h = tt
  Ascending-of_IsSorted (e ∷ entries) h = (behind e entries h.0, Ascending-of_IsSorted entries h.1)

pub model_order_lem : (p q : PeerId × Text) → model_ord.cmp p q ≡ model_order p q
model_order_lem p q = ground arith

-- full seconds of a time in milliseconds, zero where the clock fails
abbrev pub seconds : Option ℕ → ℕ
seconds none = 0
seconds (some ms) = ms / 1000

module _ (hex : Hex) where
  -- `<id>  <load>  <seconds>`
  abbrev pub peer_line : {F : Type 0} → (F → Text) → PeerId × (F × ℕ) → Text
  peer_line two_decimals (who, (load, secs)) =
      hex.encode who.key ++ (codes "  " ++ (two_decimals load ++ (codes "  " ++ decimal secs)))

  abbrev pub peers_table : {F : Type 0} → (F → Text) → (for_secs : ℕ) → Peers F → List Text
  peers_table two_decimals for_secs seen =
      table (codes "(no peers seen in " ++ (decimal for_secs ++ codes "s)"))
        (codes "PEER                                                             LOAD  LAST_SEEN")
        (peer_line two_decimals) seen

  -- `<id>  <model>  <format>  <digest>`
  abbrev pub model_line : (PeerId × Text) × (Text × Text) → Text
  model_line ((who, name), (digest, format)) =
      hex.encode who.key
      ++ (codes "  " ++ (name ++ (codes "  " ++ (format ++ (codes "  " ++ digest)))))

  abbrev pub models_table : (for_secs : ℕ) → Models → List Text
  models_table for_secs seen =
      table (codes "(no model announcements in " ++ (decimal for_secs ++ codes "s)"))
        (codes "PEER  MODEL  FORMAT  DIGEST") model_line seen

  map_rows :
      {A : Type 0} (f g : A → Text) → ((x : A) → f x ≡ g x) → (xs : List A) → map f xs ≡ map g xs
  map_rows f g h [] = refl
  map_rows f g h (x ∷ xs) = rw (h x) (ap (λ ys. g x ∷ ys) (map_rows f g h xs))

  peer_row_lem :
      {F : Type 0} (two_decimals : F → Text) (entry : PeerId × (F × ℕ))
      → peer_row hex two_decimals entry ≡ peer_line two_decimals entry
  unfolding peer_row display to_hex
  peer_row_lem two_decimals (who, (load, secs)) = refl

  model_row_lem : (entry : (PeerId × Text) × (Text × Text)) → model_row hex entry ≡ model_line entry
  unfolding model_row display to_hex
  model_row_lem ((who, name), (digest, format)) = refl

  pub print_peers_lem :
      {F : Type 0} (two_decimals : F → Text) (for_secs : ℕ) (seen : Peers F)
      → print_peers hex two_decimals for_secs seen ≡ peers_table two_decimals for_secs seen
  unfolding print_peers
  print_peers_lem two_decimals for_secs [] = refl
  print_peers_lem two_decimals for_secs (entry ∷ entries) =
      ap (λ rows. peers_heading ∷ rows)
        (map_rows (peer_row hex two_decimals) (peer_line two_decimals) (peer_row_lem two_decimals)
          (entry ∷ entries))

  pub print_models_lem :
      (for_secs : ℕ) (seen : Models) → print_models hex for_secs seen ≡ models_table for_secs seen
  unfolding print_models
  print_models_lem for_secs [] = refl
  print_models_lem for_secs (entry ∷ entries) =
      ap (λ rows. models_heading ∷ rows)
        (map_rows (model_row hex) model_line model_row_lem (entry ∷ entries))

-- the line of an entry is printed
pub Member-table :
    {A : Type 0} (nothing heading : Text) (line : A → Text) (entry : A) (entries : List A)
    → Member entry entries
    → Member (line entry) (table nothing heading line entries)
Member-table nothing heading line entry [] m = absurd m
Member-table nothing heading line entry (e ∷ entries) m =
    inr (Member-map line entry (e ∷ entries) m)
