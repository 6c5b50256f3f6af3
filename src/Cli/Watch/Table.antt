-- ===== src/Cli/Watch/Table.antt =====
-- The table at the end of a window, against the last item about each key.
use furcate_mesh.Prelude.{
  ℕ, suc, ◌-◌, ◌≡◌, ◌↔◌, refl, sym, ◌∙◌, inl, inr, Option, none, some, List, [], ◌∷◌, Member, ◌==◌,
  Option-cases, Bool-cases,
}
use furcate_mesh.Prelude.SortedMap.{Ord, lookup, IsSorted}
use furcate_mesh.Prelude.SortedMap.Entries.{insert-IsSorted, Member_iff_lookup}
use furcate_mesh.Cli.Watch.{watch}
use furcate_mesh.Cli.Watch.Latest.{
  heard, note, notes, or_else, latest, IsLatest, lookup-notes, latest-IsLatest, latest_of_IsLatest,
}

-- `reads` is the key and the content of an item that the loop takes, and `stamp` adds what is read
-- from the wall clock at its turn.
module _ {A K W V : Type 0} ⦃o : Ord K⦄ (reads : A → Option (K × W)) (stamp : ℕ → W → V) where
  watch-notes :
      (clock : ℕ → ℕ) (deadline i : ℕ) (xs : List A) (seen : List (K × V))
      → watch (note reads stamp) clock deadline i xs seen
        ≡ notes reads stamp i (heard clock deadline i xs) seen
  unfolding watch notes
  watch-notes clock deadline i [] seen = refl
  watch-notes clock deadline i (x ∷ xs) seen = elim (Bool-cases (deadline - clock i == 0)) [
    | inl e ↦ rw e refl
    | inr e ↦ rw e (watch-notes clock deadline (suc i) xs (note reads stamp i x seen))
  ]

  note-IsSorted :
      (i : ℕ) (x : A) (seen : List (K × V)) → IsSorted seen → IsSorted (note reads stamp i x seen)
  note-IsSorted i x seen h = elim (Option-cases (reads x)) [
    | inl e ↦ rw (note, e) h
    | inr ((k, w), e) ↦ rw (note, e) (insert-IsSorted k (stamp i w) seen h)
  ]

  notes-IsSorted :
      (i : ℕ) (xs : List A) (seen : List (K × V))
      → IsSorted seen
      → IsSorted (notes reads stamp i xs seen)
  unfolding notes
  notes-IsSorted i [] seen h = h
  notes-IsSorted i (x ∷ xs) seen h =
      notes-IsSorted (suc i) xs (note reads stamp i x seen) (note-IsSorted i x seen h)

  or_else-none : (a : Option V) → or_else reads stamp a none ≡ a
  unfolding or_else
  or_else-none none = refl
  or_else-none (some v) = refl

  lookup-latest :
      (k : K) (ys : List A) → lookup k (notes reads stamp 0 ys []) ≡ latest reads stamp 0 k ys
  unfolding lookup
  lookup-latest k ys = lookup-notes reads stamp 0 k ys [] ∙ or_else-none (latest reads stamp 0 k ys)

  notes_lem :
      (ys : List A)
      → IsSorted (notes reads stamp 0 ys [])
        × ((k : K) (v : V)
            → (Member (k, v) (notes reads stamp 0 ys [])) ↔ IsLatest reads stamp 0 k v ys)
  notes_lem ys =
      let sorted = notes-IsSorted 0 ys [] tt in
      (
        sorted,
        λ k v. (
          λ m. latest-IsLatest reads stamp 0 k v ys (
              sym (lookup-latest k ys)
              ∙ (Member_iff_lookup k v (notes reads stamp 0 ys []) sorted).0 m),
          λ l.
              (Member_iff_lookup k v (notes reads stamp 0 ys []) sorted).1
                (lookup-latest k ys ∙ latest_of_IsLatest reads stamp 0 k v ys l),
        ),
      )

  -- At the end of a window the table is sorted by its keys, and its entries are those of the last
  -- items about each key.
  pub watch_lem :
      (clock : ℕ → ℕ) (deadline : ℕ) (xs : List A)
      → IsSorted (watch (note reads stamp) clock deadline 0 xs [])
        × ((k : K) (v : V)
            → (Member (k, v) (watch (note reads stamp) clock deadline 0 xs []))
              ↔ IsLatest reads stamp 0 k v (heard clock deadline 0 xs))
  watch_lem clock deadline xs =
      rw (watch-notes clock deadline 0 xs []) (notes_lem (heard clock deadline 0 xs))
