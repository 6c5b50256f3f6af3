-- ===== src/Cli/Watch/Latest.antt =====
-- What the table holds at the end of a window.
use furcate_mesh.Prelude.{
  ℕ, suc, ◌+◌, ◌-◌, ◌≡◌, ◌≢◌, refl, sym, ap, ◌∙◌, inl, inr, Ordering, Option, none, some, List, [],
  ◌∷◌, ◌++◌, arith, length, All, All-Member, Member, ◌==◌, Option-cases, if◌then◌else◌,
}
use furcate_mesh.Prelude.SortedMap.{Ord, lookup, insert}
use furcate_mesh.Prelude.SortedMap.Entries.{lookup-insert}

-- the items of the turns before the deadline
abbrev pub heard : {A : Type 0} → (clock : ℕ → ℕ) (deadline i : ℕ) → List A → List A
heard clock deadline i [] = []
heard clock deadline i (x ∷ xs) =
    let rest = heard clock deadline (suc i) xs in if deadline - clock i == 0 then [] else x ∷ rest

-- `reads` is the key and the content of an item that the loop takes, and `stamp` adds what is read
-- from the wall clock at its turn.
module _ {A K W V : Type 0} ⦃o : Ord K⦄ (reads : A → Option (K × W)) (stamp : ℕ → W → V) where
  abbrev pub note : ℕ → A → List (K × V) → List (K × V)
  note i x seen = elim (reads x) [ none ↦ seen | some (k, w) ↦ insert k (stamp i w) seen ]

  unfoldable pub notes : ℕ → List A → List (K × V) → List (K × V)
  notes i [] seen = seen
  notes i (x ∷ xs) seen = notes (suc i) xs (note i x seen)

  -- what an item says of a key
  pub said : ℕ → K → A → Option V
  said i k x = elim (reads x) [
    | none ↦ none
    | some (j, w) ↦ elim (o.cmp k j) [ Ordering.eq ↦ some (stamp i w) | _ ↦ none ]
  ]

  unfoldable pub or_else : Option V → Option V → Option V
  or_else none d = d
  or_else (some v) d = some v

  pub latest : ℕ → K → List A → Option V
  latest i k [] = none
  latest i k (x ∷ xs) = or_else (latest (suc i) k xs) (said i k x)

  lookup-note :
      (i : ℕ) (k : K) (x : A) (seen : List (K × V))
      → lookup k (note i x seen) ≡ or_else (said i k x) (lookup k seen)
  unfolding said or_else
  lookup-note i k x seen = elim (Option-cases (reads x)) [
    | inl e ↦ rw (note, said, e) refl
    | inr ((j, w), e) ↦ ground (arith, e, lookup-insert j k (stamp i w) seen)
  ]

  pub lookup-notes :
      (i : ℕ) (k : K) (xs : List A) (seen : List (K × V))
      → lookup k (notes i xs seen) ≡ or_else (latest i k xs) (lookup k seen)
  unfolding notes latest or_else
  lookup-notes i k [] seen = refl
  lookup-notes i k (x ∷ xs) seen =
      ground (arith, lookup-notes (suc i) k xs (note i x seen), lookup-note i k x seen)

  abbrev pub Silent : K → A → Type 0
  Silent k x = (w : W) → reads x ≢ some (k, w)

  -- the value is that of the last item about the key
  pub record IsLatest (i : ℕ) (k : K) (v : V) (xs : List A) : Type 0 where
    pub before : List A
    pub item : A
    pub after : List A
    pub content : W
    pub splits : xs ≡ before ++ item ∷ after
    pub read : reads item ≡ some (k, content)
    pub value : v ≡ stamp (i + length before) content
    pub silent : All (Silent k) after

  said-none : (i : ℕ) (k : K) (x : A) → said i k x ≡ none → Silent k x
  unfolding said
  said-none i k x h w e = ground (arith, h, e, o.cmp_refl k)

  said-some :
      (i : ℕ) (k : K) (v : V) (x : A)
      → said i k x ≡ some v
      → (w : W) × (reads x ≡ some (k, w)) × (v ≡ stamp i w)
  unfolding said
  said-some i k v x h = elim (Option-cases (reads x)) [
    | inl e ↦ absurd (ground (arith, h, e))
    | inr ((j, w), e) ↦ (w, ground (arith, h, e, o.eq_of_cmp k j), ground (arith, h, e))
  ]

  Silent-none : (i : ℕ) (k : K) (x : A) → Silent k x → said i k x ≡ none
  unfolding said
  Silent-none i k x h = elim (Option-cases (reads x)) [
    | inl e ↦ rw (said, e) refl
    | inr ((j, w), e) ↦ ground (arith, e, o.eq_of_cmp k j, h w)
  ]

  latest-none : (i : ℕ) (k : K) (xs : List A) → latest i k xs ≡ none → All (Silent k) xs
  unfolding latest or_else
  latest-none i k [] h = tt
  latest-none i k (x ∷ xs) h = elim (Option-cases (latest (suc i) k xs)) [
    | inl e ↦ (said-none i k x (ground (arith, h, e)), latest-none (suc i) k xs e)
    | inr (v, e) ↦ absurd (ground (arith, h, e))
  ]

  Silent-latest : (i : ℕ) (k : K) (xs : List A) → All (Silent k) xs → latest i k xs ≡ none
  unfolding latest or_else
  Silent-latest i k [] h = refl
  Silent-latest i k (x ∷ xs) (h, hs) = rw (Silent-latest (suc i) k xs hs) (Silent-none i k x h)

  said_read :
      (i : ℕ) (k : K) (w : W) (x : A) → reads x ≡ some (k, w) → said i k x ≡ some (stamp i w)
  unfolding said
  said_read i k w x e = rw (said, e) (rw (o.cmp_refl k) refl)

  pub latest-IsLatest :
      (i : ℕ) (k : K) (v : V) (xs : List A) → latest i k xs ≡ some v → IsLatest i k v xs
  unfolding latest or_else
  latest-IsLatest i k v [] h = absurd (ground (arith, h))
  latest-IsLatest i k v (x ∷ xs) h = elim (Option-cases (latest (suc i) k xs)) [
    | inl e ↦
        let (w, r, q) = said-some i k v x (ground (arith, h, e)) in
        record {
          before = [];
          item = x;
          after = xs;
          content = w;
          splits = refl;
          read = r;
          value = q ∙ ap (λ n. stamp n w) (omega arith);
          silent = latest-none (suc i) k xs e;
        }
    | inr (u, e) ↦
        let l = latest-IsLatest (suc i) k v xs (ground (arith, h, e)) in
        record {
          before = x ∷ l.before;
          item = l.item;
          after = l.after;
          content = l.content;
          splits = ap (◌∷◌ x) l.splits;
          read = l.read;
          value = l.value ∙ ap (λ n. stamp n l.content) (omega arith);
          silent = l.silent;
        }
  ]

  latest-append :
      (i : ℕ) (k : K) (w : W) (before : List A) (item : A) (after : List A)
      → reads item ≡ some (k, w)
      → All (Silent k) after
      → latest i k (before ++ item ∷ after) ≡ some (stamp (i + length before) w)
  unfolding latest or_else
  latest-append i k w [] item after r h =
      rw (Silent-latest (suc i) k after h)
        (said_read i k w item r ∙ ap (λ n. some (stamp n w)) (omega arith))
  latest-append i k w (x ∷ before) item after r h =
      rw (latest-append (suc i) k w before item after r h)
        (ap (λ n. some (stamp n w)) (omega arith))

  pub latest_of_IsLatest :
      (i : ℕ) (k : K) (v : V) (xs : List A) → IsLatest i k v xs → latest i k xs ≡ some v
  latest_of_IsLatest i k v xs l =
      ap (latest i k) l.splits
      ∙ latest-append i k l.content l.before l.item l.after l.read l.silent
      ∙ ap some (sym l.value)

  -- a key that is spoken of has a last item
  pub IsLatest-of_Member :
      (i : ℕ) (k : K) (w : W) (x : A) (xs : List A)
      → Member x xs
      → reads x ≡ some (k, w)
      → (v : V) × IsLatest i k v xs
  IsLatest-of_Member i k w x xs m r = elim (Option-cases (latest i k xs)) [
    | inl q ↦ absurd (All-Member (Silent k) x xs (latest-none i k xs q) m w r)
    | inr (v, q) ↦ (v, latest-IsLatest i k v xs q)
  ]
