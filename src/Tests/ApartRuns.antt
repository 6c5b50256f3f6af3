-- ===== src/Tests/ApartRuns.antt =====
-- Two pulls of one digest, of which the second opens the temporary file after the first has failed.
use mathlib.Core.Path.{subst}
use furcate_mesh.Prelude.{
  ℕ, ◌≡◌, ◌≢◌, refl, sym, ◌∙◌, some, [], ◌∷◌, Bool-cases, ◌==◌, ==_iff, inl, inr, ok,
}
use furcate_mesh.Prelude.Text.{Text, text_eq}
use furcate_mesh.Prelude.Equality.{nat_eq_instance, update, update_other}
use furcate_mesh.Transfer.{io, chunk_hash, verify}
use furcate_mesh.Transfer.Disk.{write_at, read_len}
use furcate_mesh.Transfer.Pull.{accept, partial}
use furcate_mesh.Transfer.Concurrent.{
  Disk, Phase, State, at_rest, returned, Act, misses, opens_new, opens_old, receives, closes,
  reopens, reads, verifies, renames, breaks, lands, acts,
}
use furcate_mesh.Transfer.Concurrent.Directory.{IsDirectory}
use furcate_mesh.Transfer.Concurrent.Active.{Active, IsExclusive}
use furcate_mesh.Transfer.Concurrent.Apart.{
  ReachableApart, start_apart, later_apart, reachable_apart_lem,
}
use furcate_mesh.Tests.Codecs.{encode, plain_hex, plain_hash, plain_codec}
use furcate_mesh.Tests.ConcurrentRuns.{
  empty, empty-IsDirectory, goal, goal_plain, same_goal, chunk, one_byte,
}

-- no pull but one is active
abbrev Quiet : ℕ → State → Type 0
Quiet k s = (q : ℕ) → q ≢ k → ¬ Active (s.phase q)

-- a state that is reached, in which no pull but one is active
record Reached (k : ℕ) (s : State) : Type 0 where
  run : ReachableApart plain_hash plain_hex plain_codec same_goal (at_rest empty) s
  quiet : Quiet k s

Quiet-IsExclusive : (k : ℕ) (s : State) → Quiet k s → IsExclusive same_goal s
Quiet-IsExclusive k s h p q ne e a b = elim (Bool-cases (p == k)) [
  | inl same ↦ h q (λ f. ne ((==_iff p k).0 same ∙ sym f)) b
  | inr other ↦ h p (λ f. cc (other, (==_iff p k).1 f)) a
]

-- the next step is one of that pull
next :
    (k : ℕ) (s : State) (d : Disk) (ph : Phase)
    → Reached k s
    → Act plain_hash plain_hex plain_codec (goal 0) s.disk (s.phase k) d ph
    → Reached k (record { disk = d; phase = update k ph s.phase })
next k s d ph r act =
    let quiet : Quiet k (record { disk = d; phase = update k ph s.phase }) =
      λ q ne a. r.quiet q ne (subst Active (update_other k q ph s.phase (λ e. ne (sym e))) a) in
    record {
      run =
          later_apart s _ r.run (acts s k d ph act)
            (Quiet-IsExclusive k (record { disk = d; phase = update k ph s.phase }) quiet);
      quiet = quiet;
    }

-- once that pull is not active, another one may be
turn : (k l : ℕ) (s : State) → ¬ Active (s.phase k) → Reached k s → Reached l s
turn k l s idle r = record {
  run = r.run;
  quiet = λ q ne a. elim (Bool-cases (q == k)) [
    | inl same ↦ idle (subst (λ x. Active (s.phase x)) ((==_iff q k).0 same) a)
    | inr other ↦ r.quiet q (λ f. cc (other, (==_iff q k).1 f)) a
  ];
}

begun : Reached 0 (at_rest empty)
begun = record { run = start_apart; quiet = λ q ne a. a }

-- the first pull misses the file, opens the temporary one and fails
failed : (s : State) × Reached 0 s
unfolding partial
failed = (
  _,
  next 0 _ _ _
      (next 0 _ _ _ (next 0 _ _ _ (next 0 _ _ _ begun (misses _ refl)) (opens_new _ refl))
        (breaks _ 0 _ _ io))
      (lands _ 0 io (7 ∷ [])),
)

idle : ¬ Active (failed.0.phase 0)
unfolding failed
idle h = h

-- the second one runs to its end
twice : (s : State) × Reached 1 s
unfolding encode accept verify text_eq partial write_at read_len failed
twice = (
  _,
  next 1 _ _ _
      (next 1 _ _ _
        (next 1 _ _ _
          (next 1 _ _ _
            (next 1 _ _ _
              (next 1 _ _ _
                (next 1 _ _ _ (next 1 _ _ _ (turn 0 1 failed.0 idle failed.1) (misses _ refl))
                  (opens_old _ 0 refl))
                (receives _ 0 _ _ (chunk 10) _ _ refl))
              (closes _ 0))
            (reopens _ 0 refl))
          (reads _ 0 100 []))
        (verifies _ 0 _ one_byte refl))
      (renames _ 0 refl),
)

second_returned : twice.0.phase 1 ≡ returned (ok (goal 0))
unfolding twice
second_returned = refl

reachable_apart_lem_example :
    IsDirectory plain_hash plain_hex twice.0.disk
    × ((p : ℕ) (name : Text)
        → twice.0.phase p ≡ returned (ok name)
        → (name ≡ goal 0)
          × ((i : ℕ) × (twice.0.disk.names name ≡ some i)
              × (chunk_hash plain_hash plain_hex (twice.0.disk.inodes i) ≡ name)))
reachable_apart_lem_example =
    reachable_apart_lem plain_hash plain_hex plain_codec same_goal (λ p. goal_plain 0) empty twice.0
      empty-IsDirectory twice.1.run
