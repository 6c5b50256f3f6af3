-- ===== src/Transfer/Concurrent/Apart.antt =====
-- Pulls side by side of which no two of one digest have its temporary file at a time.
use mathlib.Core.Path.{subst}
use furcate_mesh.Prelude.{ℕ, ◌≡◌, ◌≢◌, inl, inr, sym, ap, ◌∙◌, Bool-cases, some, ok}
use furcate_mesh.Prelude.Text.{Text, text_eq, text_eq_iff}
use furcate_mesh.Prelude.Equality.{
  text_eq_instance, nat_eq_instance, update, update_same, update_other, update_cases,
}
use furcate_mesh.Core.Hex.{Hex}
use furcate_mesh.Transfer.{Blake3, HeaderCodec, chunk_hash}
use furcate_mesh.Transfer.Pull.{partial}
use furcate_mesh.Transfer.Pull.Verified.{IsPartial}
use furcate_mesh.Transfer.Concurrent.{Disk, Phase, returned, State, at_rest, Step, acts, Act}
use furcate_mesh.Transfer.Concurrent.Directory.{IsDirectory}
use furcate_mesh.Transfer.Concurrent.Invariant.{IsPhase, Frame-IsPhase, Act-Keeps}
use furcate_mesh.Transfer.Concurrent.Active.{
  partial_injective, Active, IsExclusive, Act-cases, Act-held, idle-IsPhase,
}

module _ {H : Type 0} (b3 : Blake3 H) (hex : Hex) (codec : HeaderCodec) (goal : ℕ → Text) where
  -- A run with no two pulls of one digest active at a time.
  pub data ReachableApart (s : State) : State → Type 0 where
    start_apart : ReachableApart s s
    later_apart :
        (t u : State)
        → ReachableApart s t
        → Step b3 hex codec goal t u
        → IsExclusive goal u
        → ReachableApart s u

  -- Every file but temporary ones stands under the hash of its content, and a pull that has
  -- returned has its file.
  record IsSound (s : State) : Type 0 where
    directory : IsDirectory b3 hex s.disk
    phases : (p : ℕ) → IsPhase b3 hex codec (goal p) s.disk (s.phase p)
    exclusive : IsExclusive goal s

  -- another pull of the digest for which a pull takes a step
  same_digest :
      (s : State) (p q : ℕ) (d : Disk) (ph : Phase)
      → IsSound s
      → IsExclusive goal (record { disk = d; phase = update p ph s.phase })
      → Act b3 hex codec (goal p) s.disk (s.phase p) d ph
      → p ≢ q
      → goal p ≡ goal q
      → IsPhase b3 hex codec (goal q) d (s.phase q)
  same_digest s p q d ph sound apart act ne e =
      let idle = λ (n : ¬ Active (s.phase q)).
        idle-IsPhase b3 hex codec (goal q) s.disk d (s.phase q) n
          (λ i h. rw (← e) (Act-held b3 hex codec (goal p) s.disk d (s.phase p) ph i (rw e h) act))
          (sound.phases q) in
      elim (Act-cases b3 hex codec (goal p) s.disk d (s.phase p) ph act) [
        | inl before ↦ idle (sound.exclusive p q ne e before)
        | inr (inl after) ↦ idle (λ a.
            apart p q ne e (subst Active (sym (update_same p ph s.phase)) after)
              (subst Active (sym (update_other p q ph s.phase ne)) a))
        | inr (inr same) ↦ rw same (sound.phases q)
      ]

  module _ (plain : (p : ℕ) → ¬ IsPartial (goal p)) where
    Step-IsSound :
        (s t : State) → IsSound s → Step b3 hex codec goal s t → IsExclusive goal t → IsSound t
    Step-IsSound _ _ sound (acts s p d ph act) apart =
        let kept =
          Act-Keeps b3 hex codec (goal p) s.disk d (s.phase p) ph sound.directory (sound.phases p)
            act in
        record {
          directory = kept.directory;
          exclusive = apart;
          phases = λ q. elim (update_cases p q ph s.phase) [
            | inl (e, r) ↦
                subst (IsPhase b3 hex codec (goal q) d) (sym r)
                  (subst (λ x. IsPhase b3 hex codec (goal x) d ph) e kept.own)
            | inr (ne, r) ↦
                subst (IsPhase b3 hex codec (goal q) d) (sym r)
                  (elim (Bool-cases (text_eq (goal p) (goal q))) [
                    | inl same ↦
                        same_digest s p q d ph sound apart act ne
                          ((text_eq_iff (goal p) (goal q)).0 same)
                    | inr differ ↦
                        let other : goal p ≢ goal q =
                          λ e. cc (differ, (text_eq_iff (goal p) (goal q)).1 e) in
                        Frame-IsPhase b3 hex codec (goal q) s.disk d (s.phase q)
                          (kept.others (partial (goal q))
                            (λ e. other (sym (partial_injective (goal q) (goal p) e)))
                            (λ e. plain p (goal q, sym e)))
                          (kept.others (goal q) (λ e. plain q (goal p, e)) (λ e. other (sym e)))
                          kept.gone (sound.phases q)
                  ])
          ];
        }

    ReachableApart-IsSound : (s t : State) → IsSound s → ReachableApart s t → IsSound t
    ReachableApart-IsSound s _ sound start_apart = sound
    ReachableApart-IsSound s _ sound (later_apart t u r step apart) =
        Step-IsSound t u (ReachableApart-IsSound s t sound r) step apart

    -- Any number of pulls may run side by side, of different digests and of the same ones, none of
    -- which ends in `.partial`, their steps mixed in any way and each call of each of them failing
    -- or not, as long as no two of one digest are at a time between the opening of its temporary
    -- file and their return or, after an error, the end of their last write to it: in every state
    -- that is so reached from a directory in which every file but temporary ones stands under the
    -- hash of its content, they still do, and a pull that has returned without an error has
    -- returned its digest with a file of that hash under it.
    pub reachable_apart_lem :
        (d : Disk) (s : State)
        → IsDirectory b3 hex d
        → ReachableApart (at_rest d) s
        → IsDirectory b3 hex s.disk
          × ((p : ℕ) (name : Text)
              → s.phase p ≡ returned (ok name)
              → (name ≡ goal p)
                × ((i : ℕ) × (s.disk.names name ≡ some i)
                    × (chunk_hash b3 hex (s.disk.inodes i) ≡ name)))
    reachable_apart_lem d s dir r =
        let sound =
          ReachableApart-IsSound (at_rest d) s
            (record { directory = dir; phases = λ p. tt; exclusive = λ p q ne e h. absurd h }) r in
        (
          sound.directory,
          λ p name h.
              held s sound p name (subst (IsPhase b3 hex codec (goal p) s.disk) h (sound.phases p)),
        )
      where
        held :
            (s : State)
            → IsSound s
            → (p : ℕ) (name : Text) → (name ≡ goal p) × ((i : ℕ) × (s.disk.names (goal p) ≡ some i))
            → (name ≡ goal p)
              × ((i : ℕ) × (s.disk.names name ≡ some i)
                  × (chunk_hash b3 hex (s.disk.inodes i) ≡ name))
        held s sound p name (same, (i, q)) = (
          same,
          (
            i,
            ap s.disk.names same ∙ q,
            elim (sound.directory.verified (goal p) i q) [
              | inl temporary ↦ absurd (plain p temporary)
              | inr v ↦ v ∙ sym same
            ],
          ),
        )
