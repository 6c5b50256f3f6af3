-- ===== src/Transfer/Concurrent/Active.antt =====
-- Pulls of one digest: when they have its temporary file, and what a step changes for the others.
use furcate_mesh.Prelude.Lists.{length-append}
use furcate_mesh.Prelude.{
  length, arith, ℕ, ◌≡◌, ◌≢◌, ◌⊎◌, inl, inr, refl, ap, ◌∙◌, Option, some, none, [], ◌∷◌, ◌++◌, ok,
  err,
}
use furcate_mesh.Prelude.Text.{Text, codes}
use furcate_mesh.Prelude.Equality.{
  text_eq_instance, nat_eq_instance, update, update_same, update_other,
}
use furcate_mesh.Core.Hex.{Hex}
use furcate_mesh.Transfer.{Blake3, HeaderCodec}
use furcate_mesh.Transfer.Pull.{partial}
use furcate_mesh.Transfer.Concurrent.{
  Disk, Phase, waiting, missed, receiving, received, reading, checked, leaving, returned, State,
  Act, hits, misses, opens_new, opens_old, receives, refuses, breaks, gives_up, lands, settles,
  closes, reopens, reads, verifies, rejects, renames, fails,
}
use furcate_mesh.Transfer.Concurrent.Invariant.{IsPhase}

pub append_cancel_right : (a b s : Text) → a ++ s ≡ b ++ s → a ≡ b
append_cancel_right [] [] s h = refl
append_cancel_right [] (x ∷ b) s h = absurd (omega (arith, ap length h, length-append (x ∷ b) s))
append_cancel_right (x ∷ a) [] s h = absurd (omega (arith, ap length h, length-append (x ∷ a) s))
append_cancel_right (x ∷ a) (y ∷ b) s h = ground (arith, append_cancel_right a b s, h)

pub partial_injective : (a b : Text) → partial a ≡ partial b → a ≡ b
unfolding partial
partial_injective a b h = append_cancel_right a b (codes ".partial") h

partial_ne : (g : Text) → partial g ≢ g
unfolding partial
partial_ne g h = omega (arith, ap length h, length-append g (codes ".partial"))

-- From the opening of the temporary file to the return, and after an error until the last write to
-- that file has ended.
abbrev pub Active : Phase → Type 0
Active (receiving i got_any got_last) = Unit
Active received = Unit
Active (reading i read) = Unit
Active checked = Unit
Active (leaving i e) = Unit
Active _ = ⊥

-- No two pulls of one digest are active at a time.
abbrev pub IsExclusive : (ℕ → Text) → State → Type 0
IsExclusive goal s = (p q : ℕ) → p ≢ q → goal p ≡ goal q → Active (s.phase p) → ¬ Active (s.phase q)

module _ {H : Type 0} (b3 : Blake3 H) (hex : Hex) (codec : HeaderCodec) where
  -- a step changes the directory only where the pull is active before it or after it
  pub Act-cases :
      (g : Text) (d e : Disk) (ph next : Phase)
      → Act b3 hex codec g d ph e next
      → Active ph ⊎ Active next ⊎ (e ≡ d)
  Act-cases g _ _ _ _ (hits d i q) = inr (inr refl)
  Act-cases g _ _ _ _ (misses d q) = inr (inr refl)
  Act-cases g _ _ _ _ (opens_new d q) = inr (inl tt)
  Act-cases g _ _ _ _ (opens_old d i q) = inr (inl tt)
  Act-cases g _ _ _ _ (receives d i got_any got_last r header payload q) = inl tt
  Act-cases g _ _ _ _ (refuses d i got_any got_last r e q) = inl tt
  Act-cases g _ _ _ _ (breaks d i got_any got_last e) = inl tt
  Act-cases g _ _ _ _ (gives_up d i got_any got_last e q) = inl tt
  Act-cases g _ _ _ _ (lands d i e file) = inl tt
  Act-cases g _ _ _ _ (settles d i e) = inl tt
  Act-cases g _ _ _ _ (closes d i) = inl tt
  Act-cases g _ _ _ _ (reopens d i q) = inl tt
  Act-cases g _ _ _ _ (reads d i k read) = inl tt
  Act-cases g _ _ _ _ (verifies d i read whole q) = inl tt
  Act-cases g _ _ _ _ (rejects d i read whole q) = inl tt
  Act-cases g _ _ _ _ (renames d i q) = inl tt
  Act-cases g _ _ _ _ (fails d ph e q) = inr (inr refl)

  -- a change of the temporary name
  renamed :
      (g : Text) (o : Option ℕ) (d : Disk) (i : ℕ)
      → d.names g ≡ some i
      → (j : ℕ) × (update (partial g) o d.names g ≡ some j)
  renamed g o d i h = (i, update_other (partial g) g o d.names (partial_ne g) ∙ h)

  -- a file that is in the directory stays there, if not the same one
  pub Act-held :
      (g : Text) (d e : Disk) (ph next : Phase) (i : ℕ)
      → d.names g ≡ some i
      → Act b3 hex codec g d ph e next
      → (j : ℕ) × (e.names g ≡ some j)
  Act-held g _ _ _ _ i h (hits d k q) = (i, h)
  Act-held g _ _ _ _ i h (misses d q) = (i, h)
  Act-held g _ _ _ _ i h (opens_new d q) = renamed g (some d.next) d i h
  Act-held g _ _ _ _ i h (opens_old d k q) = (i, h)
  Act-held g _ _ _ _ i h (receives d k got_any got_last r header payload q) = (i, h)
  Act-held g _ _ _ _ i h (refuses d k got_any got_last r e q) = (i, h)
  Act-held g _ _ _ _ i h (breaks d k got_any got_last e) = (i, h)
  Act-held g _ _ _ _ i h (gives_up d k got_any got_last e q) = renamed g none d i h
  Act-held g _ _ _ _ i h (lands d k e file) = (i, h)
  Act-held g _ _ _ _ i h (settles d k e) = (i, h)
  Act-held g _ _ _ _ i h (closes d k) = (i, h)
  Act-held g _ _ _ _ i h (reopens d k q) = (i, h)
  Act-held g _ _ _ _ i h (reads d k n read) = (i, h)
  Act-held g _ _ _ _ i h (verifies d k read whole q) = (i, h)
  Act-held g _ _ _ _ i h (rejects d k read whole q) = renamed g none d i h
  Act-held g _ _ _ _ i h (renames d k q) =
      (k, update_same g (some k) (update (partial g) none d.names))
  Act-held g _ _ _ _ i h (fails d ph e q) = (i, h)

  -- a pull that is not active needs only that its file stays
  pub idle-IsPhase :
      (g : Text) (d e : Disk) (ph : Phase)
      → ¬ Active ph
      → ((i : ℕ) → d.names g ≡ some i → (j : ℕ) × (e.names g ≡ some j))
      → IsPhase b3 hex codec g d ph
      → IsPhase b3 hex codec g e ph
  idle-IsPhase g d e waiting n k h = tt
  idle-IsPhase g d e missed n k h = tt
  idle-IsPhase g d e (receiving i got_any got_last) n k h = absurd (n tt)
  idle-IsPhase g d e received n k h = tt
  idle-IsPhase g d e (reading i read) n k h = absurd (n tt)
  idle-IsPhase g d e checked n k h = absurd (n tt)
  idle-IsPhase g d e (leaving i x) n k h = absurd (n tt)
  idle-IsPhase g d e (returned (ok name)) n k (same, (i, q)) = (same, k i q)
  idle-IsPhase g d e (returned (err x)) n k h = tt
