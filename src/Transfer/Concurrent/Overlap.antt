-- ===== src/Transfer/Concurrent/Overlap.antt =====
-- Two pulls of one digest at the same time: they share the temporary file.
use mathlib.Core.Path.{subst}
use furcate_mesh.Prelude.{
  ℕ, ◌≡◌, ◌≢◌, sym, ap, ◌∙◌, none, some, [], ok, false, inl, inr, Option-cases,
}
use furcate_mesh.Prelude.Text.{Text}
use furcate_mesh.Prelude.Equality.{
  text_eq_instance, nat_eq_instance, update, update_same, update_other,
}
use furcate_mesh.Core.Hex.{Hex}
use furcate_mesh.Transfer.{Blake3, HeaderCodec, chunk_hash}
use furcate_mesh.Transfer.Pull.{partial}
use furcate_mesh.Transfer.Pull.Verified.{IsPartial}
use furcate_mesh.Transfer.Concurrent.Directory.{IsDirectory}
use furcate_mesh.Transfer.Concurrent.{
  Disk, missed, receiving, checked, returned, put_inode, create, move, State, Act, opens_new,
  opens_old, renames, acts, Reachable, start, later,
}

module _ {H : Type 0} (b3 : Blake3 H) (hex : Hex) (codec : HeaderCodec) (goal : ℕ → Text) (p q : ℕ)
    (other : p ≢ q) (same : goal p ≡ goal q) (s : State) where
  -- A run that ends with the digest returned and an empty file under it.
  record Emptied : Type 0 where
    end : State
    inode : ℕ
    path : Reachable b3 hex codec goal s end
    answer : end.phase p ≡ returned (ok (goal p))
    name : end.disk.names (goal p) ≡ some inode
    content : end.disk.inodes inode ≡ []

  -- the second pull has opened the file, and the first one moves it
  module _ (d : Disk) (i : ℕ) (tmp : d.names (partial (goal p)) ≡ some i)
      (new : d.inodes i ≡ []) where
    abbrev opened : State
    opened = record { disk = d; phase = update q (receiving i false false) s.phase }

    abbrev moved : State
    moved = record {
      disk = move (partial (goal p)) (goal p) i d;
      phase = update p (returned (ok (goal p))) opened.phase;
    }

    emptied :
        Act b3 hex codec (goal q) s.disk (s.phase q) d (receiving i false false)
        → s.phase p ≡ checked
        → Emptied
    emptied opens hp =
        let still : opened.phase p ≡ checked =
          update_other q p (receiving i false false) s.phase (λ e. other (sym e)) ∙ hp in
        let moves : Act b3 hex codec (goal p) opened.disk (opened.phase p) moved.disk
            (returned (ok (goal p))) =
          subst (λ ph. Act b3 hex codec (goal p) opened.disk ph moved.disk (returned (ok (goal p))))
            (sym still) (renames opened.disk i tmp) in
        record {
          end = moved;
          inode = i;
          path =
              later opened moved (later s opened start (acts s q _ _ opens))
                (acts opened p _ _ moves);
          answer = update_same p (returned (ok (goal p))) opened.phase;
          name = update_same (goal p) (some i) (update (partial (goal p)) none d.names);
          content = new;
        }

  -- whether the temporary name still stands for a file or not
  overlaps : s.phase p ≡ checked → s.phase q ≡ missed → Emptied
  overlaps hp hq = elim (Option-cases (s.disk.names (partial (goal p)))) [
    | inl e ↦
        emptied (create (partial (goal p)) s.disk) s.disk.next
          (update_same (partial (goal p)) (some s.disk.next) s.disk.names)
          (update_same s.disk.next [] s.disk.inodes)
          (rw (hq, same) (opens_new s.disk (rw (← same) e))) hp
    | inr (i, e) ↦
        emptied (put_inode i [] s.disk) i e (update_same i [] s.disk.inodes)
          (rw hq (opens_old s.disk i (rw (← same) e))) hp
  ]

  -- Where a digest is not the hash of the empty file and does not end in `.partial`, whenever one
  -- pull of it has checked the hash of its file and another one has missed the file, there is a run
  -- in which the other opens the temporary file, the first one returns the digest, and the file
  -- under the digest is empty, so that the directory no longer holds every file but temporary ones
  -- under the hash of its content.
  pub overlap_lem :
      ¬ IsPartial (goal p)
      → chunk_hash b3 hex [] ≢ goal p
      → s.phase p ≡ checked
      → s.phase q ≡ missed
      → (t : State) × (i : ℕ) × Reachable b3 hex codec goal s t
        × (t.phase p ≡ returned (ok (goal p)))
        × (t.disk.names (goal p) ≡ some i)
        × (t.disk.inodes i ≡ [])
        × (¬ IsDirectory b3 hex t.disk)
  overlap_lem plain ne hp hq =
      let o = overlaps hp hq in
      (
        o.end,
        o.inode,
        o.path,
        o.answer,
        o.name,
        o.content,
        λ dir. elim (dir.verified (goal p) o.inode o.name) [
          | inl temporary ↦ plain temporary
          | inr v ↦ ne (ap (chunk_hash b3 hex) (sym o.content) ∙ v)
        ],
      )
