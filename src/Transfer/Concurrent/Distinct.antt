-- ===== src/Transfer/Concurrent/Distinct.antt =====
-- Pulls of different digests side by side.
use furcate_mesh.Prelude.{ℕ, ◌≡◌, some, ok}
use furcate_mesh.Prelude.Text.{Text}
use furcate_mesh.Prelude.Equality.{nat_eq_instance}
use furcate_mesh.Core.Hex.{Hex}
use furcate_mesh.Transfer.{Blake3, HeaderCodec, chunk_hash}
use furcate_mesh.Transfer.Pull.Verified.{IsPartial}
use furcate_mesh.Transfer.Concurrent.{Disk, returned, State, at_rest, Reachable, start, later}
use furcate_mesh.Transfer.Concurrent.Apart.{
  ReachableApart, start_apart, later_apart, reachable_apart_lem,
}
use furcate_mesh.Transfer.Concurrent.Directory.{IsDirectory}

-- No two pulls have the same digest, and no digest has the name of a temporary file.
pub record IsDistinct (goal : ℕ → Text) : Type 0 where
  pub distinct : (p q : ℕ) → goal p ≡ goal q → p ≡ q
  pub plain : (p : ℕ) → ¬ IsPartial (goal p)

module _ {H : Type 0} (b3 : Blake3 H) (hex : Hex) (codec : HeaderCodec) (goal : ℕ → Text) where
  module _ (apart : IsDistinct goal) where
    ReachableApart-of_Reachable :
        (s t : State) → Reachable b3 hex codec goal s t → ReachableApart b3 hex codec goal s t
    ReachableApart-of_Reachable s _ start = start_apart
    ReachableApart-of_Reachable s _ (later t u r step) =
        later_apart t u (ReachableApart-of_Reachable s t r) step
          λ p q ne e before after. ne (apart.distinct p q e)

    -- Pulls of different digests may run side by side, their steps mixed in any way and each call
    -- of each of them failing or not: in every state that is reached from a directory in which
    -- every file but temporary ones stands under the hash of its content, they still do, and a pull
    -- that has returned has returned its digest with a file of that hash under it.
    pub reachable_lem :
        (d : Disk) (s : State)
        → IsDirectory b3 hex d
        → Reachable b3 hex codec goal (at_rest d) s
        → IsDirectory b3 hex s.disk
          × ((p : ℕ) (name : Text)
              → s.phase p ≡ returned (ok name)
              → (name ≡ goal p)
                × ((i : ℕ) × (s.disk.names name ≡ some i)
                    × (chunk_hash b3 hex (s.disk.inodes i) ≡ name)))
    reachable_lem d s dir r =
        reachable_apart_lem b3 hex codec goal apart.plain d s dir
          (ReachableApart-of_Reachable (at_rest d) s r)
