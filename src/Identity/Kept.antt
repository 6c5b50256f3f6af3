-- ===== src/Identity/Kept.antt =====
-- The identity that is kept in the file.
use furcate_mesh.Prelude.{
  ◌≡◌, refl, true, Option, none, some, arith, ok, Option-cases, Result-cases, Bool-cases, inl, inr,
  ap, ℕ, ◌/◌, ◌%◌, false,
}
use furcate_mesh.Prelude.Text.{Text}
use furcate_mesh.Identity.{Ed25519, KeyFile, Env, written, load, store, save, load_or_generate}

-- What is written is read back.
pub record IsEd25519 {K : Type 0} (ed : Ed25519 K) : Type 0 where
  pub pem_round_trip :
      (k : K) (pem : Text) → ed.to_pkcs8_pem k ≡ some pem → ed.from_pkcs8_pem pem ≡ some k

-- the mode of a file that is written over, or created
abbrev pub default_mode : Env → Option KeyFile → ℕ
default_mode env none = env.created_mode
default_mode env (some old) = old.mode

-- The permission bits of the file: three of the owner, then three of the group and three of the
-- others. On Unix the owner reads and writes and no other bit is set.
abbrev pub IsGuarded : Env → Option KeyFile → KeyFile → Type 0
IsGuarded env disk file =
    (env.unix ≡ true → (file.mode / 64 ≡ 6) × (file.mode % 64 ≡ 0))
    × (env.unix ≡ false → file.mode ≡ default_mode env disk)

module _ {K : Type 0} (ed : Ed25519 K) (laws : IsEd25519 ed) where
  save-elsewhere :
      (env : Env) (k : K) (disk : Option KeyFile) (pem : Text)
      → ed.to_pkcs8_pem k ≡ some pem
      → (save ed env k disk).0 ≡ ok tt
      → env.unix ≡ false
      → (save ed env k disk).1 ≡ some (record { pem = pem; mode = default_mode env disk })
  unfolding save store written
  save-elsewhere env k none pem q h u = ground (arith, q)
  save-elsewhere env k (some old) pem q h u = ground (arith, q)

  -- A successful save leaves a file that, where it can be read, loads as the same key. Built for
  -- Unix, the file's owner may read and write it, and no permission bit is set for anyone else,
  -- whatever the mode of an earlier file or of the process; elsewhere the file keeps the mode that
  -- it had, or has the one of the process if it is new.
  pub load-save :
      (env later : Env) (k : K) (disk : Option KeyFile)
      → (save ed env k disk).0 ≡ ok tt
      → later.reads ≡ true
      → (file : KeyFile) × ((save ed env k disk).1 ≡ some file)
        × IsGuarded env disk file
        × (load ed later (some file) ≡ ok k)
  unfolding save store load
  load-save env later k disk h r = elim (Option-cases (ed.to_pkcs8_pem k)) [
    | inl q ↦ absurd (no_pem q)
    | inr (pem, q) ↦ elim (Bool-cases env.unix) [
      | inl u ↦ (
        record { pem = pem; mode = 384 },
        ground (arith, q),
        ((λ _. (refl, refl)), λ n. cc),
        ground (arith, laws.pem_round_trip k pem q),
      )
      | inr u ↦ (
        record { pem = pem; mode = default_mode env disk },
        save-elsewhere env k disk pem q h u,
        ((λ n. cc), λ _. refl),
        ground (arith, laws.pem_round_trip k pem q),
      )
    ]
  ]
    where
      no_pem : ed.to_pkcs8_pem k ≡ none → ⊥
      no_pem q = ground (arith, q)

  load_again :
      (env later : Env) (file : Option KeyFile) (k : K)
      → load ed env file ≡ ok k
      → later.reads ≡ true
      → load ed later file ≡ ok k
  unfolding load
  load_again env later none k h r = cc
  load_again env later (some file) k h r = ground arith

  pub generated :
      (env : Env) (fresh k : K)
      → (load_or_generate ed env fresh none).0 ≡ ok k
      → (fresh ≡ k)
        × ((save ed env fresh none).0 ≡ ok tt)
        × ((load_or_generate ed env fresh none).1 ≡ (save ed env fresh none).1)
  unfolding load_or_generate
  generated env fresh k h = elim (Bool-cases env.creates_dir) [
    | inl c ↦ elim (Result-cases (save ed env fresh none).0) [
      | inl (e, q) ↦ absurd (cc (h, c, q))
      | inr (tt, q) ↦ (ground (arith, c, q), q, ground (arith, c))
    ]
    | inr c ↦ absurd (cc (h, c))
  ]

  -- Once `load_or_generate` has returned a key, every later call that can read the file returns
  -- the same key, whatever key it might draw, and leaves the file alone.
  pub load_or_generate_again :
      (env later : Env) (fresh other k : K) (disk : Option KeyFile)
      → (load_or_generate ed env fresh disk).0 ≡ ok k
      → later.reads ≡ true
      → load_or_generate ed later other (load_or_generate ed env fresh disk).1
        ≡ (ok k, (load_or_generate ed env fresh disk).1)
  unfolding load_or_generate
  load_or_generate_again env later fresh other k (some file) h r =
      ap (λ x. (x, some file)) (load_again env later (some file) k h r)
  load_or_generate_again env later fresh other k none h r =
      let (same, saved, left) = generated env fresh k h in
      let (file, kept, mode, loads) = load-save env later fresh none saved r in
      cc (same, left, kept, loads)
