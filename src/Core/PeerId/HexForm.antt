-- ===== src/Core/PeerId/HexForm.antt =====
-- The textual form of a `PeerId`: what `from_hex` accepts, and that it undoes `to_hex`.
use furcate_mesh.Prelude.{◌≡◌, ◌↔◌, sym, ◌∙◌, ap, some, arith, map, length, ok}
use furcate_mesh.Prelude.Text.{Text, to_ascii_lowercase}
use furcate_mesh.Core.Hex.{Hex, IsHex}
use furcate_mesh.Core.PeerId.{PeerId, IsPeerId, to_hex, from_hex}

module _ {hex : Hex} (laws : IsHex hex) where
  from_hex_of_decode :
      (s : Text) (p : PeerId) → hex.decode s ≡ some p.key → IsPeerId p → from_hex hex s ≡ ok p
  unfolding from_hex
  from_hex_of_decode s p h v = rw h (ground (arith, v.size))

  key_of_from_hex : (s : Text) (p : PeerId) → from_hex hex s ≡ ok p → hex.decode s ≡ some p.key
  unfolding from_hex
  key_of_from_hex s p h = ground arith

  size_of_from_hex : (s : Text) (p : PeerId) → from_hex hex s ≡ ok p → length p.key ≡ 32
  unfolding from_hex
  size_of_from_hex s p h = ground arith

  pub from_hex-IsPeerId : (s : Text) (p : PeerId) → from_hex hex s ≡ ok p → IsPeerId p
  from_hex-IsPeerId s p h = record {
    size = size_of_from_hex s p h;
    bytes = laws.decode_bytes s p.key (key_of_from_hex s p h);
  }

  -- For every valid peer id, parsing its hex form gives the peer id back.
  pub from_hex-to_hex : (p : PeerId) → IsPeerId p → from_hex hex (to_hex hex p) ≡ ok p
  unfolding to_hex
  from_hex-to_hex p v = from_hex_of_decode _ p (laws.decode-encode p.key v.bytes) v

  -- Text is accepted for a valid peer id exactly when, in lower case, it is the id's hex form.
  pub from_hex_iff :
      (s : Text) (p : PeerId)
      → IsPeerId p
      → (from_hex hex s ≡ ok p) ↔ (map to_ascii_lowercase s ≡ to_hex hex p)
  unfolding to_hex
  from_hex_iff s p v = (
    λ h. sym (laws.encode-decode s p.key (key_of_from_hex s p h)),
    λ h.
        from_hex_of_decode s p
          (sym (laws.decode_case s) ∙ ap hex.decode h ∙ laws.decode-encode p.key v.bytes) v,
  )
