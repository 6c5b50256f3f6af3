-- ===== src/Core/Wire/HexArray.antt =====
-- The module `hex_array` of wire.rs: one text for each 32-byte value, and no other is accepted.
use furcate_mesh.Prelude.{◌≡◌, ◌↔◌, sym, ap, ◌∙◌, false, some, arith, any, length, All, ok}
use furcate_mesh.Prelude.Text.{Bytes, Text, IsByte, is_ascii_uppercase, lowercase_of_no_uppercase}
use furcate_mesh.Core.Hex.{Hex, IsHex}
use furcate_mesh.Core.Wire.{Error, serialize_hex, deserialize_hex}

module _ {E : Type 0} (error : Error E) {hex : Hex} (laws : IsHex hex) where
  accepted :
      (s : Text) (b : Bytes)
      → deserialize_hex error hex (ok s) ≡ ok b
      → (length s ≡ 64) × (any is_ascii_uppercase s ≡ false) × (hex.decode s ≡ some b)
  unfolding deserialize_hex
  accepted s b h = ground (arith, laws.decode_to_slice_lem 32 s)

  of_encode :
      (b : Bytes)
      → length b ≡ 32
      → All IsByte b
      → deserialize_hex error hex (ok (hex.encode b)) ≡ ok b
  unfolding deserialize_hex
  of_encode b size bytes = ground (
    arith,
    laws.length-encode b,
    laws.encode_lowercase b,
    laws.decode_to_slice_lem 32 (hex.encode b),
    laws.decode-encode b bytes,
  )

  -- A string is read as a 32-byte value exactly when it is the text that the value is written as:
  -- no other length, no upper case, no second spelling.
  pub deserialize_hex_iff :
      (s : Text) (b : Bytes)
      → (deserialize_hex error hex (ok s) ≡ ok b)
        ↔ ((s ≡ serialize_hex hex (λ t. t) b) × (length b ≡ 32) × All IsByte b)
  unfolding serialize_hex
  deserialize_hex_iff s b = (
    λ h.
        let (size, lower, decoded) = accepted s b h in
        let text : s ≡ hex.encode b =
          sym (lowercase_of_no_uppercase s lower) ∙ sym (laws.encode-decode s b decoded) in
        (text, omega (arith, laws.length-encode b, ap length text), laws.decode_bytes s b decoded),
    λ (text, size, bytes). rw text (of_encode b size bytes),
  )
