-- ===== src/Core/Wire/Payload.antt =====
-- The modules `base64url_bytes_bytes` and `base64url_bytes_opt` of wire.rs.
use furcate_mesh.Prelude.{◌≡◌, inl, inr, refl, Option, none, some, All, ok}
use furcate_mesh.Prelude.Text.{Bytes, IsByte}
use furcate_mesh.Core.Wire.{
  Error, serialize_bytes, serialize_opt, deserialize_bytes, deserialize_opt,
}
use furcate_mesh.Core.Base64.{Base64, IsBase64}

module _ {E : Type 0} (error : Error E) {b64 : Base64} (laws : IsBase64 b64) where
  abbrev pub IsPayload : Option Bytes → Type 0
  IsPayload none = Unit
  IsPayload (some b) = All IsByte b

  -- Bytes are read back from the unpadded text that they are written as, and from the padded text
  -- that other implementations write.
  pub deserialize_bytes-serialize_bytes :
      (b : Bytes)
      → All IsByte b
      → (deserialize_bytes error b64 (ok (serialize_bytes b64 (λ t. t) b)) ≡ ok b)
        × (deserialize_bytes error b64 (ok (b64.url_safe_encode b)) ≡ ok b)
  unfolding serialize_bytes deserialize_bytes
  deserialize_bytes-serialize_bytes b h = (
    rw (laws.no_pad_round_trip b h) refl,
    elim (laws.pads b) [
      | inl padded ↦ rw (laws.no_pad_refuses _ padded, laws.padded_round_trip b h) refl
      | inr same ↦ rw (same, laws.no_pad_round_trip b h) refl
    ],
  )

  -- An optional payload is read back from what is written, whether it is there or not.
  pub deserialize_opt-serialize_opt :
      (o : Option Bytes)
      → IsPayload o
      → deserialize_opt error b64 (ok (serialize_opt b64 some none o)) ≡ ok o
  unfolding serialize_opt deserialize_opt
  deserialize_opt-serialize_opt none h = refl
  deserialize_opt-serialize_opt (some b) h = rw (laws.no_pad_round_trip b h) refl
