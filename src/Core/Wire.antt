-- ===== src/Core/Wire.antt =====
-- crates/furcate-mesh-core/src/wire.rs: the codecs of the fields on the wire. A serializer is the
-- function that it applies to a string (and its value for "none"), a deserializer is what it
-- answers when it is asked for a string. `Error` is the trait `serde::de::Error`.
pub mod HexArray
pub mod Payload
pub mod Cbor
use furcate_mesh.Prelude.{
  ℕ, Bool, Option, none, some, any, length, not, ◌==◌, Result, ok, err, ok_or, map_err, ◌>>=◌,
  if◌then◌else◌,
}
use furcate_mesh.Prelude.Text.{Bytes, Text, is_ascii_uppercase}
use furcate_mesh.Core.Hex.{Hex}
use furcate_mesh.Core.Base64.{Base64}

pub record Error (E : Type 0) : Type 0 where
  pub invalid_length : ℕ → E
  pub invalid_value : Text → E
  pub custom : E

module _ {R : Type 0} (hex : Hex) (serialize_str : Text → R) where
  unfoldable pub serialize_hex : Bytes → R
  serialize_hex bytes = serialize_str (hex.encode bytes)

module _ {E : Type 0} (error : Error E) (hex : Hex) where
  unfoldable pub deserialize_hex : Result E Text → Result E Bytes
  deserialize_hex d = do
    s ← d
    if not (length s == 64)
        then err (error.invalid_length (length s))
        else if any is_ascii_uppercase s
        then err (error.invalid_value s)
        else ok_or (hex.decode_to_slice 32 s) error.custom

module _ {R : Type 0} (b64 : Base64) (serialize_str : Text → R) where
  unfoldable pub serialize_bytes : Bytes → R
  serialize_bytes bytes = serialize_str (b64.url_safe_no_pad_encode bytes)

  unfoldable pub serialize_opt : R → Option Bytes → R
  serialize_opt serialize_none (some b) = serialize_str (b64.url_safe_no_pad_encode b)
  serialize_opt serialize_none none = serialize_none

-- `decode(s).or_else(|_| …)`
abbrev pub or_else {ℓ} : {A : Type ℓ} → Option A → Option A → Option A
or_else none o = o
or_else (some a) o = some a

module _ {E : Type 0} (error : Error E) (b64 : Base64) where
  unfoldable pub decode_payload : Text → Result E Bytes
  decode_payload s =
      ok_or (or_else (b64.url_safe_no_pad_decode s) (b64.url_safe_decode s)) error.custom

  unfoldable pub deserialize_bytes : Result E Text → Result E Bytes
  unfolding decode_payload
  deserialize_bytes d = do s ← d; decode_payload s

  decode_opt : Option Text → Result E (Option Bytes)
  unfolding decode_payload
  decode_opt none = ok none
  decode_opt (some s) = do v ← decode_payload s; ok (some v)

  -- The deserializer is asked for an optional string.
  unfoldable pub deserialize_opt : Result E (Option Text) → Result E (Option Bytes)
  unfolding decode_opt
  deserialize_opt d = do opt ← d; decode_opt opt
