-- ===== src/Core/Hex.antt =====
-- The `hex` crate as crates/furcate-mesh-core calls it: a parameter of the model. Its code is not
-- part of the repository; what its documentation promises is the record `IsHex`.
use furcate_mesh.Prelude.{
  ℕ, ◌*◌, ◌≡◌, false, true, ◌&&◌, ◌||◌, leb, Option, none, some, map, length, All, any, ◌==◌,
  if◌then◌else◌,
}
use furcate_mesh.Prelude.Text.{Bytes, Text, IsByte, is_ascii_uppercase, to_ascii_lowercase}

pub record Hex : Type 0 where
  pub encode : Bytes → Text
  pub decode : Text → Option Bytes
  -- `decode_to_slice(s, &mut out)`, with the length of `out`
  pub decode_to_slice : ℕ → Text → Option Bytes

-- `0` to `9` and `a` to `f`
abbrev pub IsHexDigit : ℕ → Type 0
IsHexDigit c = (leb b'0' c && leb c b'9' || leb b'a' c && leb c b'f') ≡ true

pub record IsHex (h : Hex) : Type 0 where
  pub decode-encode : (b : Bytes) → All IsByte b → h.decode (h.encode b) ≡ some b
  pub length-encode : (b : Bytes) → length (h.encode b) ≡ 2 * length b
  pub encode_lowercase : (b : Bytes) → any is_ascii_uppercase (h.encode b) ≡ false
  pub encode_digits : (b : Bytes) → All IsByte b → All IsHexDigit (h.encode b)
  -- decoding takes both cases
  pub decode_case : (s : Text) → h.decode (map to_ascii_lowercase s) ≡ h.decode s
  pub encode-decode :
      (s : Text) (b : Bytes) → h.decode s ≡ some b → h.encode b ≡ map to_ascii_lowercase s
  pub decode_bytes : (s : Text) (b : Bytes) → h.decode s ≡ some b → All IsByte b
  -- into a slice of the wrong length decoding fails
  pub decode_to_slice_lem :
      (n : ℕ) (s : Text) → h.decode_to_slice n s ≡ (if length s == 2 * n then h.decode s else none)
