-- ===== src/Core/Base64.antt =====
-- The `base64` crate's engines `URL_SAFE_NO_PAD` and `URL_SAFE`, as crates/furcate-mesh-core calls
-- them: a parameter of the model, with what RFC 4648 and the crate's documentation promise.
use furcate_mesh.Prelude.{◌≡◌, ◌⊎◌, true, Option, none, some, any, All, ◌==◌}
use furcate_mesh.Prelude.Text.{Bytes, Text, IsByte}

pub record Base64 : Type 0 where
  pub url_safe_no_pad_encode : Bytes → Text
  pub url_safe_no_pad_decode : Text → Option Bytes
  pub url_safe_encode : Bytes → Text
  pub url_safe_decode : Text → Option Bytes

pub record IsBase64 (c : Base64) : Type 0 where
  pub no_pad_round_trip :
      (b : Bytes) → All IsByte b → c.url_safe_no_pad_decode (c.url_safe_no_pad_encode b) ≡ some b
  pub padded_round_trip :
      (b : Bytes) → All IsByte b → c.url_safe_decode (c.url_safe_encode b) ≡ some b
  -- the engine without padding refuses every `=`
  pub no_pad_refuses :
      (s : Text) → any (λ ch. ch == b'=') s ≡ true → c.url_safe_no_pad_decode s ≡ none
  -- a padded text ends in `=`, unless it needs no padding
  pub pads :
      (b : Bytes)
      → (any (λ ch. ch == b'=') (c.url_safe_encode b) ≡ true)
        ⊎ (c.url_safe_encode b ≡ c.url_safe_no_pad_encode b)
