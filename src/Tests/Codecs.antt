-- ===== src/Tests/Codecs.antt =====
-- Concrete functions for the parameters of the model, with the laws that are asked of them: plain
-- hexadecimal, and for the hash and the header codec the simplest that keep the laws.
pub mod Numbers
pub mod Events
use furcate_mesh.Prelude.{
  ℕ, ◌+◌, ◌-◌, ◌*◌, ◌/◌, ◌%◌, ◌<◌, ◌≡◌, ◌≢◌, ◌⊎◌, refl, sym, ◌∙◌, Bool, true, false, ◌&&◌, Ordering,
  Option, none, some, List, [], ◌∷◌, ◌++◌, append-nil, append_assoc, map, any, length, All, arith,
  ltb, leb, ◌==◌, if◌then◌else◌, inr, compare,
}
use furcate_mesh.Prelude.Text.{Bytes, Text, IsByte, is_ascii_uppercase, to_ascii_lowercase}
use furcate_mesh.Core.Hex.{Hex, IsHex, IsHexDigit}
use furcate_mesh.Core.Base64.{Base64, IsBase64}
use furcate_mesh.Core.Float.{Float, IsIeee, reverse}
use furcate_mesh.Transfer.{
  Blake3, IsBlake3, HeaderCodec, IsHeaderCodec, ChunkHeader, update_all, concat,
}

digit : ℕ → ℕ
digit n = if ltb n 10 then n + 48 else n + 87

value : ℕ → Option ℕ
value c =
    if leb 48 c && leb c 57
    then some (c - 48)
    else if leb 97 c && leb c 102
    then some (c - 87)
    else if leb 65 c && leb c 70
    then some (c - 55)
    else none

unfoldable pub encode : Bytes → Text
unfolding digit
encode [] = []
encode (b ∷ bs) = digit (b / 16) ∷ digit (b % 16) ∷ encode bs

pair : Option ℕ → Option ℕ → Option Bytes → Option Bytes
pair (some a) (some b) (some bs) = some ((a * 16 + b) ∷ bs)
pair _ _ _ = none

unfoldable pub decode : Text → Option Bytes
unfolding pair value
decode [] = some []
decode (a ∷ []) = none
decode (a ∷ b ∷ s) = pair (value a) (value b) (decode s)

abbrev pub plain_hex : Hex
plain_hex = record {
  encode = encode;
  decode = decode;
  decode_to_slice = λ n s. if length s == 2 * n then decode s else none;
}

value-digit : (n : ℕ) → n < 16 → value (digit n) ≡ some n
unfolding value digit
value-digit n h = ground arith

value_case : (c : ℕ) → value (to_ascii_lowercase c) ≡ value c
unfolding value to_ascii_lowercase
value_case c = ground arith

value_sound : (c v : ℕ) → value c ≡ some v → (v < 16) × (digit v ≡ to_ascii_lowercase c)
unfolding value digit to_ascii_lowercase
value_sound c v h = ground arith

decode-encode : (b : Bytes) → All IsByte b → decode (encode b) ≡ some b
unfolding decode encode
decode-encode [] h = refl
decode-encode (b ∷ bs) (hb, hs) =
    ground (arith, decode-encode bs hs, value-digit (b / 16), value-digit (b % 16))

length-encode : (b : Bytes) → length (encode b) ≡ 2 * length b
unfolding encode
length-encode [] = omega arith
length-encode (b ∷ bs) = omega (arith, length-encode bs)

encode_lowercase : (b : Bytes) → any is_ascii_uppercase (encode b) ≡ false
unfolding encode digit
encode_lowercase [] = refl
encode_lowercase (b ∷ bs) = ground (arith, encode_lowercase bs)

encode_digits : (b : Bytes) → All IsByte b → All IsHexDigit (encode b)
unfolding encode digit
encode_digits [] h = tt
encode_digits (b ∷ bs) (h, hs) = (ground arith, (ground arith, encode_digits bs hs))

decode_case : (s : Text) → decode (map to_ascii_lowercase s) ≡ decode s
unfolding decode
decode_case [] = refl
decode_case (a ∷ []) = refl
decode_case (a ∷ b ∷ s) = cc (value_case a, value_case b, decode_case s)

pair_sound :
    (x y : Option ℕ) (o : Option Bytes) (b : Bytes)
    → pair x y o ≡ some b
    → (v : ℕ) × (w : ℕ) × (bs : Bytes) × (x ≡ some v)
      × (y ≡ some w)
      × (o ≡ some bs)
      × (b ≡ (v * 16 + w) ∷ bs)
unfolding pair
pair_sound (some v) (some w) (some bs) b h = (v, w, bs, refl, refl, refl, ground arith)
pair_sound none y o b h = cc
pair_sound (some v) none o b h = cc
pair_sound (some v) (some w) none b h = cc

encode-decode : (s : Text) (b : Bytes) → decode s ≡ some b → encode b ≡ map to_ascii_lowercase s
unfolding decode encode
encode-decode [] b h = ground arith
encode-decode (a ∷ []) b h = cc
encode-decode (a ∷ c ∷ s) b h =
    let (v, w, bs, hv, hw, hs, hb) = pair_sound (value a) (value c) (decode s) b h in
    let (lv, dv) = value_sound a v hv in
    let (lw, dw) = value_sound c w hw in ground (arith, encode-decode s bs hs)

decode_bytes : (s : Text) (b : Bytes) → decode s ≡ some b → All IsByte b
unfolding decode
decode_bytes [] b h = rw (some_nil b h) tt
  where
    some_nil : (b : Bytes) → some [] ≡ some b → b ≡ []
    some_nil b h = ground arith
decode_bytes (a ∷ []) b h = cc
decode_bytes (a ∷ c ∷ s) b h =
    let (v, w, bs, hv, hw, hs, hb) = pair_sound (value a) (value c) (decode s) b h in
    let (lv, dv) = value_sound a v hv in
    let (lw, dw) = value_sound c w hw in rw hb (omega arith, decode_bytes s bs hs)

pub plain_hex-IsHex : IsHex plain_hex
plain_hex-IsHex = record {
  decode-encode = decode-encode;
  length-encode = length-encode;
  encode_lowercase = encode_lowercase;
  encode_digits = encode_digits;
  decode_case = decode_case;
  encode-decode = encode-decode;
  decode_bytes = decode_bytes;
  decode_to_slice_lem = λ n s. refl;
}

-- A text with `=` in it is not hexadecimal.
decode_refuses : (s : Text) → any (λ ch. ch == b'=') s ≡ true → decode s ≡ none
unfolding decode
decode_refuses [] h = cc
decode_refuses (a ∷ []) h = refl
decode_refuses (a ∷ b ∷ s) h = ground (arith, decode_refuses s)

abbrev pub plain_base64 : Base64
plain_base64 = record {
  url_safe_no_pad_encode = encode;
  url_safe_no_pad_decode = decode;
  url_safe_encode = encode;
  url_safe_decode = decode;
}

pub plain_base64-IsBase64 : IsBase64 plain_base64
plain_base64-IsBase64 = record {
  no_pad_round_trip = decode-encode;
  padded_round_trip = decode-encode;
  no_pad_refuses = decode_refuses;
  pads = λ b. inr refl;
}

-- The hasher keeps what it was fed.
abbrev pub plain_hash : Blake3 Bytes
plain_hash = record { hash = λ b. b; new = []; update = λ h b. h ++ b; finalize = λ h. h }

update_all-concat : (h : Bytes) (cs : List Bytes) → update_all plain_hash h cs ≡ h ++ concat cs
update_all-concat h [] = sym (append-nil h)
update_all-concat h (c ∷ cs) = update_all-concat (h ++ c) cs ∙ append_assoc h c (concat cs)

pub plain_hash-IsBlake3 : IsBlake3 plain_hash
plain_hash-IsBlake3 cs = update_all-concat [] cs

abbrev pub flag : Bool → ℕ
flag true = 1
flag false = 0

abbrev pub write_header : ChunkHeader → Bytes
write_header h = h.offset ∷ h.len ∷ flag h.last ∷ h.chunk_hash

abbrev pub read_header : Bytes → Option ChunkHeader
read_header (o ∷ n ∷ l ∷ s) = some (record { offset = o; chunk_hash = s; len = n; last = l == 1 })
read_header _ = none

abbrev pub plain_codec : HeaderCodec
plain_codec = record { to_vec = λ h. some (write_header h); from_slice = read_header }

pub plain_codec-IsHeaderCodec : IsHeaderCodec plain_codec
plain_codec-IsHeaderCodec = record {
  encodes = λ h. (write_header h, refl);
  round_trip = round_trip;
}
  where
    round_trip :
        (h : ChunkHeader) (b : Bytes) → some (write_header h) ≡ some b → read_header b ≡ some h
    round_trip h b e = ground arith
