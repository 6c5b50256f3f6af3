-- ===== src/Tests/CoreRuns.antt =====
-- crates/furcate-mesh-core: runs, and its theorems at concrete inputs.
use furcate_mesh.Prelude.{
  ℕ, ◌<◌, ◌≡◌, ◌↔◌, refl, Ordering, [], ◌∷◌, map, arith, length, replicate, All, ok, err,
}
use furcate_mesh.Prelude.Text.{Bytes, Text, IsByte, codes, to_ascii_lowercase}
use furcate_mesh.Core.PeerId.{
  PeerId, IsPeerId, from_bytes, to_hex, from_hex, short, malformed, wrong_length,
}
use furcate_mesh.Core.PeerId.HexForm.{from_hex_iff}
use furcate_mesh.Core.Clock.{HybridLogicalClock, IsClock, u32_max, clock_cmp, later, bump_past}
use furcate_mesh.Core.Clock.Bump.{bump_past_iff}
use furcate_mesh.Core.Wire.{Error, serialize_hex, deserialize_hex}
use furcate_mesh.Core.Wire.HexArray.{deserialize_hex_iff}
use furcate_mesh.Tests.Codecs.{encode, decode, plain_hex, plain_hex-IsHex}

abbrev sevens : PeerId
sevens = from_bytes (replicate 32 7)

sevens-IsPeerId : IsPeerId sevens
sevens-IsPeerId = omega arith

short-sevens : short plain_hex sevens ≡ codes "070707"
unfolding short encode
short-sevens = refl

from_hex_short : from_hex plain_hex (codes "deadbeef") ≡ err wrong_length
unfolding from_hex decode
from_hex_short = refl

from_hex_bad : from_hex plain_hex (codes "zz") ≡ err malformed
unfolding from_hex decode
from_hex_bad = refl

from_hex_iff_example :
    (from_hex plain_hex (codes "AB") ≡ ok sevens)
    ↔ (map to_ascii_lowercase (codes "AB") ≡ to_hex plain_hex sevens)
from_hex_iff_example = from_hex_iff plain_hex-IsHex (codes "AB") sevens sevens-IsPeerId

abbrev early : HybridLogicalClock
early = record { wall_ms = 100; counter = 0 }

abbrev late : HybridLogicalClock
late = record { wall_ms = 200; counter = 0 }

abbrev end : HybridLogicalClock
end = record { wall_ms = 200; counter = u32_max }

bump_past-late : bump_past early late ≡ record { wall_ms = 200; counter = 1 }
unfolding bump_past
bump_past-late = refl

-- at the end of the counter the clock stays where it is
bump_past-end : bump_past early end ≡ end
unfolding bump_past
bump_past-end = refl

early-IsClock : IsClock early
early-IsClock = omega arith

end-IsClock : IsClock end
end-IsClock = omega arith

bump_past_iff_example :
    ((clock_cmp early (bump_past early end) ≡ Ordering.lt)
      × (clock_cmp end (bump_past early end) ≡ Ordering.lt))
    ↔ ((later early end).counter < u32_max)
bump_past_iff_example = bump_past_iff early end early-IsClock end-IsClock

-- the errors of a deserializer, told apart
data WireError : Type 0 where
  length_of : ℕ → WireError
  value_of : Text → WireError
  other : WireError

abbrev wire_error : Error WireError
wire_error = record { invalid_length = length_of; invalid_value = value_of; custom = other }

deserialize_hex_short : deserialize_hex wire_error plain_hex (ok (codes "abcd")) ≡ err (length_of 4)
unfolding deserialize_hex
deserialize_hex_short = refl

deserialize_hex_iff_example :
    (deserialize_hex wire_error plain_hex (ok (codes "abcd")) ≡ ok (replicate 32 7)) ↔ (
      (codes "abcd" ≡ serialize_hex plain_hex (λ t. t) (replicate 32 7))
      × (length {A = ℕ} (replicate 32 7) ≡ 32)
      × All IsByte (replicate 32 7))
deserialize_hex_iff_example =
    deserialize_hex_iff wire_error plain_hex-IsHex (codes "abcd") (replicate 32 7)

abbrev few : Bytes
few = 1 ∷ 2 ∷ 255 ∷ []
