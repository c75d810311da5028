-- ===== src/Sms/Pack.antt =====
-- gateway/internal/sms/pdu.go: septets packed into octets, bit by bit, behind a header.
pub mod Bits
pub mod Loop
pub mod RoundTrip
pub mod Prefix
pub mod Size
use Prim.Native.Nat.{bit_or, bit_and}
use cell_bridge.Base.{
  ℕ, List, Bool, ◌++◌, ◌∷◌, suc, [], length, not, replicate, ◌+◌, ◌*◌, ltb, ◌-◌, ◌^◌, if◌then◌else◌,
  ◌/◌, zero, ◌==◌, ◌%◌, ◌&&◌, get_or,
}

-- `value&(1<<k) != 0`.
unfoldable pub test_bit : ℕ → ℕ → Bool
test_bit value k = not (bit_and value (2 ^ k) == 0)

-- `for len(result) <= position { result = append(result, 0) }`.
pub extend : List ℕ → ℕ → List ℕ
extend result position = result ++ replicate (position + 1 - length result) 0

-- `result[position] |= 1 << k`.
pub or_at : List ℕ → ℕ → ℕ → List ℕ
or_at [] position k = []
or_at (x ∷ xs) zero k = bit_or x (2 ^ k) ∷ xs
or_at (x ∷ xs) (suc position) k = x ∷ or_at xs position k

pub set_bit : List ℕ → ℕ → ℕ → List ℕ
unfolding extend or_at
set_bit result position k = or_at (extend result position) position k

-- The inner loop of `packBits`, with `rounds` bits left, the next one being `bit`.
pub pack_septet : ℕ → ℕ → ℕ → ℕ → List ℕ → List ℕ
unfolding set_bit test_bit
pack_septet zero bit bit_position septet result = result
pack_septet (suc rounds) bit bit_position septet result =
    pack_septet rounds (bit + 1) bit_position septet (
      if test_bit septet bit
      then set_bit result (bit_position / 8 + (bit_position % 8 + bit) / 8)
          ((bit_position % 8 + bit) % 8)
      else result)

-- The outer loop of `packBits`, from `index` on.
pub pack_from : ℕ → ℕ → List ℕ → List ℕ → List ℕ
unfolding pack_septet
pack_from offset index [] result = result
pack_from offset index (septet ∷ septets) result =
    pack_from offset (index + 1) septets (pack_septet 7 0 (offset + index * 7) septet result)

-- `packBits`.
unfoldable pub pack_bits : List ℕ → List ℕ → ℕ → List ℕ
unfolding pack_from
pack_bits prefix septets offset = pack_from offset 0 septets prefix

-- `packSeptets`.
unfoldable pub pack_septets : List ℕ → List ℕ
unfolding pack_bits
pack_septets septets = pack_bits [] septets 0

-- `packUDHAndSeptets`.
unfoldable pub pack_udh_and_septets : List ℕ → List ℕ → List ℕ
unfolding pack_bits
pack_udh_and_septets udh septets = pack_bits udh septets (length udh * 8)

-- `position/8 < len(data) && data[position/8]&(1<<uint(position%8)) != 0`.
pub bit_at : List ℕ → ℕ → Bool
unfolding test_bit
bit_at bytes position =
    ltb (position / 8) (length bytes) && test_bit (get_or bytes (position / 8) 0) (position % 8)

-- The inner loop of `unpackSeptets`, with `rounds` bits left.
pub unpack_septet : ℕ → ℕ → List ℕ → ℕ → ℕ → ℕ
unfolding bit_at
unpack_septet zero bit bytes bit_position value = value
unpack_septet (suc rounds) bit bytes bit_position value =
    unpack_septet rounds (bit + 1) bytes bit_position
      (if bit_at bytes (bit_position + bit) then bit_or value (2 ^ bit) else value)

pub unpack_from : ℕ → ℕ → List ℕ → ℕ → List ℕ
unfolding unpack_septet
unpack_from zero index bytes offset = []
unpack_from (suc count) index bytes offset =
    unpack_septet 7 0 bytes (offset + index * 7) 0 ∷ unpack_from count (index + 1) bytes offset

-- `unpackSeptets`.
unfoldable pub unpack_septets : List ℕ → ℕ → ℕ → List ℕ
unfolding unpack_from
unpack_septets bytes count offset = unpack_from count 0 bytes offset
