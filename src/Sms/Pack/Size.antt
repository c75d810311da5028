-- ===== src/Sms/Pack/Size.antt =====
-- How many octets `packBits` writes: none behind the last bit that is set, and trailing zeros none.
use cell_bridge.Sms.Pack.Bits.{length-or_at}
use cell_bridge.Sms.Pack.{set_bit, pack_septet, pack_from, pack_bits, extend, test_bit}
use cell_bridge.Base.{
  ℕ, List, length, ◌*◌, ◌+◌, ◌≤◌, ◌<◌, arith, suc, ◌∷◌, Bool-cases, [], ◌++◌, replicate, inl, ◌-◌,
  ◌/◌, length-append, ◌%◌, length-replicate, inr, zero,
}

-- `result` ends with the octet of bit `bits - 1`, or in front of it.
abbrev pub EndsAt : ℕ → List ℕ → Type 0
EndsAt bits result = length result * 8 ≤ bits + 7

set_bit-EndsAt :
    (bits : ℕ) (result : List ℕ) (p k : ℕ)
    → p * 8 < bits
    → EndsAt bits result
    → EndsAt bits (set_bit result p k)
unfolding set_bit extend
set_bit-EndsAt bits result p k h e = omega (
  arith,
  length-or_at (result ++ replicate (p + 1 - length result) 0) p k,
  length-append result (replicate (p + 1 - length result) 0),
  length-replicate (p + 1 - length result) (zero),
)

pack_septet-EndsAt :
    (n bit bp s bits : ℕ) (result : List ℕ)
    → bp + bit + n ≤ bits
    → EndsAt bits result
    → EndsAt bits (pack_septet n bit bp s result)
unfolding pack_septet
pack_septet-EndsAt zero bit bp s bits result h e = e
pack_septet-EndsAt (suc n) bit bp s bits result h e = elim (Bool-cases (test_bit s bit)) [
  | inl p ↦ rw p (
      pack_septet-EndsAt n (bit + 1) bp s bits
        (set_bit result (bp / 8 + (bp % 8 + bit) / 8) ((bp % 8 + bit) % 8)) (omega arith)
        (set_bit-EndsAt bits result (bp / 8 + (bp % 8 + bit) / 8) ((bp % 8 + bit) % 8) (omega arith)
          e))
  | inr p ↦ rw p (pack_septet-EndsAt n (bit + 1) bp s bits result (omega arith) e)
]

pack_from-EndsAt :
    (offset index : ℕ) (septets : List ℕ) (bits : ℕ) (result : List ℕ)
    → offset + (index + length septets) * 7 ≤ bits
    → EndsAt bits result
    → EndsAt bits (pack_from offset index septets result)
unfolding pack_from
pack_from-EndsAt offset index [] bits result h e = e
pack_from-EndsAt offset index (s ∷ septets) bits result h e =
    pack_from-EndsAt offset (index + 1) septets bits (pack_septet 7 0 (offset + index * 7) s result)
      (omega arith) (pack_septet-EndsAt 7 0 (offset + index * 7) s bits result (omega arith) e)

-- Octets for the bits of the prefix and the septets, rounded up, at most.
pub length-pack_bits :
    (prefix septets : List ℕ)
    → length (pack_bits prefix septets (length prefix * 8)) * 8
      ≤ length prefix * 8 + length septets * 7 + 7
unfolding pack_bits
length-pack_bits prefix septets =
    pack_from-EndsAt (length prefix * 8) 0 septets (length prefix * 8 + length septets * 7) prefix
      (omega arith) (omega arith)
