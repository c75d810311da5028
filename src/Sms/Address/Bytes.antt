-- ===== src/Sms/Address/Bytes.antt =====
-- Everything that `encodeAddress` writes is a byte.
use mathlib.Core.Path.{subst}
use cell_bridge.Sms.Address.RoundTrip.{bit_or_nibbles, pair_octet}
use cell_bridge.Sms.Pack.Bits.{IsByte}
use Prim.Native.Nat.{bit_or}
use cell_bridge.Sms.Address.{all_digits, encode_number, encode_trimmed, encode_address, semi_octets}
use cell_bridge.Base.{
  List, ℕ, some, ◌<◌, ◌≡◌, Text, true, All, ◌*◌, arith, ◌∷◌, trim_space, ◌-◌, Bool-cases, inl, ◌==◌,
  [], inr,
}

some_list : {a b : List ℕ} → some a ≡ some b → a ≡ b
some_list h = cc

nibbles_byte : (lo hi : ℕ) → lo < 16 → hi < 16 → bit_or lo (hi * 16) < 256
nibbles_byte lo hi a b = omega (arith, bit_or_nibbles lo hi a b)

semi_octets-All : (s : Text) → all_digits s ≡ true → All IsByte (semi_octets s)
unfolding all_digits semi_octets
semi_octets-All [] h = tt
semi_octets-All (c ∷ []) h = (nibbles_byte (c - b'0') 0x0f (ground arith) (omega arith), tt)
semi_octets-All (c ∷ d ∷ s) h = (
  rw (pair_octet c d (ground arith) (ground arith)) (ground arith),
  semi_octets-All s (ground arith),
)

encode_number-All :
    (ton : ℕ) (s octets : List ℕ)
    → ton < 256
    → encode_number ton s ≡ some octets
    → All IsByte octets
unfolding encode_number
encode_number-All ton [] octets t h = absurd (cc h)
encode_number-All ton (c ∷ s) octets t h = elim (Bool-cases (all_digits (c ∷ s))) [
  | inl p ↦
      subst (λ o. All IsByte o) (some_list (rw p at h))
        (omega arith, (t, semi_octets-All (c ∷ s) p))
  | inr p ↦ absurd (cc (rw p at h))
]

trimmed-All : (s octets : List ℕ) → encode_trimmed s ≡ some octets → All IsByte octets
unfolding encode_trimmed
trimmed-All [] octets h = absurd (unfold encode_number in cc h)
trimmed-All (c ∷ s) octets h = elim (Bool-cases (c == b'+')) [
  | inl p ↦ encode_number-All 0x91 s octets (omega arith) (rw p at h)
  | inr p ↦ encode_number-All 0x81 (c ∷ s) octets (omega arith) (rw p at h)
]

pub encode_address-All :
    (value : Text) (octets : List ℕ) → encode_address value ≡ some octets → All IsByte octets
unfolding encode_address
encode_address-All value octets h = trimmed-All (trim_space value) octets h
