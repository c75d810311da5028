-- ===== src/Sms/Address/RoundTrip.antt =====
-- A number is read back from its semi-octets.
use Prim.Native.Nat.{bit_or, bit_and}
use cell_bridge.Sms.Address.{
  decode_digits, all_digits, semi_octets, encode_number, is_digit, decode_address, encode_trimmed,
  encode_address,
}
use cell_bridge.Base.{
  ℕ, all_below, ◌<◌, suc, List, Text, ◌≡◌, ◌*◌, ◌-◌, ◌+◌, length, drop, true, ◌==◌, ==_iff, ◌%◌,
  ◌/◌, ◌∷◌, some, refl, all_below_sound, arith, [], ◌++◌, ◌∙◌, if◌then◌else◌, ap, ltb, Bool-cases,
  ◌&&◌, inl, false, trim_space, not, inr, length-append, sym,
}

abbrev pub IsDigit : ℕ → Type 0
IsDigit c = is_digit c ≡ true

nibble_table : all_below 16 (λ lo. all_below 16 (λ hi. bit_or lo (hi * 16) == lo + hi * 16)) ≡ true
unfolding all_below
nibble_table = refl

pub bit_or_nibbles : (lo hi : ℕ) → lo < 16 → hi < 16 → bit_or lo (hi * 16) ≡ lo + hi * 16
bit_or_nibbles lo hi hl hh =
    (==_iff _ _).0 (all_below_sound 16 _ hi (all_below_sound 16 _ lo nibble_table hl) hh)

-- Two digits in one octet.
pub pair_octet :
    (c d : ℕ)
    → IsDigit c
    → IsDigit d
    → bit_or (c - b'0') ((d - b'0') * 16 % 256) ≡ (c - b'0') + (d - b'0') * 16
pair_octet c d hc hd =
    let whole : (d - b'0') * 16 % 256 ≡ (d - b'0') * 16 = ground arith in
    rw whole (bit_or_nibbles (c - b'0') (d - b'0') (ground arith) (ground arith))

half : (n : ℕ) → (suc (suc n) + 1) / 2 ≡ suc ((n + 1) / 2)
half n = omega arith

decode_digits_pair :
    (left count written c d : ℕ) (octets : List ℕ)
    → IsDigit c
    → IsDigit d
    → written + 1 < count
    → decode_digits (suc left) count written (bit_or (c - b'0') ((d - b'0') * 16 % 256) ∷ octets)
      ≡ c ∷ d ∷ decode_digits left count (written + 2) octets
unfolding decode_digits
decode_digits_pair left count written c d octets hc hd lt =
    let high : (c - b'0' + (d - b'0') * 16) / 16 ≡ d - b'0' = ground arith in
    let low : (c - b'0' + (d - b'0') * 16) % 16 ≡ c - b'0' = ground arith in
    let both : (ltb (written + 1) count && not (d - b'0' == 0x0f)) ≡ true = ground arith in
    let first : b'0' + (c - b'0') ≡ c = ground arith in
    let second : b'0' + (d - b'0') ≡ d = ground arith in
    rw (pair_octet c d hc hd) (rw high (rw low (rw both (rw first (rw second refl)))))

decode_digits_last :
    (count written c : ℕ) (octets : List ℕ)
    → IsDigit c
    → decode_digits 1 count written (bit_or (c - b'0') (0x0f * 16) ∷ octets) ≡ c ∷ []
unfolding decode_digits
decode_digits_last count written c octets hc =
    rw (bit_or_nibbles (c - b'0') 0x0f (ground arith) (omega arith)) (ground arith)

decode_digits-semi_octets :
    (s : Text) (count written : ℕ) (rest : List ℕ)
    → all_digits s ≡ true
    → count ≡ written + length s
    → decode_digits ((length s + 1) / 2) count written (semi_octets s ++ rest) ≡ s
unfolding all_digits semi_octets
decode_digits-semi_octets [] count written rest h e = unfold decode_digits in refl
decode_digits-semi_octets (c ∷ []) count written rest h e =
    decode_digits_last count written c rest (ground arith)
decode_digits-semi_octets (c ∷ d ∷ s) count written rest h e = rw (half (length s)) (
    decode_digits_pair ((length s + 1) / 2) count written c d (semi_octets s ++ rest) (ground arith)
      (ground arith) (omega arith)
    ∙ ap (λ t. c ∷ d ∷ t)
        (decode_digits-semi_octets s count (written + 2) rest (ground arith) (omega arith)))

length-semi_octets : (s : Text) → length (semi_octets s) ≡ (length s + 1) / 2
unfolding semi_octets
length-semi_octets [] = refl
length-semi_octets (c ∷ []) = refl
length-semi_octets (c ∷ d ∷ s) = omega (arith, length-semi_octets s)

drop-semi_octets :
    (s : Text) (rest : List ℕ) → drop ((length s + 1) / 2) (semi_octets s ++ rest) ≡ rest
unfolding semi_octets
drop-semi_octets [] rest = refl
drop-semi_octets (c ∷ []) rest = refl
drop-semi_octets (c ∷ d ∷ s) rest = rw (half (length s)) (drop-semi_octets s rest)

number_octets :
    (ton c : ℕ) (s : Text) (octets : List ℕ)
    → length (c ∷ s) < 256
    → encode_number ton (c ∷ s) ≡ some octets
    → (all_digits (c ∷ s) ≡ true) × (octets ≡ length (c ∷ s) ∷ ton ∷ semi_octets (c ∷ s))
unfolding encode_number
number_octets ton c s octets lt h = elim (Bool-cases (all_digits (c ∷ s))) [
  | inl p ↦ (p, ground arith)
  | inr p ↦ absurd (cc (rw p at h))
]

number_back :
    (ton : ℕ) (s rest : List ℕ)
    → all_digits s ≡ true
    → decode_address (length s ∷ ton ∷ (semi_octets s ++ rest))
      ≡ some (if bit_and ton 0x70 == 0x10 then b'+' ∷ s else s, rest)
unfolding decode_address
number_back ton s rest h =
    let fits : ltb (length (semi_octets s ++ rest)) ((length s + 1) / 2) ≡ false =
      ground (arith, length-append (semi_octets s) rest, length-semi_octets s) in
    rw fits (
      rw (decode_digits-semi_octets s (length s) 0 rest h (omega arith))
        (rw (drop-semi_octets s rest) refl))

encoded :
    (ton : ℕ) (s octets rest : List ℕ)
    → length s < 256
    → encode_number ton s ≡ some octets
    → decode_address (octets ++ rest)
      ≡ some (if bit_and ton 0x70 == 0x10 then b'+' ∷ s else s, rest)
encoded ton [] octets rest lt h = absurd (unfold encode_number in cc h)
encoded ton (c ∷ s) octets rest lt h =
    let (digits, e) = number_octets ton c s octets lt h in
    rw e (number_back ton (c ∷ s) rest digits)

trimmed :
    (s octets rest : List ℕ)
    → length s < 256
    → encode_trimmed s ≡ some octets
    → decode_address (octets ++ rest) ≡ some (s, rest)
unfolding encode_trimmed
trimmed [] octets rest lt h = absurd (unfold encode_number in cc h)
trimmed (c ∷ s) octets rest lt h = elim (Bool-cases (c == b'+')) [
  | inl p ↦
      let sign : b'+' ≡ c = sym ((==_iff c b'+').0 p) in
      encoded 0x91 s octets rest (omega arith) (rw p at h) ∙ ap (λ t. some (t ∷ s, rest)) sign
  | inr p ↦ encoded 0x81 (c ∷ s) octets rest lt (rw p at h)
]

-- Whatever `encodeAddress` accepts, below 256 characters, `decodeAddress` reads back as the trimmed
-- number, sign included, and leaves the octets behind it.
pub decode-encode_address :
    (value : Text) (octets rest : List ℕ)
    → length (trim_space value) < 256
    → encode_address value ≡ some octets
    → decode_address (octets ++ rest) ≡ some (trim_space value, rest)
unfolding encode_address
decode-encode_address value octets rest lt h = trimmed (trim_space value) octets rest lt h
