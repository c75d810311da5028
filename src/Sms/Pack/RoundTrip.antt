-- ===== src/Sms/Pack/RoundTrip.antt =====
-- `unpackSeptets` reads back what `packBits` writes.
-- The value that seven bits make.
use mathlib.Core.Path.{ap₂}
use Prim.Native.Nat.{bit_or}
use cell_bridge.Sms.Pack.Loop.{pack_from_bits}
use cell_bridge.Sms.Pack.Bits.{IsByte}
use cell_bridge.Sms.Pack.{
  unpack_septet, unpack_from, bit_at, unpack_septets, pack_septet, pack_from, test_bit, pack_bits,
}
use cell_bridge.Base.{
  ℕ, all_below, Bool, List, ◌<◌, suc, ◌≤◌, ◌==◌, ◌≡◌, All, length, replicate, ◌+◌, true, ==_iff,
  ◌*◌, refl, [], if◌then◌else◌, arith, all_below_sound, get_or, false, zero, ◌∷◌, ◌^◌, ◌∙◌, ◌++◌,
}

collect : ℕ → ℕ → (ℕ → Bool) → ℕ → ℕ
collect zero bit f value = value
collect (suc rounds) bit f value =
    collect rounds (bit + 1) f (if f bit then bit_or value (2 ^ bit) else value)

unpack_septet-collect :
    (n bit bp : ℕ) (bytes : List ℕ) (f : ℕ → Bool) (value : ℕ)
    → ((j : ℕ) → bit ≤ j → j < bit + n → bit_at bytes (bp + j) ≡ f j)
    → unpack_septet n bit bytes bp value ≡ collect n bit f value
unfolding unpack_septet collect
unpack_septet-collect zero bit bp bytes f value h = refl
unpack_septet-collect (suc n) bit bp bytes f value h = rw (h bit (omega arith) (omega arith)) (
    unpack_septet-collect n (bit + 1) bp bytes f (if f bit then bit_or value (2 ^ bit) else value)
      (λ j lo hi. h j (omega arith) (omega arith)))

collect_table : all_below 128 (λ s. collect 7 0 (test_bit s) 0 == s) ≡ true
unfolding all_below collect test_bit
collect_table = refl

abbrev pub IsSeptet : ℕ → Type 0
IsSeptet s = s < 128

collect_septet : (s : ℕ) → IsSeptet s → collect 7 0 (test_bit s) 0 ≡ s
collect_septet s h =
    (==_iff _ s).0 (all_below_sound 128 (λ s. collect 7 0 (test_bit s) 0 == s) s collect_table h)

pub unpack_from_bits :
    (septets : List ℕ) (index : ℕ) (bytes : List ℕ) (offset : ℕ)
    → All IsSeptet septets
    → ((i j : ℕ)
        → i < length septets
        → j < 7
        → bit_at bytes (offset + (index + i) * 7 + j) ≡ test_bit (get_or septets i 0) j)
    → unpack_from (length septets) index bytes offset ≡ septets
unfolding unpack_from
unpack_from_bits [] index bytes offset a h = refl
unpack_from_bits (s ∷ septets) index bytes offset a h =
    ap₂ ◌∷◌
      (unpack_septet-collect 7 0 (offset + index * 7) bytes (test_bit s) 0 (λ j lo hi.
          let here : offset + (index + 0) * 7 + j ≡ offset + index * 7 + j = omega arith in
          rw here at (h zero j (omega arith) (omega arith)))
        ∙ collect_septet s a.0)
      (unpack_from_bits septets (index + 1) bytes offset a.1 (λ i j hi hj.
        let later : offset + (index + suc i) * 7 + j ≡ offset + (index + 1 + i) * 7 + j =
          omega arith in
        rw later at (h (suc i) j (omega arith) hj)))

bit_at_beyond : (xs : List ℕ) (q : ℕ) → length xs * 8 ≤ q → bit_at xs q ≡ false
unfolding bit_at
bit_at_beyond xs q h = ground arith

-- Septets packed behind a header of whole octets are unpacked to themselves from the bit behind the
-- header, although the packer writes no octet for trailing zero bits.
pub unpack_septets-pack_bits :
    (prefix septets : List ℕ)
    → All IsByte prefix
    → All IsSeptet septets
    → unpack_septets
        (pack_bits prefix septets (length prefix * 8))
        (length septets)
        (length prefix * 8)
      ≡ septets
unfolding unpack_septets pack_bits
unpack_septets-pack_bits prefix septets p a =
    unpack_from_bits septets 0 (pack_from (length prefix * 8) 0 septets prefix) (length prefix * 8)
      a
      (λ i j hi hj.
        pack_from_bits (length prefix * 8) 0 septets prefix p
          (λ q h. bit_at_beyond prefix q (omega arith)) i j hi hj)

zero_septet : (bp : ℕ) (result : List ℕ) → pack_septet 7 0 bp 0 result ≡ result
unfolding pack_septet test_bit
zero_septet bp result = refl

pub pack_from_zeros :
    (n offset index : ℕ) (result : List ℕ) → pack_from offset index (replicate n 0) result ≡ result
unfolding pack_from
pack_from_zeros zero offset index result = refl
pack_from_zeros (suc n) offset index result =
    rw (zero_septet (offset + index * 7) result) (pack_from_zeros n offset (index + 1) result)

pub pack_from-append :
    (s t : List ℕ) (offset index : ℕ) (result : List ℕ)
    → pack_from offset index (s ++ t) result
      ≡ pack_from offset (index + length s) t (pack_from offset index s result)
unfolding pack_from
pack_from-append [] t offset index result =
    let same : index + 0 ≡ index = omega arith in rw same refl
pack_from-append (x ∷ s) t offset index result =
    let same : index + length (x ∷ s) ≡ index + 1 + length s = omega arith in
    rw same
      (pack_from-append s t offset (index + 1) (pack_septet 7 0 (offset + index * 7) x result))

-- Trailing septets 0 leave no trace.
pub pack_bits_zeros :
    (n : ℕ) (prefix s : List ℕ) (offset : ℕ)
    → pack_bits prefix (s ++ replicate n 0) offset ≡ pack_bits prefix s offset
unfolding pack_bits
pack_bits_zeros n prefix s offset =
    pack_from-append s (replicate n 0) offset 0 prefix
    ∙ pack_from_zeros n offset (0 + length s) (pack_from offset 0 s prefix)
