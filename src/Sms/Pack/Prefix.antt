-- ===== src/Sms/Pack/Prefix.antt =====
-- The octets of the header stand in front of the packed septets, unchanged.
use mathlib.Core.List.{append_assoc, append-nil}
use cell_bridge.Sms.Pack.Loop.{pack_from-All}
use cell_bridge.Sms.Pack.Bits.{IsByte}
use cell_bridge.Base.{
  List, ℕ, length, ◌≡◌, All, ◌≤◌, ◌++◌, ◌*◌, ◌-◌, replicate, suc, ◌∷◌, arith, ap, ◌+◌, Bool-cases,
  [], refl, ◌∙◌, sym, zero, inl, ◌/◌, ◌%◌, inr,
}
use cell_bridge.Sms.Pack.{or_at, set_bit, pack_septet, pack_from, pack_bits, extend, test_bit}

or_at-append :
    (xs ys : List ℕ) (p k : ℕ)
    → length xs ≤ p
    → or_at (xs ++ ys) p k ≡ xs ++ or_at ys (p - length xs) k
unfolding or_at
or_at-append [] ys p k h = let whole : p - 0 ≡ p = omega arith in rw whole refl
or_at-append (x ∷ xs) ys zero k h = absurd (omega arith)
or_at-append (x ∷ xs) ys (suc p) k h =
    let less : suc p - suc (length xs) ≡ p - length xs = omega arith in
    rw less (ap (◌∷◌ x) (or_at-append xs ys p k (omega arith)))

-- `result` begins with `prefix`.
abbrev pub Begins : List ℕ → List ℕ → Type 0
Begins prefix result = (tail : List ℕ) × (result ≡ prefix ++ tail)

set_bit-Begins :
    (prefix result : List ℕ) (p k : ℕ)
    → length prefix ≤ p
    → Begins prefix result
    → Begins prefix (set_bit result p k)
unfolding set_bit extend
set_bit-Begins prefix result p k h (tail, e) = (
  or_at (tail ++ replicate (p + 1 - length result) 0) (p - length prefix) k,
  ap (λ r. or_at (r ++ replicate (p + 1 - length result) 0) p k) e
      ∙ ap (λ r. or_at r p k) (append_assoc prefix tail (replicate (p + 1 - length result) 0))
      ∙ or_at-append prefix (tail ++ replicate (p + 1 - length result) 0) p k h,
)

pack_septet-Begins :
    (n bit bp s : ℕ) (prefix result : List ℕ)
    → length prefix * 8 ≤ bp
    → Begins prefix result
    → Begins prefix (pack_septet n bit bp s result)
unfolding pack_septet
pack_septet-Begins zero bit bp s prefix result h b = b
pack_septet-Begins (suc n) bit bp s prefix result h b = elim (Bool-cases (test_bit s bit)) [
  | inl p ↦ rw p (
      pack_septet-Begins n (bit + 1) bp s prefix
        (set_bit result (bp / 8 + (bp % 8 + bit) / 8) ((bp % 8 + bit) % 8)) h
        (set_bit-Begins prefix result (bp / 8 + (bp % 8 + bit) / 8) ((bp % 8 + bit) % 8)
          (omega arith) b))
  | inr p ↦ rw p (pack_septet-Begins n (bit + 1) bp s prefix result h b)
]

pack_from-Begins :
    (offset index : ℕ) (septets prefix result : List ℕ)
    → length prefix * 8 ≤ offset
    → Begins prefix result
    → Begins prefix (pack_from offset index septets result)
unfolding pack_from
pack_from-Begins offset index [] prefix result h b = b
pack_from-Begins offset index (s ∷ septets) prefix result h b =
    pack_from-Begins offset (index + 1) septets prefix
      (pack_septet 7 0 (offset + index * 7) s result) h
      (pack_septet-Begins 7 0 (offset + index * 7) s prefix result (omega arith) b)

pub pack_bits-Begins :
    (prefix septets : List ℕ) → Begins prefix (pack_bits prefix septets (length prefix * 8))
unfolding pack_bits
pack_bits-Begins prefix septets =
    pack_from-Begins (length prefix * 8) 0 septets prefix prefix (omega arith)
      ([], sym (append-nil prefix))

pub pack_bits-All :
    (prefix septets : List ℕ) (offset : ℕ)
    → All IsByte prefix
    → All IsByte (pack_bits prefix septets offset)
unfolding pack_bits
pack_bits-All prefix septets offset a = pack_from-All offset 0 septets prefix a
