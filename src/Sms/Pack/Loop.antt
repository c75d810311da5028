-- ===== src/Sms/Pack/Loop.antt =====
-- What the loops of `packBits` write, bit by bit.
-- The bit that a round writes is the one at `bit_position + bit`.
use mathlib.Core.Path.{subst}
use cell_bridge.Sms.Pack.Bits.{IsByte, set_bit-All, bit_at-set_bit_ne, bit_at-set_bit_self}
use cell_bridge.Sms.Pack.{pack_septet, pack_from, test_bit, set_bit, bit_at}
use cell_bridge.Base.{
  ℕ, ◌/◌, List, ◌+◌, if◌then◌else◌, suc, All, ◌%◌, ◌≡◌, arith, refl, Bool-cases, ◌≢◌, zero, ◌<◌,
  ◌≤◌, ◌*◌, inl, false, ◌⊎◌, ◌∷◌, ◌∙◌, ◌==◌, length, inr, ==_iff, [], get_or,
}

place :
    (bp bit : ℕ)
    → (bp / 8 + (bp % 8 + bit) / 8 ≡ (bp + bit) / 8) × ((bp % 8 + bit) % 8 ≡ (bp + bit) % 8)
place bp bit = (omega arith, omega arith)

-- One round of the inner loop.
round : ℕ → ℕ → ℕ → List ℕ → List ℕ
round bit bp s r = if test_bit s bit then set_bit r ((bp + bit) / 8) ((bp + bit) % 8) else r

pack_septet-suc :
    (n bit bp s : ℕ) (r : List ℕ)
    → pack_septet (suc n) bit bp s r ≡ pack_septet n (bit + 1) bp s (round bit bp s r)
unfolding pack_septet round
pack_septet-suc n bit bp s r = rw ((place bp bit).0, (place bp bit).1) refl

module _ (bit bp s : ℕ) (r : List ℕ) (bytes : All IsByte r) where
  round-All : All IsByte (round bit bp s r)
  unfolding round
  round-All = elim (Bool-cases (test_bit s bit)) [
    | inl p ↦ rw p (set_bit-All r ((bp + bit) / 8) ((bp + bit) % 8) (omega arith) bytes)
    | inr p ↦ rw p bytes
  ]

  round_ne : (q : ℕ) → bp + bit ≢ q → bit_at (round bit bp s r) q ≡ bit_at r q
  unfolding round
  round_ne q ne = elim (Bool-cases (test_bit s bit)) [
    | inl p ↦ rw p (bit_at-set_bit_ne r (bp + bit) q ne bytes)
    | inr p ↦ rw p refl
  ]

  round_self : bit_at r (bp + bit) ≡ false → bit_at (round bit bp s r) (bp + bit) ≡ test_bit s bit
  unfolding round
  round_self clear = elim (Bool-cases (test_bit s bit)) [
    | inl p ↦ rw p (bit_at-set_bit_self r (bp + bit) bytes)
    | inr p ↦ rw p clear
  ]

pub pack_septet-All :
    (n bit bp s : ℕ) (r : List ℕ) → All IsByte r → All IsByte (pack_septet n bit bp s r)
pack_septet-All zero bit bp s r a = unfold pack_septet in a
pack_septet-All (suc n) bit bp s r a =
    rw (pack_septet-suc n bit bp s r)
      (pack_septet-All n (bit + 1) bp s (round bit bp s r) (round-All bit bp s r a))

-- Bits outside the septet stay.
pub pack_septet_outside :
    (n bit bp s : ℕ) (r : List ℕ) (q : ℕ)
    → All IsByte r
    → (q < bp + bit) ⊎ (bp + bit + n ≤ q)
    → bit_at (pack_septet n bit bp s r) q ≡ bit_at r q
pack_septet_outside zero bit bp s r q a h = unfold pack_septet in refl
pack_septet_outside (suc n) bit bp s r q a h = rw (pack_septet-suc n bit bp s r) (
    pack_septet_outside n (bit + 1) bp s (round bit bp s r) q (round-All bit bp s r a) (omega arith)
    ∙ round_ne bit bp s r a q (omega arith))

-- A septet written where all bits were clear.
pub pack_septet_inside :
    (n bit bp s : ℕ) (r : List ℕ) (j : ℕ)
    → All IsByte r
    → bit ≤ j
    → j < bit + n
    → bit_at r (bp + j) ≡ false
    → bit_at (pack_septet n bit bp s r) (bp + j) ≡ test_bit s j
pack_septet_inside zero bit bp s r j a lo hi clear = absurd (omega arith)
pack_septet_inside (suc n) bit bp s r j a lo hi clear =
    rw (pack_septet-suc n bit bp s r) (elim (Bool-cases (bit == j)) [
      | inl p ↦
          let same : bit ≡ j = (==_iff bit j).0 p in
          pack_septet_outside n (bit + 1) bp s (round bit bp s r) (bp + j) (round-All bit bp s r a)
            (inl (omega arith))
          ∙ subst (λ t. bit_at (round bit bp s r) (bp + t) ≡ test_bit s t) same
              (round_self bit bp s r a (rw same clear))
      | inr p ↦
          let apart : bit ≢ j = ground arith in
          pack_septet_inside n (bit + 1) bp s (round bit bp s r) j (round-All bit bp s r a)
            (omega arith) (omega arith)
            (round_ne bit bp s r a (bp + j) (λ e. apart (omega arith)) ∙ clear)
    ])

-- Bits before the first septet stay.
pub pack_from_before :
    (offset index : ℕ) (septets r : List ℕ) (q : ℕ)
    → All IsByte r
    → q < offset + index * 7
    → bit_at (pack_from offset index septets r) q ≡ bit_at r q
unfolding pack_from
pack_from_before offset index [] r q a h = refl
pack_from_before offset index (s ∷ septets) r q a h =
    pack_from_before offset (index + 1) septets (pack_septet 7 0 (offset + index * 7) s r) q
      (pack_septet-All 7 0 (offset + index * 7) s r a) (omega arith)
    ∙ pack_septet_outside 7 0 (offset + index * 7) s r q a (inl (omega arith))

-- Bit `j` of septet `i` is written at `offset + 7 * i + j`.
pub pack_from_bits :
    (offset index : ℕ) (septets r : List ℕ)
    → All IsByte r
    → ((q : ℕ) → offset + index * 7 ≤ q → bit_at r q ≡ false)
    → (i j : ℕ) → i < length septets
    → j < 7
    → bit_at (pack_from offset index septets r) (offset + (index + i) * 7 + j)
      ≡ test_bit (get_or septets i 0) j
unfolding pack_from
pack_from_bits offset index [] r a clear i j hi hj = absurd (omega arith)
pack_from_bits offset index (s ∷ septets) r a clear zero j hi hj =
    let here : offset + (index + 0) * 7 + j ≡ offset + index * 7 + j = omega arith in
    rw here (
      pack_from_before offset (index + 1) septets (pack_septet 7 0 (offset + index * 7) s r)
        (offset + index * 7 + j) (pack_septet-All 7 0 (offset + index * 7) s r a) (omega arith)
      ∙ pack_septet_inside 7 0 (offset + index * 7) s r j a (omega arith) (omega arith)
          (clear (offset + index * 7 + j) (omega arith)))
pack_from_bits offset index (s ∷ septets) r a clear (suc i) j hi hj =
    let later : offset + (index + suc i) * 7 + j ≡ offset + (index + 1 + i) * 7 + j = omega arith in
    rw later (
      pack_from_bits offset (index + 1) septets (pack_septet 7 0 (offset + index * 7) s r)
        (pack_septet-All 7 0 (offset + index * 7) s r a)
        (λ q h.
          pack_septet_outside 7 0 (offset + index * 7) s r q a (inr (omega arith))
          ∙ clear q (omega arith))
        i j (omega arith) hj)

pub pack_from-All :
    (offset index : ℕ) (septets r : List ℕ)
    → All IsByte r
    → All IsByte (pack_from offset index septets r)
unfolding pack_from
pack_from-All offset index [] r a = a
pack_from-All offset index (s ∷ septets) r a =
    pack_from-All offset (index + 1) septets (pack_septet 7 0 (offset + index * 7) s r)
      (pack_septet-All 7 0 (offset + index * 7) s r a)
