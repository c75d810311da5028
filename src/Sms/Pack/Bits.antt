-- ===== src/Sms/Pack/Bits.antt =====
-- Setting one bit of a byte list, read bit by bit.
use Prim.Native.Nat.{bit_or}
use cell_bridge.Sms.Pack.{bit_at, or_at, extend, set_bit, test_bit}
use cell_bridge.Base.{
  ℕ, all_below, Bool, List, ◌<◌, bool_eq, ◌&&◌, length, ◌≡◌, ◌≢◌, get_or, All, ltb, true, false,
  ◌≤◌, ◌/◌, ◌∷◌, zero, replicate, ◌++◌, ◌+◌, arith, All-append, ◌^◌, all_below_sound, suc, ◌%◌, ◌-◌,
  length-append, ◌==◌, ltb→lt, not, [], Bool-cases, ap, length-replicate, ◌∙◌, ◌||◌, refl, inl,
  bool_eq_sound, inr, sym,
}

abbrev pub IsByte : ℕ → Type 0
IsByte x = x < 256

abbrev bit_row : ℕ → ℕ → Bool
bit_row x k = all_below 8 (λ j. bool_eq (test_bit (bit_or x (2 ^ k)) j) (k == j || test_bit x j))

abbrev bit_table : ℕ → Bool
bit_table x = all_below 8 (λ k. bit_row x k && ltb (bit_or x (2 ^ k)) 256)

bit_table_all : all_below 256 bit_table ≡ true
unfolding all_below test_bit
bit_table_all = refl

both : (a b : Bool) → (a && b) ≡ true → (a ≡ true) × (b ≡ true)
both a b h = ground arith

test_bit_or :
    (x k j : ℕ) → x < 256 → k < 8 → j < 8 → test_bit (bit_or x (2 ^ k)) j ≡ (k == j || test_bit x j)
test_bit_or x k j hx hk hj =
    let row = all_below_sound 8 _ k (all_below_sound 256 bit_table x bit_table_all hx) hk in
    bool_eq_sound _ _ (all_below_sound 8 _ j (both _ _ row).0 hj)

bit_or-byte : (x k : ℕ) → x < 256 → k < 8 → bit_or x (2 ^ k) < 256
bit_or-byte x k hx hk =
    let row = all_below_sound 8 _ k (all_below_sound 256 bit_table x bit_table_all hx) hk in
    ltb→lt _ _ (both _ _ row).1

zero_row : all_below 8 (λ j. not (test_bit 0 j)) ≡ true
unfolding all_below test_bit
zero_row = refl

test_bit_zero : (j : ℕ) → j < 8 → test_bit 0 j ≡ false
test_bit_zero j h = ground (arith, all_below_sound 8 (λ j. not (test_bit 0 j)) j zero_row)

get_or_beyond : (xs : List ℕ) (i : ℕ) → length xs ≤ i → get_or xs i 0 ≡ 0
get_or_beyond [] i h = refl
get_or_beyond (x ∷ xs) zero h = absurd (omega arith)
get_or_beyond (x ∷ xs) (suc i) h = get_or_beyond xs i (omega arith)

-- Reading a bit beyond the end gives 0, as the test of the length does.
pub bit_at_get : (xs : List ℕ) (q : ℕ) → bit_at xs q ≡ test_bit (get_or xs (q / 8) 0) (q % 8)
unfolding bit_at
bit_at_get xs q = elim (Bool-cases (ltb (q / 8) (length xs))) [
  | inl p ↦ rw p refl
  | inr p ↦
      rw p
        (rw (get_or_beyond xs (q / 8) (ground arith)) (sym (test_bit_zero (q % 8) (omega arith))))
]

pub length-or_at : (xs : List ℕ) (p k : ℕ) → length (or_at xs p k) ≡ length xs
unfolding or_at
length-or_at [] p k = refl
length-or_at (x ∷ xs) zero k = refl
length-or_at (x ∷ xs) (suc p) k = ap suc (length-or_at xs p k)

get_or-or_at_self :
    (xs : List ℕ) (p k : ℕ)
    → p < length xs
    → get_or (or_at xs p k) p 0 ≡ bit_or (get_or xs p 0) (2 ^ k)
unfolding or_at
get_or-or_at_self [] p k h = absurd (omega arith)
get_or-or_at_self (x ∷ xs) zero k h = refl
get_or-or_at_self (x ∷ xs) (suc p) k h = get_or-or_at_self xs p k (omega arith)

get_or-or_at_ne : (xs : List ℕ) (p q k : ℕ) → p ≢ q → get_or (or_at xs p k) q 0 ≡ get_or xs q 0
unfolding or_at
get_or-or_at_ne [] p q k h = refl
get_or-or_at_ne (x ∷ xs) zero zero k h = absurd (h refl)
get_or-or_at_ne (x ∷ xs) zero (suc q) k h = refl
get_or-or_at_ne (x ∷ xs) (suc p) zero k h = refl
get_or-or_at_ne (x ∷ xs) (suc p) (suc q) k h = get_or-or_at_ne xs p q k (λ e. h (ap suc e))

get_or_zeros : (n i : ℕ) → get_or {A = ℕ} (replicate n 0) i 0 ≡ 0
get_or_zeros zero i = refl
get_or_zeros (suc n) zero = refl
get_or_zeros (suc n) (suc i) = get_or_zeros n i

get_or_padded : (xs : List ℕ) (n i : ℕ) → get_or (xs ++ replicate n 0) i 0 ≡ get_or xs i 0
get_or_padded [] n i = get_or_zeros n i
get_or_padded (x ∷ xs) n zero = refl
get_or_padded (x ∷ xs) n (suc i) = get_or_padded xs n i

get_or-extend : (xs : List ℕ) (p i : ℕ) → get_or (extend xs p) i 0 ≡ get_or xs i 0
unfolding extend
get_or-extend xs p i = get_or_padded xs (p + 1 - length xs) i

lt-length-extend : (xs : List ℕ) (p : ℕ) → p < length (extend xs p)
unfolding extend
lt-length-extend xs p = omega (
  arith,
  length-append xs (replicate (p + 1 - length xs) 0),
  length-replicate (p + 1 - length xs) (zero),
)

All-zeros : (n : ℕ) → All IsByte (replicate n 0)
All-zeros zero = tt
All-zeros (suc n) = (omega arith, All-zeros n)

or_at-All : (xs : List ℕ) (p k : ℕ) → k < 8 → All IsByte xs → All IsByte (or_at xs p k)
unfolding or_at
or_at-All [] p k h a = tt
or_at-All (x ∷ xs) zero k h a = (bit_or-byte x k a.0 h, a.1)
or_at-All (x ∷ xs) (suc p) k h a = (a.0, or_at-All xs p k h a.1)

pub set_bit-All : (xs : List ℕ) (p k : ℕ) → k < 8 → All IsByte xs → All IsByte (set_bit xs p k)
unfolding set_bit
set_bit-All xs p k h a =
    or_at-All (extend xs p) p k h
      (unfold extend in All-append IsByte xs (replicate (p + 1 - length xs) 0) a (All-zeros _))

pub get_or_byte : (xs : List ℕ) (i : ℕ) → All IsByte xs → get_or xs i 0 < 256
get_or_byte [] i a = omega arith
get_or_byte (x ∷ xs) zero a = a.0
get_or_byte (x ∷ xs) (suc i) a = get_or_byte xs i a.1

-- Setting the bit at `p` sets that bit, and no other.
pub bit_at-set_bit_self :
    (xs : List ℕ) (p : ℕ) → All IsByte xs → bit_at (set_bit xs (p / 8) (p % 8)) p ≡ true
unfolding set_bit
bit_at-set_bit_self xs p a =
    bit_at_get (or_at (extend xs (p / 8)) (p / 8) (p % 8)) p
    ∙ rw (get_or-or_at_self (extend xs (p / 8)) (p / 8) (p % 8) (lt-length-extend xs (p / 8))) (
        rw (get_or-extend xs (p / 8) (p / 8)) (
          ground (
            arith,
            test_bit_or (get_or xs (p / 8) 0) (p % 8) (p % 8) (get_or_byte xs (p / 8) a)
                (omega arith) (omega arith),
          )))

pub bit_at-set_bit_ne :
    (xs : List ℕ) (p q : ℕ)
    → p ≢ q
    → All IsByte xs
    → bit_at (set_bit xs (p / 8) (p % 8)) q ≡ bit_at xs q
unfolding set_bit
bit_at-set_bit_ne xs p q ne a = elim (Bool-cases (p / 8 == q / 8)) [
  | inl e ↦
      let same : q / 8 ≡ p / 8 = ground arith in
      let apart : (p % 8 == q % 8) ≡ false = ground arith in
      rw (bit_at_get (or_at (extend xs (p / 8)) (p / 8) (p % 8)) q) (
        rw (bit_at_get xs q) (
          rw same (
            rw (get_or-or_at_self (extend xs (p / 8)) (p / 8) (p % 8) (lt-length-extend xs (p / 8)))
              (rw (get_or-extend xs (p / 8) (p / 8)) (
                rw
                  (test_bit_or (get_or xs (p / 8) 0) (p % 8) (q % 8) (get_or_byte xs (p / 8) a)
                    (omega arith) (omega arith))
                  (rw apart refl))))))
  | inr e ↦ rw (bit_at_get (or_at (extend xs (p / 8)) (p / 8) (p % 8)) q) (
      rw (bit_at_get xs q) (
        rw (get_or-or_at_ne (extend xs (p / 8)) (p / 8) (q / 8) (p % 8) (ground arith))
          (rw (get_or-extend xs (p / 8) (q / 8)) refl)))
]
