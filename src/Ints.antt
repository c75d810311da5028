-- ===== src/Ints.antt =====
-- Go's int as the code uses it, and `strconv.Itoa` and `strconv.Atoi`. `negsuc n` is -(n + 1).
use cell_bridge.Base.{
  ℕ, Bool, Text, leb, if◌then◌else◌, ◌≤◌, Option, ◌^◌, ◌+◌, ◌≡◌, ◌<◌, All, true, ◌-◌, some, none,
  ◌%◌, ◌∷◌, arith, false, ◌*◌, ltb, [], ◌==◌, ◌++◌, suc, ◌&&◌, zero, ◌/◌, Bool-cases, inl, refl,
  inr, ◌∙◌, All-append, ap, is_space,
}

pub data ℤ : Type 0 where
  pos : ℕ → ℤ
  negsuc : ℕ → ℤ

-- `a <= b`.
abbrev pub ℤ_leb : ℤ → ℤ → Bool
ℤ_leb (pos a) (pos b) = leb a b
ℤ_leb (negsuc a) (pos b) = true
ℤ_leb (pos a) (negsuc b) = false
ℤ_leb (negsuc a) (negsuc b) = leb b a

-- `a - b` of two natural numbers.
abbrev pub sub_nat : ℕ → ℕ → ℤ
sub_nat a b = if leb b a then pos (a - b) else negsuc (b - a - 1)

abbrev pub IsDigit : ℕ → Type 0
IsDigit c = (b'0' ≤ c) × (c ≤ b'9')

-- The value of a text of digits, with `acc` for those in front.
pub digits_value : ℕ → Text → Option ℕ
digits_value acc [] = some acc
digits_value acc (c ∷ s) =
    let rest = digits_value (acc * 10 + (c - b'0')) s in
    if leb b'0' c && leb c b'9' then rest else none

-- The largest int64.
abbrev pub max_int : ℕ
max_int = 2 ^ 63 - 1

-- An integer as an int64 keeps it: around 2^64 into -2^63 .. 2^63 - 1.
abbrev pub to_int64 : ℤ → ℤ
to_int64 (pos n) = let m = n % 2 ^ 64 in if ltb max_int m then negsuc (2 ^ 64 - 1 - m) else pos m
to_int64 (negsuc n) = let m = n % 2 ^ 64 in if ltb max_int m then pos (2 ^ 64 - 1 - m) else negsuc m

abbrev unsigned_int : Bool → Option ℕ → Option ℤ
unsigned_int minus none = none
unsigned_int false (some n) = if ltb max_int n then none else some (pos n)
unsigned_int true (some zero) = some (pos 0)
unsigned_int true (some (suc n)) = if ltb max_int n then none else some (negsuc n)

abbrev digits_or_none : Text → Option ℕ
digits_or_none [] = none
digits_or_none (c ∷ s) = digits_value 0 (c ∷ s)

-- `strconv.Atoi`.
unfoldable pub atoi : Text → Option ℤ
unfolding digits_value
atoi [] = none
atoi (c ∷ s) =
    if c == b'-'
    then unsigned_int true (digits_or_none s)
    else if c == b'+'
    then unsigned_int false (digits_or_none s)
    else unsigned_int false (digits_or_none (c ∷ s))

-- The decimal digits of a number; `fuel` is at least the number of digits less one.
pub decimal : ℕ → ℕ → Text
decimal zero n = (b'0' + n % 10) ∷ []
decimal (suc fuel) n =
    let front = decimal fuel (n / 10) in
    if ltb n 10 then (b'0' + n) ∷ [] else front ++ (b'0' + n % 10) ∷ []

-- `strconv.Itoa` of a number that is not negative.
unfoldable pub itoa : ℕ → Text
unfolding decimal
itoa n = decimal n n

digits_value-append :
    (acc v : ℕ) (s t : Text)
    → digits_value acc s ≡ some v
    → digits_value acc (s ++ t) ≡ digits_value v t
unfolding digits_value
digits_value-append acc v [] t h = let same : acc ≡ v = cc in rw same refl
digits_value-append acc v (c ∷ s) t h = elim (Bool-cases (leb b'0' c && leb c b'9')) [
  | inl p ↦ rw p (digits_value-append (acc * 10 + (c - b'0')) v s t (rw p at h))
  | inr p ↦ absurd (cc (rw p at h))
]

digits_value-digit : (acc d : ℕ) → d < 10 → digits_value acc ((b'0' + d) ∷ []) ≡ some (acc * 10 + d)
unfolding digits_value
digits_value-digit acc d h = ground arith

digits_value-decimal : (fuel n : ℕ) → n ≤ fuel → digits_value 0 (decimal fuel n) ≡ some n
unfolding decimal
digits_value-decimal zero n h =
    let nothing : n ≡ 0 = omega arith in rw nothing (digits_value-digit 0 0 (omega arith))
digits_value-decimal (suc fuel) n h = elim (Bool-cases (ltb n 10)) [
  | inl p ↦
      let same : 0 * 10 + n ≡ n = omega arith in
      rw p (digits_value-digit 0 n (ground arith) ∙ ap some same)
  | inr p ↦
      let value : n / 10 * 10 + n % 10 ≡ n = omega arith in
      rw p (
        digits_value-append 0 (n / 10) (decimal fuel (n / 10)) ((b'0' + n % 10) ∷ [])
          (digits_value-decimal fuel (n / 10) (ground arith))
        ∙ digits_value-digit (n / 10) (n % 10) (omega arith)
        ∙ ap some value)
]

decimal-All : (fuel n : ℕ) → n ≤ fuel → All IsDigit (decimal fuel n)
unfolding decimal
decimal-All zero n h = (omega arith, tt)
decimal-All (suc fuel) n h = elim (Bool-cases (ltb n 10)) [
  | inl p ↦ rw p (ground arith, tt)
  | inr p ↦ rw p (
      All-append IsDigit (decimal fuel (n / 10)) ((b'0' + n % 10) ∷ [])
        (decimal-All fuel (n / 10) (ground arith)) (omega arith, tt))
]

decimal-cons : (fuel n : ℕ) → (c : ℕ) × (s : Text) × (decimal fuel n ≡ c ∷ s)
unfolding decimal
decimal-cons zero n = (b'0' + n % 10, [], refl)
decimal-cons (suc fuel) n = elim (Bool-cases (ltb n 10)) [
  | inl p ↦ (b'0' + n, [], rw p refl)
  | inr p ↦
      let (c, s, e) = decimal-cons fuel (n / 10) in (c, s ++ (b'0' + n % 10) ∷ [], rw p (rw e refl))
]

-- What is printed is digits.
pub itoa-All : (n : ℕ) → All IsDigit (itoa n)
unfolding itoa
itoa-All n = decimal-All n n (omega arith)

pub itoa-cons : (n : ℕ) → (c : ℕ) × (s : Text) × (itoa n ≡ c ∷ s)
unfolding itoa
itoa-cons n = decimal-cons n n

atoi-digits :
    (n c : ℕ) (s : Text)
    → n ≤ max_int
    → IsDigit c
    → digits_value 0 (c ∷ s) ≡ some n
    → atoi (c ∷ s) ≡ some (pos n)
unfolding atoi
atoi-digits n c s m d h =
    let no_minus : (c == b'-') ≡ false = ground arith in
    let no_plus : (c == b'+') ≡ false = ground arith in
    let small : ltb max_int n ≡ false = ground arith in
    rw no_minus (rw no_plus (rw h (rw small refl)))

-- A printed number is read back.
pub atoi-itoa : (n : ℕ) → n ≤ max_int → atoi (itoa n) ≡ some (pos n)
atoi-itoa n m =
    let (c, s, e) = itoa-cons n in
    let value : digits_value 0 (itoa n) ≡ some n =
      unfold itoa in digits_value-decimal n n (omega arith) in
    let digits : All IsDigit (c ∷ s) = rw e at (itoa-All n) in
    rw e (atoi-digits n c s m digits.0 (rw e at value))

pub digit_no_space : (c : ℕ) → IsDigit c → is_space c ≡ false
unfolding is_space
digit_no_space c h = ground arith
