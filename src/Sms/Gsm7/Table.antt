-- ===== src/Sms/Gsm7/Table.antt =====
-- Facts about the two tables.
use mathlib.Core.Path.{subst}
use cell_bridge.Base.{
  length, ℕ, ◌≡◌, Text, refl, some, ◌≤◌, ◌<◌, ◌+◌, get_or, ◌-◌, ◌∷◌, Option-cases, inr, inl, [],
  suc, zero, Bool-cases, arith, Bool, ◌≢◌, ◌==◌, List, text_eq, text_eq_iff, sym, true, ◌∙◌, ==_iff,
  ◌&&◌,
}
use cell_bridge.Sms.Gsm7.{
  gsm7_alphabet, last_index, gsm7_reverse, extension_in, extension_char, extension_code, plain_char,
  gsm7_extension,
}

alphabet_size : length gsm7_alphabet ≡ 128
unfolding gsm7_alphabet
alphabet_size = refl

some_eq : {a b : ℕ} → some a ≡ some b → a ≡ b
some_eq h = cc

-- What a later cell of the list says of the whole list.
shifted :
    (c v : ℕ) (vs : Text) (i k : ℕ)
    → (i + 1 ≤ k) × (k < i + 1 + length vs) × (get_or vs (k - (i + 1)) 0 ≡ c)
    → (i ≤ k) × (k < i + length (v ∷ vs)) × (get_or (v ∷ vs) (k - i) 0 ≡ c)
shifted c v vs i k (lo, hi, at) =
    let step : k - i ≡ suc (k - (i + 1)) = omega arith in (omega arith, omega arith, rw step at)

here :
    (c v : ℕ) (vs : Text) (i : ℕ)
    → v ≡ c
    → (i ≤ i) × (i < i + length (v ∷ vs)) × (get_or (v ∷ vs) (i - i) 0 ≡ c)
here c v vs i h =
    let none_left : i - i ≡ zero = omega arith in (omega arith, omega arith, rw none_left h)

last_index_sound :
    (c : ℕ) (vs : Text) (i k : ℕ)
    → last_index c vs i ≡ some k
    → (i ≤ k) × (k < i + length vs) × (get_or vs (k - i) 0 ≡ c)
unfolding last_index
last_index_sound c [] i k h = absurd (cc h)
last_index_sound c (v ∷ vs) i k h = elim (Option-cases (last_index c vs (i + 1))) [
  | inr (j, e) ↦
      let same : j ≡ k = some_eq (rw e at h) in
      shifted c v vs i k (last_index_sound c vs (i + 1) k (rw same at e))
  | inl e ↦ elim (Bool-cases (v == c)) [
    | inl p ↦
        let same : i ≡ k = some_eq (rw p at (rw e at h)) in
        subst (λ n. (i ≤ n) × (n < i + length (v ∷ vs)) × (get_or (v ∷ vs) (n - i) 0 ≡ c)) same
          (here c v vs i ((==_iff v c).0 p))
    | inr p ↦ absurd (cc (rw p at (rw e at h)))
  ]
]

pub gsm7_reverse_sound :
    (c k : ℕ) → gsm7_reverse c ≡ some k → (k < 128) × (get_or gsm7_alphabet k 0 ≡ c)
unfolding gsm7_reverse
gsm7_reverse_sound c k h =
    let (lo, hi, at) = last_index_sound c gsm7_alphabet 0 k h in
    let whole : k - 0 ≡ k = omega arith in (omega (arith, alphabet_size), rw whole at at)

-- Every entry of an association list passes a test that all pass.
abbrev pub all_entries : (ℕ → ℕ → Bool) → List (ℕ × ℕ) → Bool
all_entries p [] = true
all_entries p ((c, k) ∷ m) = p c k && all_entries p m

extension_in_passes :
    (p : ℕ → ℕ → Bool) (c k : ℕ) (m : List (ℕ × ℕ))
    → all_entries p m ≡ true
    → extension_in c m ≡ some k
    → p c k ≡ true
unfolding extension_in
extension_in_passes p c k [] h e = absurd (cc e)
extension_in_passes p c k ((d, j) ∷ m) h e = elim (Bool-cases (d == c)) [
  | inl q ↦ ground arith
  | inr q ↦ extension_in_passes p c k m (ground arith) (ground arith)
]

abbrev reads_back : ℕ → ℕ → Bool
reads_back c k = text_eq (extension_char k) (c ∷ [])

reads_back_all : all_entries reads_back gsm7_extension ≡ true
unfolding extension_char text_eq
reads_back_all = refl

-- The two directions of `gsm7Extension` agree.
pub extension_char_code : (c k : ℕ) → extension_code c ≡ some k → extension_char k ≡ c ∷ []
unfolding extension_code
extension_char_code c k e =
    (text_eq_iff (extension_char k) (c ∷ [])).0
      (extension_in_passes reads_back c k gsm7_extension reads_back_all e)

escape_is_escape : get_or gsm7_alphabet 0x1b 0 ≡ 0x1b
unfolding gsm7_alphabet
escape_is_escape = refl

-- The only rune that the septet 0x1b stands for is the escape itself.
pub gsm7_reverse_no_escape : (c : ℕ) → c ≢ 0x1b → gsm7_reverse c ≢ some 0x1b
gsm7_reverse_no_escape c ne e = ne (sym (gsm7_reverse_sound c 0x1b e).1 ∙ escape_is_escape)

pub plain_char_reverse : (c k : ℕ) → gsm7_reverse c ≡ some k → plain_char k ≡ c ∷ []
unfolding plain_char
plain_char_reverse c k e =
    let (lt, at) = gsm7_reverse_sound c k e in ground (arith, alphabet_size, lt, at)

pub extension_code_passes :
    (p : ℕ → ℕ → Bool) (c k : ℕ)
    → all_entries p gsm7_extension ≡ true
    → extension_code c ≡ some k
    → p c k ≡ true
unfolding extension_code
extension_code_passes p c k h e = extension_in_passes p c k gsm7_extension h e
