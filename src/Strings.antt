-- ===== src/Strings.antt =====
-- The parts of Go's `strings` that find a character and cut there.
use mathlib.Core.Option
use cell_bridge.Base.{
  ℕ, Option, Text, has_prefix, none, some, List, if◌then◌else◌, map, Bool, All, ◌≡◌, ◌++◌, ◌∷◌, leb,
  ◌==◌, true, [], ◌&&◌, ◌||◌, false, arith, Bool-cases, ◌+◌, refl, inl, inr,
}

-- `strings.Index(s, c)` with the cut that follows: the text in front of the first `c`, and behind.
unfoldable pub cut_at : ℕ → Text → Option (Text × Text)
cut_at c [] = none
cut_at c (x ∷ s) =
    let rest = Option.map (λ (p : Text × Text). (x ∷ p.0, p.1)) (cut_at c s) in
    if x == c then some ([], s) else rest

-- The text behind the first `c`, or the whole text.
abbrev pub behind : Option (Text × Text) → Text → Text
behind none s = s
behind (some (front, rest)) s = rest

-- The text in front of the first `c`, or the whole text.
abbrev pub in_front : Option (Text × Text) → Text → Text
in_front none s = s
in_front (some (front, rest)) s = front

-- `strings.LastIndex(s, c)` with the cut that follows: the text behind the last `c`.
unfoldable pub behind_last : ℕ → Text → Option Text
behind_last c [] = none
behind_last c (x ∷ s) = elim (behind_last c s) [
  | some t ↦ some t
  | none ↦ if x == c then some s else none
]

-- `strings.Split(s, c)`; there is one field at least.
abbrev onto_first : ℕ → List Text → List Text
onto_first x [] = (x ∷ []) ∷ []
onto_first x (t ∷ ts) = (x ∷ t) ∷ ts

unfoldable pub split_on : ℕ → Text → List Text
split_on c [] = [] ∷ []
split_on c (x ∷ s) = let rest = split_on c s in if x == c then [] ∷ rest else onto_first x rest

-- `strings.ToLower` on ASCII.
abbrev pub lower_char : ℕ → ℕ
lower_char c = if leb b'A' c && leb c b'Z' then c + 32 else c

abbrev pub to_lower : Text → Text
to_lower s = map lower_char s

-- `strings.Contains`.
unfoldable pub contains : Text → Text → Bool
contains [] part = has_prefix [] part
contains (c ∷ s) part = has_prefix (c ∷ s) part || contains s part

-- A cut at the first `c` behind a text without one.
pub cut_at-append :
    (c : ℕ) (s t : Text) → All (λ x. (x == c) ≡ false) s → cut_at c (s ++ c ∷ t) ≡ some (s, t)
unfolding cut_at
cut_at-append c [] t h = ground arith
cut_at-append c (x ∷ s) t h = rw h.0 (rw (cut_at-append c s t h.1) refl)

-- The first field is what stands in front of the first separator.
pub split_on-append :
    (c : ℕ) (s t : Text)
    → All (λ x. (x == c) ≡ false) s
    → split_on c (s ++ c ∷ t) ≡ s ∷ split_on c t
unfolding split_on
split_on-append c [] t h = ground arith
split_on-append c (x ∷ s) t h = rw h.0 (rw (split_on-append c s t h.1) refl)

pub contains-prefix : (s part : Text) → has_prefix s part ≡ true → contains s part ≡ true
unfolding contains
contains-prefix [] part h = h
contains-prefix (c ∷ s) part h = rw h refl

-- What follows a part that is contained is contained.
has_prefix-append : (s a b : Text) → has_prefix s (a ++ b) ≡ true → contains s b ≡ true
unfolding has_prefix contains
has_prefix-append s [] b h = contains-prefix s b h
has_prefix-append [] (x ∷ a) b h = absurd (cc h)
has_prefix-append (c ∷ s) (x ∷ a) b h = ground (arith, has_prefix-append s a b)

pub contains-append : (s a b : Text) → contains s (a ++ b) ≡ true → contains s b ≡ true
unfolding contains
contains-append [] a b h = has_prefix-append [] a b h
contains-append (c ∷ s) a b h = elim (Bool-cases (has_prefix (c ∷ s) (a ++ b))) [
  | inl p ↦ has_prefix-append (c ∷ s) a b p
  | inr p ↦ ground (arith, contains-append s a b)
]
