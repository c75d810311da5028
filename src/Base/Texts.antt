-- ===== src/Base/Texts.antt =====
-- Texts as lists of code points, with the parts of Go's `strings` that the program calls.
use Prim.Native.Nat.{ℕ}
use Prim.Native.Char.{code}
use Prim.Native.String.{String}
use mathlib.Core.Path.{◌≡◌, refl, sym, ap, ◌∙◌}
use mathlib.Core.Logic.{◌≢◌, ◌↔◌, inl, inr}
use mathlib.Core.Bool.{Bool, true, false, ◌&&◌, ◌||◌}
use mathlib.Core.List.{List, [], ◌∷◌, reverse, reverse-append, reverse-reverse, ◌++◌, append_assoc}
use cell_bridge.Base.Lists.{All, All-append}
use native.Mathlib.Omega.{arith}
use cell_bridge.Base.Tests.{Bool-cases, ◌==◌, leb, if◌then◌else◌}

abbrev pub Text : Type 0
Text = List ℕ

abbrev pub codes : String → Text
codes String.[] = []
codes (String.◌∷◌ c s) = code c ∷ codes s

unfoldable pub text_eq : Text → Text → Bool
text_eq [] [] = true
text_eq (x ∷ xs) (y ∷ ys) = x == y && text_eq xs ys
text_eq _ _ = false

pub text_eq_iff : (a b : Text) → (text_eq a b ≡ true) ↔ (a ≡ b)
unfolding text_eq
text_eq_iff (x ∷ a) (y ∷ b) = ground (arith, text_eq_iff a b)
text_eq_iff _ _ = ground arith

pub text_apart : (a b : Text) → text_eq a b ≡ false → a ≢ b
text_apart a b h q = absurd (cc ((text_eq_iff a b).1 q, h))

pub text_eq_sym : (a b : Text) → text_eq a b ≡ text_eq b a
unfolding text_eq
text_eq_sym (x ∷ a) (y ∷ b) = ground (arith, text_eq_sym a b)
text_eq_sym [] [] = refl
text_eq_sym [] (y ∷ b) = refl
text_eq_sym (x ∷ a) [] = refl

pub text_eq_refl : (a : Text) → text_eq a a ≡ true
text_eq_refl a = (text_eq_iff a a).1 refl

-- `strings.HasPrefix`.
unfoldable pub has_prefix : Text → Text → Bool
has_prefix s [] = true
has_prefix [] (p ∷ ps) = false
has_prefix (c ∷ s) (p ∷ ps) = c == p && has_prefix s ps

-- `unicode.IsSpace`.
unfoldable pub is_space : ℕ → Bool
is_space c =
    (leb 9 c && leb c 13)
    || c == 32
    || c == 0x85
    || c == 0xa0
    || c == 0x1680
    || (leb 0x2000 c && leb c 0x200a)
    || c == 0x2028
    || c == 0x2029
    || c == 0x202f
    || c == 0x205f
    || c == 0x3000

unfoldable pub trim_left : Text → Text
unfolding is_space
trim_left [] = []
trim_left (c ∷ s) = let rest = trim_left s in if is_space c then rest else c ∷ s

-- `strings.TrimSpace`.
unfoldable pub trim_space : Text → Text
unfolding trim_left
trim_space s = reverse (trim_left (reverse (trim_left s)))

abbrev NoSpace : ℕ → Type 0
NoSpace c = is_space c ≡ false

trim_left-NoSpace : (s : Text) → All NoSpace s → trim_left s ≡ s
unfolding trim_left
trim_left-NoSpace [] h = refl
trim_left-NoSpace (c ∷ s) h = rw h.0 refl

NoSpace-reverse : (s : Text) → All NoSpace s → All NoSpace (reverse s)
NoSpace-reverse [] h = tt
NoSpace-reverse (c ∷ s) h =
    rw (reverse-append (c ∷ []) s)
      (All-append NoSpace (reverse s) (c ∷ []) (NoSpace-reverse s h.1) (h.0, tt))

-- A text with no space in it is left by `TrimSpace` as it is.
pub trim_space_no_space : (s : Text) → All (λ c. is_space c ≡ false) s → trim_space s ≡ s
unfolding trim_space
trim_space_no_space s h =
    rw (trim_left-NoSpace s h)
      (rw (trim_left-NoSpace (reverse s) (NoSpace-reverse s h)) (reverse-reverse s))

-- Trimming keeps what a printing character stands before.
pub trim_left_mark :
    (a b : Text) (x : ℕ)
    → is_space x ≡ false
    → (front : Text) × (trim_left (a ++ (x ∷ b)) ≡ front ++ (x ∷ b))
unfolding trim_left
trim_left_mark [] b x h = ([], rw h refl)
trim_left_mark (c ∷ a) b x h = elim (Bool-cases (is_space c)) [
  | inl p ↦ rw p (trim_left_mark a b x h)
  | inr p ↦ (c ∷ a, rw p refl)
]

-- So it does at the other end.
pub trim_space_mark :
    (c : ℕ) (a : Text) (d : ℕ) (b : Text)
    → is_space c ≡ false
    → is_space d ≡ false
    → (rest : Text) × (trim_space (c ∷ (a ++ d ∷ b)) ≡ c ∷ (a ++ d ∷ rest))
unfolding trim_space trim_left
trim_space_mark c a d b hc hd =
    let (front, e) = trim_left_mark (reverse b) (reverse (c ∷ a)) d hd in
    let flat : reverse b ++ d ∷ reverse (c ∷ a) ≡ reverse (c ∷ (a ++ d ∷ b)) = sym (
      reverse-append (c ∷ a) (d ∷ b)
      ∙ rw (reverse-append (d ∷ []) b) (append_assoc (reverse b) (d ∷ []) (reverse (c ∷ a)))) in
    (
      reverse front,
      rw hc (
          ap (λ t. reverse (trim_left t)) (sym flat)
          ∙ ap reverse e
          ∙ reverse-append front (d ∷ reverse (c ∷ a))
          ∙ ap (λ t. t ++ reverse front) (reverse-append (d ∷ []) (reverse (c ∷ a)))
          ∙ rw (reverse-reverse (c ∷ a)) (append_assoc (c ∷ a) (d ∷ []) (reverse front))),
    )

-- A leading space goes.
pub trim_space_space : (s : Text) → trim_space (32 ∷ s) ≡ trim_space s
unfolding trim_space trim_left is_space
trim_space_space s = refl
