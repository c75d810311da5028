-- ===== src/Call/Emergency.antt =====
-- `IsEmergencyNumber` of gateway/internal/call/state.go.
use mathlib.Core.List.{reverse, reverse-append}
use cell_bridge.Base.{
  List, Text, ℕ, has_prefix, codes, Bool, ◌∷◌, drop, trim_space, is_space, [], false, leb,
  if◌then◌else◌, ◌≡◌, text_eq, ◌&&◌, ◌++◌, ◌||◌, refl, trim_left_mark,
}

abbrev pub emergency_numbers : List Text
emergency_numbers =
    codes "112"
    ∷ codes "911"
    ∷ codes "999"
    ∷ codes "110"
    ∷ codes "119"
    ∷ codes "120"
    ∷ codes "122"
    ∷ []

abbrev pub member : Text → List Text → Bool
member t [] = false
member t (x ∷ xs) = text_eq x t || member t xs

abbrev pub is_digit : ℕ → Bool
is_digit c = leb b'0' c && leb c b'9'

-- The loop that collects the digits.
abbrev pub digits_of : Text → Text
digits_of [] = []
digits_of (c ∷ s) = let rest = digits_of s in if is_digit c then c ∷ rest else rest

abbrev pub china_prefix : Text
china_prefix = codes "+86"

-- `strings.TrimPrefix` by "86", on a text that has it.
abbrev trim_86 : Text → Text
trim_86 s = drop 2 s

unfoldable pub is_emergency_number : Text → Bool
unfolding has_prefix
is_emergency_number value =
    let normalized = digits_of value in
    member
      (if has_prefix (trim_space value) china_prefix && has_prefix normalized (codes "86")
        then trim_86 normalized
        else normalized)
      emergency_numbers

-- Without the country prefix the verdict is that of the digits alone, so separators, spaces and
-- other marks anywhere in the number neither hide an emergency number nor make one.
pub is_emergency_number_plain :
    (value : Text)
    → has_prefix (trim_space value) china_prefix ≡ false
    → is_emergency_number value ≡ member (digits_of value) emergency_numbers
unfolding is_emergency_number
is_emergency_number_plain value h = rw h refl

trim_prefixed : (t : Text) → (rest : Text) × (trim_space (china_prefix ++ t) ≡ china_prefix ++ rest)
unfolding trim_space is_space
trim_prefixed t =
    let (front, e) = trim_left_mark (reverse t) (b'8' ∷ b'+' ∷ []) b'6' refl in
    (
      reverse front,
      rw (reverse-append china_prefix t)
          (rw e (rw (reverse-append front (b'6' ∷ b'8' ∷ b'+' ∷ [])) refl)),
    )

-- A number written behind "+86" is judged by the digits behind the prefix.
pub is_emergency_number_china :
    (t : Text) → is_emergency_number (china_prefix ++ t) ≡ member (digits_of t) emergency_numbers
unfolding is_emergency_number
is_emergency_number_china t = let (rest, e) = trim_prefixed t in rw e refl
