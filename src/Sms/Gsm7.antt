-- ===== src/Sms/Gsm7.antt =====
-- gateway/internal/sms/pdu.go: the GSM 03.38 alphabet. A body is the list of its runes.
pub mod Table
pub mod RoundTrip
use cell_bridge.Base.{
  Text, List, ℕ, Option, codes, ◌∷◌, none, Bool, if◌then◌else◌, some, ◌++◌, [], ◌+◌, ◌==◌, not,
  true, is_none, ltb, ◌||◌, ◌&&◌, length, get_or,
}

-- `gsm7Alphabet`.
unfoldable pub gsm7_alphabet : Text
gsm7_alphabet =
    codes "@£$¥èéùìòÇ\nØø\rÅåΔ_ΦΓΛΩΠΨΣΘΞ"
    ++ (0x1b
        ∷ codes
            "ÆæßÉ !\"#¤%&'()*+,-./0123456789:;<=>?¡ABCDEFGHIJKLMNOPQRSTUVWXYZÄÖÑÜ§¿abcdefghijklmnopqrstuvwxyzäöñüà")

-- `gsm7Extension`.
abbrev pub gsm7_extension : List (ℕ × ℕ)
gsm7_extension =
    (b'^', 0x14)
    ∷ (b'{', 0x28)
    ∷ (b'}', 0x29)
    ∷ (b'\\', 0x2f)
    ∷ (b'[', 0x3c)
    ∷ (b'~', 0x3d)
    ∷ (b']', 0x3e)
    ∷ (b'|', 0x40)
    ∷ (0x20ac, 0x65)
    ∷ []

-- The index that the loop of `gsm7Reverse` stores last for a rune.
pub last_index : ℕ → Text → ℕ → Option ℕ
last_index c [] i = none
last_index c (v ∷ vs) i = elim (last_index c vs (i + 1)) [
  | some j ↦ some j
  | none ↦ if v == c then some i else none
]

-- `gsm7Reverse[c]`.
unfoldable pub gsm7_reverse : ℕ → Option ℕ
unfolding last_index
gsm7_reverse c = last_index c gsm7_alphabet 0

-- `gsm7Extension[c]`.
pub extension_in : ℕ → List (ℕ × ℕ) → Option ℕ
extension_in c [] = none
extension_in c ((d, k) ∷ m) = if d == c then some k else extension_in c m

unfoldable pub extension_code : ℕ → Option ℕ
unfolding extension_in
extension_code c = extension_in c gsm7_extension

abbrev pub encodes : ℕ → Bool
encodes c = not (is_none (gsm7_reverse c)) || not (is_none (extension_code c))

-- `CanEncodeGSM7`.
unfoldable pub can_encode_gsm7 : Text → Bool
can_encode_gsm7 [] = true
can_encode_gsm7 (c ∷ body) = encodes c && can_encode_gsm7 body

-- The septets that `GSM7Length` counts for a rune.
unfoldable pub gsm7_cost : ℕ → ℕ
gsm7_cost c = if is_none (extension_code c) then 1 else 2

-- `GSM7Length`.
unfoldable pub gsm7_length : Text → ℕ
unfolding gsm7_cost
gsm7_length [] = 0
gsm7_length (c ∷ body) = gsm7_cost c + gsm7_length body

abbrev pub code_or : Option ℕ → ℕ → ℕ
code_or none d = d
code_or (some k) d = k

-- What `encodeGSM7` appends for a rune. A missing map entry reads as 0.
pub septets_of : ℕ → List ℕ
septets_of c = elim (gsm7_reverse c) [
  | some k ↦ k ∷ []
  | none ↦ 0x1b ∷ code_or (extension_code c) 0 ∷ []
]

-- `encodeGSM7`.
unfoldable pub encode_gsm7 : Text → List ℕ
unfolding septets_of
encode_gsm7 [] = []
encode_gsm7 (c ∷ body) = septets_of c ++ encode_gsm7 body

-- The character of an extension code: the codes of the map are distinct, so its order is free.
pub extension_char_in : ℕ → List (ℕ × ℕ) → Text
extension_char_in k [] = []
extension_char_in k ((d, j) ∷ m) = if j == k then d ∷ [] else extension_char_in k m

pub extension_char : ℕ → Text
unfolding extension_char_in
extension_char k = extension_char_in k gsm7_extension

-- A septet that is no escape; nothing is written beyond the alphabet.
pub plain_char : ℕ → Text
plain_char v = if ltb v (length gsm7_alphabet) then get_or gsm7_alphabet v 0 ∷ [] else []

-- `decodeGSM7`.
unfoldable pub decode_gsm7 : List ℕ → Text
unfolding extension_char plain_char
decode_gsm7 [] = []
decode_gsm7 (v ∷ []) = plain_char v
decode_gsm7 (v ∷ w ∷ vs) =
    let escaped = extension_char w ++ decode_gsm7 vs in
    let plain = plain_char v ++ decode_gsm7 (w ∷ vs) in if v == 0x1b then escaped else plain
