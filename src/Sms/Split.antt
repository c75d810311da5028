-- ===== src/Sms/Split.antt =====
-- gateway/internal/sms/pdu.go: the parts of a long body.
pub mod Laws
use cell_bridge.Sms.Utf16.{utf16_length}
use cell_bridge.Sms.Gsm7.{gsm7_length, extension_code}
use cell_bridge.Base.{
  ℕ, Text, if◌then◌else◌, List, Bool, is_none, ◌∷◌, true, leb, [], false, ltb, ◌+◌, ◌&&◌, not, ◌++◌,
}

pub data Encoding : Type 0 where
  gsm7 ucs2 : Encoding

-- The cost of a rune in `splitBody`.
unfoldable pub rune_cost : Encoding → ℕ → ℕ
rune_cost gsm7 r = if is_none (extension_code r) then 1 else 2
rune_cost ucs2 r = if ltb 0xffff r then 2 else 1

-- The length that is compared to the limit of a single message.
unfoldable pub body_length : Encoding → Text → ℕ
body_length gsm7 body = gsm7_length body
body_length ucs2 body = utf16_length body

abbrev pub single_limit : Encoding → ℕ
single_limit gsm7 = 160
single_limit ucs2 = 70

abbrev pub part_limit : Encoding → ℕ
part_limit gsm7 = 153
part_limit ucs2 = 67

abbrev pub flush : Text → List Text → List Text
flush [] parts = parts
flush (c ∷ s) parts = (c ∷ s) ∷ parts

abbrev is_empty : Text → Bool
is_empty [] = true
is_empty (c ∷ s) = false

-- The loop over the runes; `current` and `size` are the part so far. The parts that follow it are
-- the result.
pub split_from : Encoding → Text → ℕ → Text → List Text
unfolding rune_cost
split_from e current size [] = flush current []
split_from e current size (r ∷ body) =
    let full = ltb (part_limit e) (size + rune_cost e r) && not (is_empty current) in
    let next = split_from e (r ∷ []) (rune_cost e r) body in
    let more = split_from e (current ++ r ∷ []) (size + rune_cost e r) body in
    if full then current ∷ next else more

-- `splitBody`.
unfoldable pub split_body : Text → Encoding → List Text
unfolding body_length split_from
split_body body e =
    if leb (body_length e body) (single_limit e) then body ∷ [] else split_from e [] 0 body
