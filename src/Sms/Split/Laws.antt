-- ===== src/Sms/Split/Laws.antt =====
-- The parts make up the body, and each fits its message.
use mathlib.Core.List.{append-nil, append_assoc}
use cell_bridge.Sms.Split.{
  Encoding, split_from, split_body, rune_cost, flush, part_limit, gsm7, body_length, ucs2,
  single_limit, is_empty,
}
use cell_bridge.Base.{
  List, Text, ◌∷◌, ℕ, ◌≡◌, ◌++◌, ◌≤◌, [], ◌+◌, ◌∙◌, Bool-cases, arith, sym, leb, ◌≢◌, All, refl,
  ltb, ◌&&◌, not, inl, inr, ap, false,
}

abbrev pub join : List Text → Text
join [] = []
join (p ∷ parts) = p ++ join parts

-- The cost of a whole part.
unfoldable pub part_cost : Encoding → Text → ℕ
part_cost e [] = 0
part_cost e (r ∷ s) = rune_cost e r + part_cost e s

join-flush : (current : Text) → join (flush current []) ≡ current
join-flush [] = refl
join-flush (c ∷ s) = append-nil (c ∷ s)

join-split_from :
    (e : Encoding) (body current : Text) (size : ℕ)
    → join (split_from e current size body) ≡ current ++ body
unfolding split_from
join-split_from e [] current size = join-flush current ∙ sym (append-nil current)
join-split_from e (r ∷ body) current size =
    elim (Bool-cases (ltb (part_limit e) (size + rune_cost e r) && not (is_empty current))) [
      | inl p ↦ rw p (ap (λ t. current ++ t) (join-split_from e body (r ∷ []) (rune_cost e r)))
      | inr p ↦ rw p (
          join-split_from e body (current ++ r ∷ []) (size + rune_cost e r)
          ∙ append_assoc current (r ∷ []) body)
    ]

-- The parts of a body, joined in their order, are the body: nothing is lost, added or moved.
pub join-split_body : (body : Text) (e : Encoding) → join (split_body body e) ≡ body
unfolding split_body
join-split_body body e = elim (Bool-cases (leb (body_length e body) (single_limit e))) [
  | inl p ↦ rw p (append-nil body)
  | inr p ↦ rw p (join-split_from e body [] 0)
]

part_cost-append :
    (e : Encoding) (s t : Text) → part_cost e (s ++ t) ≡ part_cost e s + part_cost e t
unfolding part_cost
part_cost-append e [] t = omega arith
part_cost-append e (r ∷ s) t = omega (arith, part_cost-append e s t)

rune_cost_le : (e : Encoding) (r : ℕ) → rune_cost e r ≤ 2
unfolding rune_cost
rune_cost_le gsm7 r = ground arith
rune_cost_le ucs2 r = ground arith

limit_room : (e : Encoding) → 2 ≤ part_limit e
limit_room gsm7 = omega arith
limit_room ucs2 = omega arith

abbrev pub Fits : Encoding → Text → Type 0
Fits e part = (part_cost e part ≤ part_limit e) × (part ≢ [])

flush-Fits :
    (e : Encoding) (current : Text)
    → part_cost e current ≤ part_limit e
    → All (Fits e) (flush current [])
flush-Fits e [] h = tt
flush-Fits e (c ∷ s) h = ((h, λ q. cc q), tt)

pub split_from-Fits :
    (e : Encoding) (body current : Text) (size : ℕ)
    → size ≡ part_cost e current
    → size ≤ part_limit e
    → All (Fits e) (split_from e current size body)
unfolding split_from
split_from-Fits e [] current size s h = flush-Fits e current (omega arith)
split_from-Fits e (r ∷ body) current size s h =
    elim (Bool-cases (ltb (part_limit e) (size + rune_cost e r) && not (is_empty current))) [
      | inl p ↦ rw p (
        (omega arith, λ q. ground arith),
        split_from-Fits e body (r ∷ []) (rune_cost e r) (unfold part_cost in omega arith)
            (omega (arith, rune_cost_le e r, limit_room e)),
      )
      | inr p ↦ rw p (
          split_from-Fits e body (current ++ r ∷ []) (size + rune_cost e r)
            (unfold part_cost in omega (arith, part_cost-append e current (r ∷ [])))
            (below e current size r s p))
    ]
  where
    below :
        (e : Encoding) (current : Text) (size r : ℕ)
        → size ≡ part_cost e current
        → (ltb (part_limit e) (size + rune_cost e r) && not (is_empty current)) ≡ false
        → size + rune_cost e r ≤ part_limit e
    below e [] size r s p = unfold part_cost in omega (arith, rune_cost_le e r, limit_room e)
    below e (c ∷ t) size r s p = ground arith
