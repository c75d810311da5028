-- ===== src/Dict.antt =====
-- Go maps, as association lists over an equality interface: a read, an assignment, `delete`.
-- Keys are compared as Go compares them, by value.
use cell_bridge.Base.{
  ◌≡◌, refl, ◌↔◌, Bool, true, List, [], ◌∷◌, Option, none, some, arith, ℕ, ◌==◌, ==_iff, Text,
  text_eq, text_eq_iff, if◌then◌else◌, Bool-cases, inl, inr, ◌≢◌, ◌∙◌,
}

pub record Eq {ℓ} (A : Type ℓ) : Type ℓ where
  pub beq : A → A → Bool
  pub beq_iff : (a b : A) → (beq a b ≡ true) ↔ (a ≡ b)

abbrev nat_beq : ℕ → ℕ → Bool
nat_beq a b = a == b

instance abbrev pub nat_key : Eq ℕ
nat_key = record { beq = nat_beq; beq_iff = ==_iff }

instance abbrev pub text_key : Eq Text
text_key = record { beq = text_eq; beq_iff = text_eq_iff }

abbrev pub Map {ℓ κ} : Type ℓ → Type κ → Type (ℓ ⊔ κ)
Map K V = List (K × V)

module _ {ℓ κ} {K : Type ℓ} {V : Type κ} ⦃e : Eq K⦄ where
  -- `v, ok := m[k]`.
  unfoldable pub find : K → Map K V → Option V
  find k [] = none
  find k ((j, v) ∷ m) = if e.beq j k then some v else find k m

  -- `delete(m, k)`.
  unfoldable pub delete : K → Map K V → Map K V
  delete k [] = []
  delete k ((j, v) ∷ m) = let rest = delete k m in if e.beq j k then rest else (j, v) ∷ rest

  -- `m[k] = v`.
  unfoldable pub assign : K → V → Map K V → Map K V
  unfolding delete
  assign k v m = (k, v) ∷ delete k m

  pub find-delete :
      (k j : K) (m : Map K V) → find j (delete k m) ≡ (if e.beq k j then none else find j m)
  unfolding find delete
  find-delete k j [] = elim (Bool-cases (e.beq k j)) [ inl p ↦ rw p refl | inr p ↦ rw p refl ]
  find-delete k j ((i, v) ∷ m) =
      ground (arith, e.beq_iff k j, e.beq_iff i k, e.beq_iff i j, find-delete k j m)

  pub find-assign :
      (k j : K) (v : V) (m : Map K V)
      → find j (assign k v m) ≡ (if e.beq k j then some v else find j m)
  unfolding find assign
  find-assign k j v m = ground (arith, find-delete k j m)

  -- Deleting a key that is not there changes nothing.
  pub delete_absent : (k : K) (m : Map K V) → find k m ≡ none → delete k m ≡ m
  unfolding find delete
  delete_absent k [] h = refl
  delete_absent k ((j, v) ∷ m) h = elim (Bool-cases (e.beq j k)) [
    | inl p ↦ ground arith
    | inr p ↦ ground (arith, delete_absent k m)
  ]

  -- An assignment to a fresh key is undone by `delete`.
  pub delete-assign_fresh :
      (k : K) (v : V) (m : Map K V) → find k m ≡ none → delete k (assign k v m) ≡ m
  unfolding delete assign
  delete-assign_fresh k v m h =
      ground (arith, e.beq_iff k k, delete_absent k m, delete_absent k (delete k m))

  pub find-assign_other : (k j : K) (v : V) (m : Map K V) → k ≢ j → find j (assign k v m) ≡ find j m
  find-assign_other k j v m ne = elim (Bool-cases (e.beq k j)) [
    | inl p ↦ absurd (ne ((e.beq_iff k j).0 p))
    | inr p ↦ find-assign k j v m ∙ rw p refl
  ]

  pub find-assign_self : (k : K) (v : V) (m : Map K V) → find k (assign k v m) ≡ some v
  find-assign_self k v m = ground (arith, find-assign k k v m, e.beq_iff k k)
