-- ===== src/Base/Lists.antt =====
-- Lists measured and indexed by native numbers, under the library's names.
use Prim.Native.Nat.{ℕ, zero, suc, ◌+◌, ◌-◌, ◌≤◌, min}
use mathlib.Core.Path.{◌≡◌, refl, ap, ◌∙◌, sym}
use mathlib.Core.List.{List, [], ◌∷◌, ◌++◌, map}
use mathlib.Core.Logic.{◌⊎◌, inl, inr}
use mathlib.Core.Option.{Option, none, some}
use native.Mathlib.Omega.{arith}

module _ {ℓ} {A : Type ℓ} where
  abbrev pub length : List A → ℕ
  length [] = 0
  length (x ∷ xs) = suc (length xs)

  abbrev pub get_elem? : List A → ℕ → Option A
  get_elem? [] i = none
  get_elem? (x ∷ xs) zero = some x
  get_elem? (x ∷ xs) (suc i) = get_elem? xs i

  abbrev pub get_or : List A → ℕ → A → A
  get_or [] i d = d
  get_or (x ∷ xs) zero d = x
  get_or (x ∷ xs) (suc i) d = get_or xs i d

  abbrev pub take : ℕ → List A → List A
  take zero xs = []
  take (suc n) [] = []
  take (suc n) (x ∷ xs) = x ∷ take n xs

  abbrev pub drop : ℕ → List A → List A
  drop zero xs = xs
  drop (suc n) [] = []
  drop (suc n) (x ∷ xs) = drop n xs

  abbrev pub replicate : ℕ → A → List A
  replicate zero a = []
  replicate (suc n) a = a ∷ replicate n a

  pub length-append : (xs ys : List A) → length (xs ++ ys) ≡ length xs + length ys
  length-append [] ys = omega arith
  length-append (x ∷ xs) ys = omega (arith, length-append xs ys)

  pub length-drop : (n : ℕ) (xs : List A) → length (drop n xs) ≡ length xs - n
  length-drop zero xs = omega arith
  length-drop (suc n) [] = omega arith
  length-drop (suc n) (x ∷ xs) = omega (arith, length-drop n xs)

  pub length-take : (n : ℕ) (xs : List A) → length (take n xs) ≡ min n (length xs)
  length-take zero xs = omega arith
  length-take (suc n) [] = omega arith
  length-take (suc n) (x ∷ xs) = omega (arith, length-take n xs)

  pub length-replicate : (n : ℕ) (a : A) → length (replicate n a) ≡ n
  length-replicate zero a = refl
  length-replicate (suc n) a = ap suc (length-replicate n a)

  pub drop_shorter : (n : ℕ) (xs ys : List A) → n ≤ length xs → drop n (xs ++ ys) ≡ drop n xs ++ ys
  drop_shorter zero xs ys h = refl
  drop_shorter (suc n) [] ys h = absurd (omega arith)
  drop_shorter (suc n) (x ∷ xs) ys h = drop_shorter n xs ys (omega arith)

  pub drop_nil : (m k : ℕ) → ◌≡◌ {A = List A} (drop m []) (drop k [])
  drop_nil zero zero = refl
  drop_nil zero (suc k) = refl
  drop_nil (suc m) zero = refl
  drop_nil (suc m) (suc k) = refl

  pub drop-drop : (m n : ℕ) (xs : List A) → drop m (drop n xs) ≡ drop (n + m) xs
  drop-drop m zero xs = let same : 0 + m ≡ m = omega arith in rw same refl
  drop-drop m (suc n) [] = drop_nil m (suc n + m)
  drop-drop m (suc n) (x ∷ xs) =
      let same : suc n + m ≡ suc (n + m) = omega arith in rw same (drop-drop m n xs)

  -- A property of every element.
  abbrev pub All {κ} : (A → Type κ) → List A → Type κ
  All P [] = Unit
  All P (x ∷ xs) = P x × All P xs

  pub All-append {κ} : (P : A → Type κ) (xs ys : List A) → All P xs → All P ys → All P (xs ++ ys)
  All-append P [] ys h k = k
  All-append P (x ∷ xs) ys h k = (h.0, All-append P xs ys h.1 k)

  pub All-front {κ} : (P : A → Type κ) (xs ys : List A) → All P (xs ++ ys) → All P xs
  All-front P [] ys h = tt
  All-front P (x ∷ xs) ys h = (h.0, All-front P xs ys h.1)

  pub All-back {κ} : (P : A → Type κ) (xs ys : List A) → All P (xs ++ ys) → All P ys
  All-back P [] ys h = h
  All-back P (x ∷ xs) ys h = All-back P xs ys h.1

  pub All-both {κ} :
      (P Q : A → Type κ) (xs : List A) → All P xs → All Q xs → All (λ x. P x × Q x) xs
  All-both P Q [] h k = tt
  All-both P Q (x ∷ xs) h k = ((h.0, k.0), All-both P Q xs h.1 k.1)

pub length-map {ℓ κ} :
    {A : Type ℓ} {B : Type κ} (xs : List A) (f : A → B) → length (map f xs) ≡ length xs
length-map [] f = refl
length-map (x ∷ xs) f = ap suc (length-map xs f)

-- An empty list, or an element in front of one.
pub List-cases {ℓ} :
    {A : Type ℓ} (xs : List A) → (xs ≡ []) ⊎ ((x : A) × (rest : List A) × (xs ≡ x ∷ rest))
List-cases [] = inl refl
List-cases (x ∷ rest) = inr (x, rest, refl)

-- The front of a list that is padded does not see how far.
pub take-padded {ℓ} :
    {A : Type ℓ} (n m : ℕ) (a : A) (xs : List A)
    → n ≤ m
    → take n (xs ++ replicate (suc m) a) ≡ take n (xs ++ replicate m a)
take-padded zero m a xs h = refl
take-padded (suc n) zero a xs h = absurd (omega (arith, h))
take-padded (suc n) (suc m) a [] h = ap (λ t. a ∷ t) (take-padded n m a [] (omega (arith, h)))
take-padded (suc n) (suc m) a (x ∷ xs) h =
    ap (λ t. x ∷ t) (take-padded n (suc m) a xs (omega (arith, h)))

take_nil {ℓ} : {A : Type ℓ} (n : ℕ) → ◌≡◌ {A = List A} (take n []) []
take_nil zero = refl
take_nil (suc n) = refl

-- A front, and the front of what is behind it.
pub take-take {ℓ} :
    {A : Type ℓ} (n m : ℕ) (xs : List A)
    → take n xs ++ take m (drop (length (take n xs)) xs) ≡ take (n + m) xs
take-take zero m xs = ap (λ k. take k xs) (omega arith)
take-take (suc n) m [] = take_nil m ∙ sym (take_nil (suc n + m))
take-take (suc n) m (x ∷ xs) =
    let same : suc n + m ≡ suc (n + m) = omega arith in rw same (ap (λ t. x ∷ t) (take-take n m xs))
