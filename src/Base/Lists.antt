-- ===== src/Base/Lists.antt =====
-- Lists measured and indexed by native numbers, under the library's names.
use Prim.Native.Nat.{ℕ, zero, suc, ◌+◌, ◌<◌}
use mathlib.Core.Path.{◌≡◌, refl, ap}
use mathlib.Core.Logic.{◌≢◌, ◌⊎◌, inl, inr}
use mathlib.Core.List.{List, [], ◌∷◌, ◌++◌}
use mathlib.Core.Option.{Option, none, some}
use native.Mathlib.Omega.{arith}

module _ {ℓ} {A : Type ℓ} where
  abbrev pub length : List A → ℕ
  length [] = 0
  length (x ∷ xs) = suc (length xs)

  abbrev pub get_elem? : List A → ℕ → Option A
  get_elem? [] i = none
  get_elem? (x ∷ xs) zero = some x
  get_elem? (x ∷ xs) (suc i) = get_elem? xs i

  -- A write out of bounds changes nothing.
  abbrev pub set : List A → ℕ → A → List A
  set [] i v = []
  set (x ∷ xs) zero v = v ∷ xs
  set (x ∷ xs) (suc i) v = x ∷ set xs i v

  abbrev pub take : ℕ → List A → List A
  take zero xs = []
  take (suc n) [] = []
  take (suc n) (x ∷ xs) = x ∷ take n xs

  abbrev pub drop : ℕ → List A → List A
  drop zero xs = xs
  drop (suc n) [] = []
  drop (suc n) (x ∷ xs) = drop n xs

module _ {ℓ} {A : Type ℓ} where
  pub length-append : (xs ys : List A) → length (xs ++ ys) ≡ length xs + length ys
  length-append [] ys = omega arith
  length-append (x ∷ xs) ys = omega (arith, length-append xs ys)

  pub get_elem?-append_left :
      (xs ys : List A) (i : ℕ) {a : A} → get_elem? xs i ≡ some a → get_elem? (xs ++ ys) i ≡ some a
  get_elem?-append_left [] ys i h = cc
  get_elem?-append_left (x ∷ xs) ys zero h = h
  get_elem?-append_left (x ∷ xs) ys (suc i) h = get_elem?-append_left xs ys i h

  pub get_elem?-append_length :
      (xs : List A) (a : A) (n : ℕ) → n ≡ length xs → get_elem? (xs ++ a ∷ []) n ≡ some a
  get_elem?-append_length [] a zero h = refl
  get_elem?-append_length [] a (suc n) h = absurd (omega arith)
  get_elem?-append_length (x ∷ xs) a zero h = absurd (omega arith)
  get_elem?-append_length (x ∷ xs) a (suc n) h = get_elem?-append_length xs a n (omega arith)

  -- Of a list with one element more, an element is an old one or the new one.
  pub get_elem?-lt : (xs : List A) (i : ℕ) {a : A} → get_elem? xs i ≡ some a → i < length xs
  get_elem?-lt [] i h = cc
  get_elem?-lt (x ∷ xs) zero h = omega arith
  get_elem?-lt (x ∷ xs) (suc i) h = omega (arith, get_elem?-lt xs i h)

  pub get_elem?-some : (xs : List A) (i : ℕ) → i < length xs → (a : A) × (get_elem? xs i ≡ some a)
  get_elem?-some [] i h = absurd (omega arith)
  get_elem?-some (x ∷ xs) zero h = (x, refl)
  get_elem?-some (x ∷ xs) (suc i) h = get_elem?-some xs i (omega arith)

  pub length-set : (xs : List A) (i : ℕ) (v : A) → length (set xs i v) ≡ length xs
  length-set [] i v = refl
  length-set (x ∷ xs) zero v = refl
  length-set (x ∷ xs) (suc i) v = ap suc (length-set xs i v)

  pub get_elem?-set_self :
      (xs : List A) (i : ℕ) (v : A) → i < length xs → get_elem? (set xs i v) i ≡ some v
  get_elem?-set_self [] i v h = elim h [ ]
  get_elem?-set_self (x ∷ xs) zero v h = refl
  get_elem?-set_self (x ∷ xs) (suc i) v h = get_elem?-set_self xs i v (omega arith)

  pub get_elem?-set_ne :
      (xs : List A) (i j : ℕ) (v : A) → i ≢ j → get_elem? (set xs i v) j ≡ get_elem? xs j
  get_elem?-set_ne [] i j v h = refl
  get_elem?-set_ne (x ∷ xs) zero zero v h = absurd (h refl)
  get_elem?-set_ne (x ∷ xs) zero (suc j) v h = refl
  get_elem?-set_ne (x ∷ xs) (suc i) zero v h = refl
  get_elem?-set_ne (x ∷ xs) (suc i) (suc j) v h = get_elem?-set_ne xs i j v (λ e. h (ap suc e))

  -- Every element of the first list stands at the same place in the second.
  abbrev pub Extends : List A → List A → Type ℓ
  Extends xs ys = (i : ℕ) (a : A) → get_elem? xs i ≡ some a → get_elem? ys i ≡ some a

  pub Extends-append : (xs ys : List A) → Extends xs (xs ++ ys)
  Extends-append xs ys i a h = get_elem?-append_left xs ys i h

  pub Extends-refl : (xs : List A) → Extends xs xs
  Extends-refl xs i a h = h

  -- The element at a number that counts from 1.
  unfoldable pub row : List A → ℕ → Option A
  row xs zero = none
  row xs (suc n) = get_elem? xs n

  pub row-Extends :
      (xs ys : List A) (n : ℕ) {a : A} → Extends xs ys → row xs n ≡ some a → row ys n ≡ some a
  unfolding row
  row-Extends xs ys zero ext h = cc
  row-Extends xs ys (suc n) ext h = ext n _ h

  pub row-get_elem? : (xs : List A) (n i : ℕ) → n ≡ i + 1 → row xs n ≡ get_elem? xs i
  unfolding row
  row-get_elem? xs zero i h = absurd (omega arith)
  row-get_elem? xs (suc n) i h = let e : n ≡ i = omega arith in ap (get_elem? xs) e

  pub row-eq_some :
      (xs : List A) (n : ℕ) {a : A}
      → row xs n ≡ some a
      → (i : ℕ) × (n ≡ i + 1) × (get_elem? xs i ≡ some a)
  unfolding row
  row-eq_some xs zero h = cc
  row-eq_some xs (suc n) h = (n, omega arith, h)

  -- A row of an updated table is the new one, or an old one elsewhere.
  pub get_elem?-set :
      (xs : List A) (i j : ℕ) (v : A) {w : A}
      → get_elem? (set xs i v) j ≡ some w
      → ((j ≡ i) × (w ≡ v)) ⊎ (get_elem? xs j ≡ some w)
  get_elem?-set [] i j v h = inr h
  get_elem?-set (x ∷ xs) zero zero v h = inl (refl, ground (arith, h))
  get_elem?-set (x ∷ xs) zero (suc j) v h = inr h
  get_elem?-set (x ∷ xs) (suc i) zero v h = inr h
  get_elem?-set (x ∷ xs) (suc i) (suc j) v h = elim (get_elem?-set xs i j v h) [
    | inl (e, same) ↦ inl (ap suc e, same)
    | inr old ↦ inr old
  ]

  pub take-nil : (n : ℕ) → take {A = A} n [] ≡ []
  take-nil zero = refl
  take-nil (suc n) = refl

  -- The element after a prefix.
  pub set-append_length :
      (xs : List A) (x y : A) (ys : List A) (n : ℕ)
      → n ≡ length xs
      → set (xs ++ x ∷ ys) n y ≡ xs ++ y ∷ ys
  set-append_length [] x y ys zero h = refl
  set-append_length [] x y ys (suc n) h = absurd (omega arith)
  set-append_length (z ∷ xs) x y ys zero h = absurd (omega arith)
  set-append_length (z ∷ xs) x y ys (suc n) h = rw (set-append_length xs x y ys n (omega arith))

-- A predicate of every element.
abbrev pub All {ℓ κ} : {A : Type ℓ} → (A → Type κ) → List A → Type κ
All P [] = Unit
All P (x ∷ xs) = P x × All P xs
