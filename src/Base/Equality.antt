-- ===== src/Base/Equality.antt =====
-- `==` of Rust's `PartialEq`, for every type with decidable equality.
use Prim.Native.Nat.{ℕ}
use Prim.Native.String.{String}
use mathlib.Core.Path.{◌≡◌, refl}
use mathlib.Core.Logic.{◌↔◌, ◌≢◌}
use mathlib.Core.Bool.{Bool, true, false}
use mathlib.Core.List.{List, [], ◌∷◌}
use native.Mathlib.Decide.{ℕ_discrete}
use native.Mathlib.Omega.{arith}
use text.Mathlib.Text.{◌==◌ as str_eq}
use text.Mathlib.TextEquality.{eq_iff}

pub record Eq {ℓ} (A : Type ℓ) : Type ℓ where
  pub dec : Discrete A

abbrev pub holds {ℓ} : {P : Type ℓ} → Dec P → Bool
holds (yes _) = true
holds (no _) = false

infix 50 ◌==◌
abbrev pub ◌==◌ {ℓ} : {A : Type ℓ} ⦃e : Eq A⦄ → A → A → Bool
◌==◌ ⦃e⦄ a b = holds (e.dec a b)

holds_iff {ℓ} : {P : Type ℓ} (d : Dec P) → (holds d ≡ true) ↔ P
holds_iff (yes p) = (λ _. p, λ _. refl)
holds_iff (no f) = (λ h. cc, λ p. absurd (f p))

module _ {ℓ} {A : Type ℓ} ⦃e : Eq A⦄ where
  pub ==_iff : (a b : A) → ((a == b) ≡ true) ↔ (a ≡ b)
  ==_iff a b = holds_iff (e.dec a b)

  pub ==_refl : (a : A) → (a == a) ≡ true
  ==_refl a = (==_iff a a).1 refl

dec_of_iff : {P : Type 0} (b : Bool) → ((b ≡ true) ↔ P) → Dec P
dec_of_iff true h = yes (h.0 refl)
dec_of_iff false h = no (λ p. absurd (ground (arith, h.1 p)))

unfoldable pub String-discrete : Discrete String
unfolding dec_of_iff
String-discrete s t = dec_of_iff (str_eq s t) (eq_iff s t)

list_cons {ℓ} :
    {A : Type ℓ} {x y : A} {xs ys : List A} → Dec (x ≡ y) → Dec (xs ≡ ys) → Dec (x ∷ xs ≡ y ∷ ys)
list_cons (yes p) (yes q) = yes (λ i. p i ∷ q i)
list_cons (yes p) (no g) = no (λ e. g (ground (arith, e)))
list_cons (no f) d = no (λ e. f (ground (arith, e)))

nil-cons {ℓ} : {A : Type ℓ} {y : A} {ys : List A} → [] ≢ y ∷ ys
nil-cons e = absurd (ground (arith, e))

cons-nil {ℓ} : {A : Type ℓ} {x : A} {xs : List A} → x ∷ xs ≢ []
cons-nil e = absurd (ground (arith, e))

-- equality of lists that computes
unfoldable pub list_discrete {ℓ} : {A : Type ℓ} → Discrete A → Discrete (List A)
unfolding list_cons nil-cons cons-nil
list_discrete d [] [] = yes refl
list_discrete d [] (y ∷ ys) = no nil-cons
list_discrete d (x ∷ xs) [] = no cons-nil
list_discrete d (x ∷ xs) (y ∷ ys) = list_cons (d x y) (list_discrete d xs ys)

instance abbrev pub nat_eq : Eq ℕ
nat_eq = record { dec = ℕ_discrete }

instance abbrev pub string_eq : Eq String
string_eq = record { dec = String-discrete }
