-- ===== src/Base/Map.antt =====
-- `HashMap` as an association list. The order of the list stands for the iteration order, which the
-- program leaves open.
use Prim.Native.Nat.{suc}
use mathlib.Core.Path.{◌≡◌, refl, ap, ◌∙◌}
use mathlib.Core.Logic.{inl, inr}
use mathlib.Core.List.{List, [], ◌∷◌, map}
use mathlib.Core.Option.{Option, none, some}
use native.Mathlib.Omega.{arith}
use pyroscope_rs.Base.Equality.{Eq, ◌==◌, ==_iff}
use pyroscope_rs.Base.Lists.{length}
use pyroscope_rs.Base.Booleans.{if◌then◌else◌, Bool-cases}

abbrev pub Map {ℓ κ} : Type ℓ → Type κ → Type (ℓ ⊔ κ)
Map K V = List (K × V)

module _ {ℓ κ} {K : Type ℓ} {V : Type κ} ⦃e : Eq K⦄ where
  -- `HashMap::get`
  unfoldable pub get : K → Map K V → Option V
  get k [] = none
  get k ((j, v) ∷ m) = if k == j then some v else get k m

  -- `HashMap::insert`
  unfoldable pub insert : K → V → Map K V → Map K V
  insert k v [] = (k, v) ∷ []
  insert k v ((j, w) ∷ m) = if k == j then (j, v) ∷ m else (j, w) ∷ insert k v m

  pub get-insert :
      (k j : K) (v : V) (m : Map K V) → get j (insert k v m) ≡ (if j == k then some v else get j m)
  unfolding get insert
  get-insert k j v [] = refl
  get-insert k j v ((i, w) ∷ m) =
      ground (arith, ==_iff k j, ==_iff j k, ==_iff k i, ==_iff j i, get-insert k j v m)

  -- A new key adds one entry.
  pub length-insert :
      (k : K) (v : V) (m : Map K V) → get k m ≡ none → length (insert k v m) ≡ suc (length m)
  unfolding get insert
  length-insert k v [] h = refl
  length-insert k v ((i, w) ∷ m) h = ground (arith, length-insert k v m)

  -- If every entry of `m` is found in `n`, what `get` finds in `m` it finds in `n`.
  pub get-submap :
      (m n : Map K V) (k : K) {x : V}
      → map (λ (entry : K × V). get entry.0 n) m ≡ map (λ (entry : K × V). some entry.1) m
      → get k m ≡ some x
      → get k n ≡ some x
  unfolding get
  get-submap [] n k found h = cc
  get-submap ((j, w) ∷ m) n k found h =
      let head : get j n ≡ some w = ground (arith, found) in
      let tail : map (λ (entry : K × V). get entry.0 n) m
          ≡ map (λ (entry : K × V). some entry.1) m =
        ground (arith, found) in
      elim (Bool-cases (k == j)) [
        | inl here ↦
            let e : w ≡ _ = ground (arith, rw here at h) in
            rw ((==_iff k j).0 here) (head ∙ ap some e)
        | inr there ↦ get-submap m n k tail (rw there at h)
      ]
