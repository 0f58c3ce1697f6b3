-- ===== src/Base/Index.antt =====
-- A table whose rows are numbered from `base`, beside a map from keys to row numbers: the way both
-- pprof builders intern strings, functions, locations and samples.
use Prim.Native.Nat.{ℕ, suc, ◌+◌, ◌≤◌, ◌<◌}
use mathlib.Core.Path.{◌≡◌, refl, sym, ap, ◌∙◌}
use mathlib.Core.Bool.{true, false}
use mathlib.Core.Logic.{◌⊎◌, inl, inr}
use mathlib.Core.List.{List, [], ◌∷◌, ◌++◌}
use mathlib.Core.Option.{none, some}
use native.Mathlib.Omega.{arith}
use pyroscope_rs.Base.Equality.{Eq, nat_eq, ◌==◌, ==_iff}
use pyroscope_rs.Base.Lists.{
  length, get_elem?, set, get_elem?-append_left, get_elem?-append_length, get_elem?-set,
  get_elem?-set_self, get_elem?-set_ne, get_elem?-lt,
}
use pyroscope_rs.Base.Map.{Map, get, insert, get-insert}
use pyroscope_rs.Base.Booleans.{Bool-cases}

module _ {ℓ} {V : Type ℓ} where
  -- A row of an extended table is an old row, or the new one at the end.
  pub get_elem?-push :
      (xs : List V) (a : V) (i : ℕ) {v : V}
      → get_elem? (xs ++ a ∷ []) i ≡ some v
      → (get_elem? xs i ≡ some v) ⊎ ((i ≡ length xs) × (v ≡ a))
  get_elem?-push [] a Prim.Native.Nat.ℕ.zero h = inr (refl, ground arith)
  get_elem?-push [] a (suc i) h = cc
  get_elem?-push (x ∷ xs) a Prim.Native.Nat.ℕ.zero h = inl h
  get_elem?-push (x ∷ xs) a (suc i) h = elim (get_elem?-push xs a i h) [
    | inl old ↦ inl old
    | inr (e, same) ↦ inr (ap suc e, same)
  ]

-- What holds of every old row and of the new one holds of every row.
pub rows-push {ℓ κ} :
    {V : Type ℓ} (P : ℕ → V → Type κ) (xs : List V) (a : V)
    → ((i : ℕ) (v : V) → get_elem? xs i ≡ some v → P i v)
    → P (length xs) a
    → (i : ℕ) (v : V) → get_elem? (xs ++ a ∷ []) i ≡ some v
    → P i v
rows-push P xs a old new i v h = elim (get_elem?-push xs a i h) [
  | inl there ↦ old i v there
  | inr (end, same) ↦ rw (end, same) new
]

module _ {ℓ} {K V : Type ℓ} ⦃e : Eq K⦄ (key : V → K) (base : ℕ) where
  -- The row numbered `n` has the key `k`.
  abbrev pub Row : List V → K → ℕ → Type ℓ
  Row items k n = (i : ℕ) × (v : V) × (n ≡ i + base) × (get_elem? items i ≡ some v) × (key v ≡ k)

  pub record IsIndex (items : List V) (index : Map K ℕ) : Type ℓ where
    pub sound : (k : K) (n : ℕ) → get k index ≡ some n → Row items k n
    pub complete :
        (i : ℕ) (v : V) → get_elem? items i ≡ some v → get (key v) index ≡ some (i + base)

  pub IsIndex-empty : IsIndex [] []
  unfolding get
  IsIndex-empty = record { sound = λ k n h. cc; complete = λ i v h. cc }

  module _ {items : List V} {index : Map K ℕ} (valid : IsIndex items index) where
    -- A key is at one row only.
    pub IsIndex-injective :
        (i j : ℕ) (v w : V)
        → get_elem? items i ≡ some v
        → get_elem? items j ≡ some w
        → key v ≡ key w
        → i ≡ j
    IsIndex-injective i j v w p q same = ground (arith, valid.complete i v p, valid.complete j w q)

    -- A row with a new key is numbered by the length of the table.
    pub IsIndex-push :
        (v : V) (m : ℕ)
        → m ≡ length items + base
        → get (key v) index ≡ none
        → IsIndex (items ++ v ∷ []) (insert (key v) m index)
    IsIndex-push v m number fresh = record {
      sound = λ k n h. push_sound k n (Bool-cases (k == key v)) h;
      complete = λ i w h. push_complete i w (get_elem?-push items v i h);
    }
      where
        push_sound :
            (k : K) (n : ℕ)
            → ((k == key v) ≡ true) ⊎ ((k == key v) ≡ false)
            → get k (insert (key v) m index) ≡ some n
            → Row (items ++ v ∷ []) k n
        push_sound k n (inl here) h = (
          length items,
          v,
          ground (arith, get-insert (key v) k m index),
          get_elem?-append_length items v (length items) refl,
          sym ((==_iff k (key v)).0 here),
        )
        push_sound k n (inr there) h =
            let old : get k index ≡ some n = rw (get-insert (key v) k, there) at h in
            let (i, w, p, q, r) = valid.sound k n old in
            (i, w, p, get_elem?-append_left items (v ∷ []) i q, r)

        push_complete :
            (i : ℕ) (w : V)
            → (get_elem? items i ≡ some w) ⊎ ((i ≡ length items) × (w ≡ v))
            → get (key w) (insert (key v) m index) ≡ some (i + base)
        push_complete i w (inl old) = ground (
          arith,
          get-insert (key v) (key w) m index,
          ==_iff (key w) (key v),
          valid.complete i w old,
        )
        push_complete i w (inr (end, same)) =
            ground (arith, get-insert (key v) (key w) m index, ==_iff (key w) (key v))

    -- A row may be replaced by one with its key.
    pub IsIndex-set :
        (i : ℕ) (v w : V)
        → get_elem? items i ≡ some v
        → key w ≡ key v
        → IsIndex (set items i w) index
    IsIndex-set i v w at_i same = record {
      sound = λ k n h. set_sound k n (valid.sound k n h);
      complete = λ j u h. set_complete j u (get_elem?-set items i j w h);
    }
      where
        set_sound : (k : K) (n : ℕ) → Row items k n → Row (set items i w) k n
        set_sound k n (j, u, number, at_j, its_key) = elim (Bool-cases (i == j)) [
          | inl here ↦
              let e : i ≡ j = (==_iff i j).0 here in
              let e' : some v ≡ some u = sym at_i ∙ ap (get_elem? items) e ∙ at_j in
              let f : v ≡ u = ground (arith, e') in
              (
                i,
                w,
                omega arith,
                get_elem?-set_self items i w (get_elem?-lt items i at_i),
                same ∙ ap key f ∙ its_key,
              )
          | inr there ↦ (
            j,
            u,
            number,
            get_elem?-set_ne items i j w (λ e. ground (arith, ==_iff i j, e)) ∙ at_j,
            its_key,
          )
        ]

        set_complete :
            (j : ℕ) (u : V)
            → ((j ≡ i) × (u ≡ w)) ⊎ (get_elem? items j ≡ some u)
            → get (key u) index ≡ some (j + base)
        set_complete j u (inl (e, new)) = rw (new, same, e) (valid.complete i v at_i)
        set_complete j u (inr old) = valid.complete j u old
