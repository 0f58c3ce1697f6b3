-- ===== src/Encode/Rows.antt =====
-- A row added to a table of src/encode/pprof.rs.
use pyroscope_rs.Base.{
  ℕ, ◌+◌, ◌≡◌, refl, ap, subst, ◌∙◌, List, [], ◌∷◌, ◌++◌, some, length, arith, Eq, Option-cases,
  inl, inr, ◌⊎◌, get_elem?, get_elem?-append_length, Extends, Extends-refl, Extends-append,
  length-append, ne→eqb,
}
use pyroscope_rs.Base.Map
use pyroscope_rs.Base.Map.{Map, length-insert}
use pyroscope_rs.Base.Index.{IsIndex, IsIndex-push, get_elem?-push}
use pyroscope_rs.Encode.{add_row}

module _ {K V : Type 0} ⦃e : Eq K⦄ (key_of : V → K) (base : ℕ) where
  pub record IsTable (items : List V) (index : Map K ℕ) : Type 0 where
    pub valid : IsIndex key_of base items index
    pub size : length index ≡ length items

  -- The table after a row was looked up or added: the number found leads to a row with the key, and the
  -- old rows stay where they are.
  pub record AddsRow (key : K) (make : ℕ → V) (items : List V) (r : ℕ × Map K ℕ × List V)
      : Type 0 where
    pub table : IsTable r.2 r.1
    pub extends : Extends items r.2
    pub place : ℕ
    pub number : r.0 ≡ place + base
    pub value : V
    pub at_place : get_elem? r.2 place ≡ some value
    pub same_key : key_of value ≡ key
    pub rows :
        (i : ℕ) (v : V)
        → get_elem? r.2 i ≡ some v
        → (get_elem? items i ≡ some v) ⊎ (v ≡ make (i + base))

  pub add_row-AddsRow :
      (key : K) (make : ℕ → V) (items : List V) (index : Map K ℕ)
      → IsTable items index
      → ((id : ℕ) → key_of (make id) ≡ key)
      → (r : ℕ × Map K ℕ × List V) × (add_row base key make index items ≡ some r)
        × AddsRow key make items r
  unfolding add_row
  add_row-AddsRow key make items index t made = elim (Option-cases (Map.get key index)) [
    | inr (n, hit) ↦
        let (i, v, number, at_i, same) = t.valid.sound key n hit in
        (
          (n, index, items),
          rw (hit, add_row),
          record {
            table = t;
            extends = Extends-refl items;
            place = i;
            number = number;
            value = v;
            at_place = at_i;
            same_key = same;
            rows = λ j w h. inl h;
          },
        )
    | inl fresh ↦
        let id = length index + base in
        let v = make id in
        let size = t.size in
        let k = made id in
        (
          (id, Map.insert key id index, items ++ v ∷ []),
          rw (fresh, add_row, ne→eqb (length index) (length items + 1) (λ s. absurd (omega arith))),
          record {
            table = record {
              valid =
                  subst (λ (x : K). IsIndex key_of base (items ++ v ∷ []) (Map.insert x id index)) k
                    (IsIndex-push key_of base t.valid v id (omega arith) (rw k fresh));
              size = length-insert key id index fresh ∙ omega (arith, length-append items (v ∷ []));
            };
            extends = Extends-append items (v ∷ []);
            place = length items;
            number = omega arith;
            value = v;
            at_place = get_elem?-append_length items v (length items) refl;
            same_key = k;
            rows = λ j w h. elim (get_elem?-push items v j h) [
              | inl old ↦ inl old
              | inr (e, same) ↦ inr (same ∙ ap make (omega arith))
            ];
          },
        )
  ]
