-- ===== src/Backend/Grouping.antt =====
-- The reports of a buffer and their metadata (src/backend/types.rs).
use pyroscope_rs.Base.{
  ℕ, ◌≡◌, ◌≢◌, refl, sym, ap, subst, ◌∙◌, List, [], ◌∷◌, some, map, arith, ◌==◌, ==_iff, All,
  Option-cases, Bool-cases, inl, inr,
}
use pyroscope_rs.Base.Equality.{nat_eq}
use pyroscope_rs.Base.Map
use pyroscope_rs.Base.Map.{Map}
use pyroscope_rs.Backend.{
  StackTrace, trace_eq, Metadata, StackBuffer, Report, add_count, report_with_count, group,
  group_all, to_reports,
}

-- All stack traces of a report have its metadata.
abbrev pub IsUniform : Report → Type 0
IsUniform r = All (λ (e : StackTrace × ℕ). e.0.metadata ≡ r.metadata) r.counts

-- No two reports have the same metadata.
abbrev pub AreApart : List Report → Type 0
AreApart [] = Unit
AreApart (r ∷ rs) = All (λ (s : Report). r.metadata ≢ s.metadata) rs × AreApart rs

-- No two metadata that fulfil `P` have the same hash.
abbrev pub IsInjectiveOn : (Metadata → ℕ) → (Metadata → Type 0) → Type 0
IsInjectiveOn hash P = (m n : Metadata) → P m → P n → hash m ≡ hash n → m ≡ n

abbrev AllTraces : (Metadata → Type 0) → Map StackTrace ℕ → Type 0
AllTraces Q = All (λ (e : StackTrace × ℕ). Q e.0.metadata)

AllTraces-add_count :
    (Q : Metadata → Type 0) (t : StackTrace) (n : ℕ) (m : Map StackTrace ℕ)
    → Q t.metadata
    → AllTraces Q m
    → AllTraces Q (add_count t n m)
unfolding add_count
AllTraces-add_count Q t n [] q all = (q, all)
AllTraces-add_count Q t n ((u, k) ∷ m) q all = elim (Bool-cases (t == u)) [
  | inl same ↦ rw (same, add_count) all
  | inr other ↦ rw (other, add_count) (all.0, AllTraces-add_count Q t n m q all.1)
]

module _ {V : Type 0} (Q : ℕ × V → Type 0) where
  All-insert : (k : ℕ) (v : V) (m : Map ℕ V) → Q (k, v) → All Q m → All Q (Map.insert k v m)
  unfolding Map.insert
  All-insert k v [] q all = (q, all)
  All-insert k v ((j, w) ∷ m) q all = elim (Bool-cases (k == j)) [
    | inl same ↦
        let e : k ≡ j = (==_iff k j).0 same in
        rw (same, Map.insert) (subst (λ i. Q (i, v)) e q, all.1)
    | inr other ↦ rw (other, Map.insert) (all.0, All-insert k v m q all.1)
  ]

  All-get : (k : ℕ) (m : Map ℕ V) {v : V} → All Q m → Map.get k m ≡ some v → Q (k, v)
  unfolding Map.get
  All-get k [] all h = cc
  All-get k ((j, w) ∷ m) {v} all h = elim (Bool-cases (k == j)) [
    | inl same ↦
        let e : k ≡ j = (==_iff k j).0 same in
        let f : w ≡ v = ground (arith, h) in rw (e, sym f) all.0
    | inr other ↦ All-get k m all.1 (rw other at h)
  ]

abbrev Lacks : ℕ → Map ℕ Report → Type 0
Lacks k = All (λ (e : ℕ × Report). k ≢ e.0)

abbrev HasDistinctKeys : Map ℕ Report → Type 0
HasDistinctKeys [] = Unit
HasDistinctKeys ((k, r) ∷ m) = Lacks k m × HasDistinctKeys m

HasDistinctKeys-insert :
    (k : ℕ) (r : Report) (m : Map ℕ Report) → HasDistinctKeys m → HasDistinctKeys (Map.insert k r m)
unfolding Map.insert
HasDistinctKeys-insert k r [] h = (tt, tt)
HasDistinctKeys-insert k r ((j, s) ∷ m) h = elim (Bool-cases (k == j)) [
  | inl same ↦ rw (same, Map.insert) h
  | inr other ↦
      rw (other, Map.insert)
        (
          All-insert (λ e. j ≢ e.0) k r m (λ e. ground (arith, ==_iff k j)) h.0,
          HasDistinctKeys-insert k r m h.1,
        )
]

-- What the fold keeps: the key of a report is the hash of its metadata and of that of its traces.
abbrev IsGrouped : (Metadata → ℕ) → (Metadata → Type 0) → ℕ × Report → Type 0
IsGrouped hash P (key, r) =
    (hash r.metadata ≡ key) × P r.metadata × AllTraces (λ m. P m × (hash m ≡ key)) r.counts

group-IsGrouped :
    (hash : Metadata → ℕ) (P : Metadata → Type 0) (t : StackTrace) (n : ℕ) (acc : Map ℕ Report)
    → P t.metadata
    → All (IsGrouped hash P) acc
    → All (IsGrouped hash P) (group hash acc (t, n))
unfolding group report_with_count
group-IsGrouped hash P t n acc p all = elim (Option-cases (Map.get (hash t.metadata) acc)) [
  | inr (r, hit) ↦
      let (id, q, traces) = All-get (IsGrouped hash P) (hash t.metadata) acc all hit in
      rw (hit, group)
        (All-insert (IsGrouped hash P) _ _ acc
          (
            id,
            q,
            AllTraces-add_count (λ m. P m × (hash m ≡ hash t.metadata)) t n r.counts (p, refl)
                traces,
          )
          all)
  | inl fresh ↦
      rw (fresh, group)
        (All-insert (IsGrouped hash P) _ _ acc
          (refl, p, AllTraces-add_count (λ m. P m × (hash m ≡ hash t.metadata)) t n [] (p, refl) tt)
          all)
]

group-HasDistinctKeys :
    (hash : Metadata → ℕ) (t : StackTrace) (n : ℕ) (acc : Map ℕ Report)
    → HasDistinctKeys acc
    → HasDistinctKeys (group hash acc (t, n))
unfolding group
group-HasDistinctKeys hash t n acc h = elim (Option-cases (Map.get (hash t.metadata) acc)) [
  | inr (r, hit) ↦ rw (hit, group) (HasDistinctKeys-insert _ _ acc h)
  | inl fresh ↦ rw (fresh, group) (HasDistinctKeys-insert _ _ acc h)
]

group_all-IsGrouped :
    (hash : Metadata → ℕ) (P : Metadata → Type 0) (m : Map StackTrace ℕ) (acc : Map ℕ Report)
    → AllTraces P m
    → All (IsGrouped hash P) acc
    → HasDistinctKeys acc
    → All (IsGrouped hash P) (group_all hash acc m) × HasDistinctKeys (group_all hash acc m)
unfolding group_all
group_all-IsGrouped hash P [] acc ps all distinct = (all, distinct)
group_all-IsGrouped hash P ((t, n) ∷ m) acc ps all distinct =
    group_all-IsGrouped hash P m (group hash acc (t, n)) ps.1
      (group-IsGrouped hash P t n acc ps.0 all) (group-HasDistinctKeys hash t n acc distinct)

abbrev values : Map ℕ Report → List Report
values = map (λ (e : ℕ × Report). e.1)

module _ (hash : Metadata → ℕ) (P : Metadata → Type 0) (free : IsInjectiveOn hash P) where
  AllTraces-uniform :
      (meta : Metadata) (key : ℕ) (m : Map StackTrace ℕ)
      → hash meta ≡ key
      → P meta
      → AllTraces (λ n. P n × (hash n ≡ key)) m
      → AllTraces (λ n. n ≡ meta) m
  AllTraces-uniform meta key [] id p all = tt
  AllTraces-uniform meta key ((t, n) ∷ m) id p all =
      (free t.metadata meta all.0.0 p (all.0.1 ∙ sym id), AllTraces-uniform meta key m id p all.1)

  values-IsUniform : (acc : Map ℕ Report) → All (IsGrouped hash P) acc → All IsUniform (values acc)
  values-IsUniform [] all = tt
  values-IsUniform ((key, r) ∷ acc) ((id, p, traces), all) =
      (AllTraces-uniform r.metadata key r.counts id p traces, values-IsUniform acc all)

values-Lacks :
    (hash : Metadata → ℕ) (P : Metadata → Type 0) (key : ℕ) (r : Report) (acc : Map ℕ Report)
    → hash r.metadata ≡ key
    → Lacks key acc
    → All (IsGrouped hash P) acc
    → All (λ (s : Report). r.metadata ≢ s.metadata) (values acc)
values-Lacks hash P key r [] id lacks all = tt
values-Lacks hash P key r ((j, s) ∷ acc) id (apart, lacks) (grouped, all) =
    (λ same. apart (sym id ∙ ap hash same ∙ grouped.0), values-Lacks hash P key r acc id lacks all)

values-AreApart :
    (hash : Metadata → ℕ) (P : Metadata → Type 0) (acc : Map ℕ Report)
    → All (IsGrouped hash P) acc
    → HasDistinctKeys acc
    → AreApart (values acc)
values-AreApart hash P [] all distinct = tt
values-AreApart hash P ((key, r) ∷ acc) (grouped, all) (lacks, distinct) =
    (values-Lacks hash P key r acc grouped.0 lacks all, values-AreApart hash P acc all distinct)

-- If no two metadata of a buffer's traces have the same hash, every report made from the buffer
-- holds traces with its own metadata only, and no two reports have the same metadata.
pub to_reports-IsUniform :
    (hash : Metadata → ℕ) (P : Metadata → Type 0) (b : StackBuffer)
    → IsInjectiveOn hash P
    → All (λ (e : StackTrace × ℕ). P e.0.metadata) b.counts
    → All IsUniform (to_reports hash b) × AreApart (to_reports hash b)
unfolding to_reports
to_reports-IsUniform hash P b free ps =
    let (all, distinct) = group_all-IsGrouped hash P b.counts [] ps tt tt in
    (values-IsUniform hash P free _ all, values-AreApart hash P _ all distinct)
