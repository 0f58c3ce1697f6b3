-- ===== src/Pprof/Collects.antt =====
-- What `collect` into a hash map keeps of the entries for one trace (src/backend/pprof.rs).
use pyroscope_rs.Base.{
  ℕ, ◌^◌, ◌<◌, ◌≡◌, refl, ap, ◌∙◌, String, List, [], ◌∷◌, none, ◌==◌, ==_iff, if◌then◌else◌, arith,
  Bool-cases, subst, inl, inr,
}
use pyroscope_rs.Base.Map
use pyroscope_rs.Base.Map.{Map, get-insert}
use pyroscope_rs.Backend.{StackTrace, trace_eq, BackendConfig, new_trace}
use pyroscope_rs.Backend.Conservation.{count_of}
use pyroscope_rs.Pprof.{collect}

-- The count of the last entry for a trace.
abbrev pub last_of : StackTrace → ℕ → List (StackTrace × ℕ) → ℕ
last_of t found [] = found
last_of t found ((u, n) ∷ rest) = last_of t (if u == t then n else found) rest

-- No trace has two entries.
abbrev pub IsDistinct : Map StackTrace ℕ → Type 0
IsDistinct [] = Unit
IsDistinct ((t, n) ∷ m) = (Map.get t m ≡ none) × IsDistinct m

pub count_of_absent :
    (t : StackTrace) (m : Map StackTrace ℕ) → Map.get t m ≡ none → count_of t m ≡ 0
unfolding Map.get
count_of_absent t [] h = refl
count_of_absent t ((u, n) ∷ m) h = ground (arith, ==_iff t u, ==_iff u t, count_of_absent t m)

pub insert-IsDistinct :
    (t : StackTrace) (n : ℕ) (m : Map StackTrace ℕ) → IsDistinct m → IsDistinct (Map.insert t n m)
unfolding Map.insert Map.get
insert-IsDistinct t n [] d = (refl, tt)
insert-IsDistinct t n ((u, k) ∷ m) d =
    ground (arith, insert-IsDistinct t n m, get-insert t u n m, ==_iff u t, ==_iff t u)

pub count_of-insert :
    (t u : StackTrace) (n : ℕ) (m : Map StackTrace ℕ)
    → IsDistinct m
    → n < 2 ^ 64
    → count_of t (Map.insert u n m) ≡ (if u == t then n else count_of t m)
unfolding Map.insert Map.get
count_of-insert t u n [] d fits = ground arith
count_of-insert t u n ((v, k) ∷ m) d fits =
    ground (arith, count_of-insert t u n m, count_of_absent t m, ==_iff u v, ==_iff u t, ==_iff v t)

-- An entry with a trace that only its other parts and the configuration make, and a count that fits.
abbrev pub IsConverted : (ℕ → String) → BackendConfig → StackTrace → Type 0
IsConverted show config t = t ≡ new_trace show config t.pid t.thread_id t.thread_name t.frames

abbrev pub Entries : (StackTrace → Type 0) → Map StackTrace ℕ → Type 0
Entries P [] = Unit
Entries P ((t, n) ∷ m) = P t × (n < 2 ^ 64) × Entries P m

pub insert-Entries :
    (P : StackTrace → Type 0) (t : StackTrace) (n : ℕ) (m : Map StackTrace ℕ)
    → P t
    → n < 2 ^ 64
    → Entries P m
    → Entries P (Map.insert t n m)
unfolding Map.insert
insert-Entries P t n [] p fits h = (p, fits, tt)
insert-Entries P t n ((u, k) ∷ m) p fits h = elim (Bool-cases (t == u)) [
  | inl same ↦ rw same (h.0, fits, h.2)
  | inr other ↦ rw other (h.0, h.1, insert-Entries P t n m p fits h.2)
]

pub collect-Entries :
    (P : StackTrace → Type 0) (m xs : Map StackTrace ℕ)
    → Entries P m
    → Entries P xs
    → Entries P (collect m xs)
unfolding collect
collect-Entries P m [] h k = h
collect-Entries P m ((t, n) ∷ xs) h k =
    collect-Entries P (Map.insert t n m) xs (insert-Entries P t n m k.0 k.1 h) k.2

pub collect-IsDistinct : (m xs : Map StackTrace ℕ) → IsDistinct m → IsDistinct (collect m xs)
unfolding collect
collect-IsDistinct m [] d = d
collect-IsDistinct m ((t, n) ∷ xs) d =
    collect-IsDistinct (Map.insert t n m) xs (insert-IsDistinct t n m d)

pub count_of-collect :
    (P : StackTrace → Type 0) (t : StackTrace) (m xs : Map StackTrace ℕ)
    → IsDistinct m
    → Entries P xs
    → count_of t (collect m xs) ≡ last_of t (count_of t m) xs
unfolding collect
count_of-collect P t m [] d h = refl
count_of-collect P t m ((u, n) ∷ xs) d h =
    count_of-collect P t (Map.insert u n m) xs (insert-IsDistinct u n m d) h.2
    ∙ ap (λ k. last_of t k xs) (count_of-insert t u n m d h.1)

pub last_of_absent :
    (t : StackTrace) (found : ℕ) (m : Map StackTrace ℕ)
    → Map.get t m ≡ none
    → last_of t found m ≡ found
unfolding Map.get
last_of_absent t found [] h = refl
last_of_absent t found ((u, n) ∷ m) h =
    ground (arith, ==_iff t u, ==_iff u t, last_of_absent t found m)

pub last_of-IsDistinct :
    (P : StackTrace → Type 0) (t : StackTrace) (m : Map StackTrace ℕ)
    → IsDistinct m
    → Entries P m
    → last_of t 0 m ≡ count_of t m
last_of-IsDistinct P t [] d h = refl
last_of-IsDistinct P t ((u, n) ∷ m) d h = elim (Bool-cases (u == t)) [
  | inl same ↦
      let e : u ≡ t = (==_iff u t).0 same in
      let absent : Map.get t m ≡ none = subst (λ (x : StackTrace). Map.get x m ≡ none) e d.0 in
      let fits : n < 2 ^ 64 = h.1 in
      rw (same, last_of_absent t n m absent, count_of_absent t m absent) (omega arith)
  | inr other ↦ rw other (last_of-IsDistinct P t m d.1 h.2)
]
