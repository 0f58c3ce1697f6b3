-- ===== src/Backend/Conservation.antt =====
-- The counts of a buffer and of its reports (src/backend/types.rs).
use pyroscope_rs.Base.{
  ℕ, ◌+◌, ◌%◌, ◌^◌, ◌<◌, ◌≡◌, refl, ◌∙◌, List, [], ◌∷◌, none, some, map, arith, ◌==◌, ==_iff,
  if◌then◌else◌, Option-cases, inl, inr,
}
use pyroscope_rs.Base.Equality.{nat_eq}
use pyroscope_rs.Base.Map
use pyroscope_rs.Base.Map.{Map}
use pyroscope_rs.Backend.{
  StackTrace, trace_eq, Metadata, StackBuffer, Report, add_count, report_with_count,
  record_with_count, record_trace, group, group_all, to_reports,
}

-- The sum of the counts of all entries for one trace.
abbrev pub count_of : StackTrace → Map StackTrace ℕ → ℕ
count_of t [] = 0
count_of t ((u, n) ∷ rest) = let r = count_of t rest in if u == t then (n + r) % 2 ^ 64 else r

abbrev pub reports_count : StackTrace → List Report → ℕ
reports_count t [] = 0
reports_count t (r ∷ rs) = (count_of t r.counts + reports_count t rs) % 2 ^ 64

pub count_of-lt : (t : StackTrace) (m : Map StackTrace ℕ) → count_of t m < 2 ^ 64
count_of-lt t [] = omega arith
count_of-lt t ((u, n) ∷ rest) = ground (arith, count_of-lt t rest)

reports_count-lt : (t : StackTrace) (rs : List Report) → reports_count t rs < 2 ^ 64
reports_count-lt t [] = omega arith
reports_count-lt t (r ∷ rs) = omega arith

pub count_of-add_count :
    (t u : StackTrace) (n : ℕ) (m : Map StackTrace ℕ)
    → count_of t (add_count u n m) ≡ (if u == t then (count_of t m + n) % 2 ^ 64 else count_of t m)
unfolding add_count
count_of-add_count t u n [] = ground arith
count_of-add_count t u n ((v, k) ∷ rest) =
    ground (arith, count_of-add_count t u n rest, ==_iff u v, ==_iff u t, ==_iff v t)

abbrev values : Map ℕ Report → List Report
values = map (λ (e : ℕ × Report). e.1)

insert_known :
    (t u : StackTrace) (n key : ℕ) (r : Report) (acc : Map ℕ Report)
    → Map.get key acc ≡ some r
    → reports_count t (values (Map.insert key (report_with_count r u n) acc)) ≡ (
        if u == t
        then (reports_count t (values acc) + n) % 2 ^ 64
        else reports_count t (values acc))
unfolding Map.get Map.insert report_with_count
insert_known t u n key r [] h = cc
insert_known t u n key r ((j, s) ∷ acc) h = ground (
  arith,
  insert_known t u n key r acc,
  count_of-add_count t u n s.counts,
  count_of-add_count t u n r.counts,
)

insert_new :
    (t : StackTrace) (key : ℕ) (r : Report) (acc : Map ℕ Report)
    → Map.get key acc ≡ none
    → reports_count t (values (Map.insert key r acc))
      ≡ (reports_count t (values acc) + count_of t r.counts) % 2 ^ 64
unfolding Map.get Map.insert
insert_new t key r [] h = omega arith
insert_new t key r ((j, s) ∷ acc) h = ground (arith, insert_new t key r acc)

group-count :
    (hash : Metadata → ℕ) (t u : StackTrace) (n : ℕ) (acc : Map ℕ Report)
    → reports_count t (values (group hash acc (u, n))) ≡ (
        if u == t
        then (reports_count t (values acc) + n) % 2 ^ 64
        else reports_count t (values acc))
unfolding group
group-count hash t u n acc = elim (Option-cases (Map.get (hash u.metadata) acc)) [
  | inr (r, hit) ↦ rw (hit, group) (insert_known t u n (hash u.metadata) r acc hit)
  | inl fresh ↦
      rw (fresh, group)
        (insert_new t (hash u.metadata) _ acc fresh
          ∙ ground (arith, reports_count-lt t (values acc)))
]

group_all-count :
    (hash : Metadata → ℕ) (t : StackTrace) (m : Map StackTrace ℕ) (acc : Map ℕ Report)
    → reports_count t (values (group_all hash acc m))
      ≡ (reports_count t (values acc) + count_of t m) % 2 ^ 64
unfolding group_all
group_all-count hash t [] acc = omega (arith, reports_count-lt t (values acc))
group_all-count hash t ((u, n) ∷ rest) acc =
    ground (arith, group_all-count hash t rest (group hash acc (u, n)), group-count hash t u n acc)

-- Whatever the hash of metadata is, its collisions included, the counts that the reports of a
-- buffer hold for a stack trace sum to the count of the buffer for it, modulo 2 ^ 64.
pub to_reports-count :
    (hash : Metadata → ℕ) (t : StackTrace) (b : StackBuffer)
    → reports_count t (to_reports hash b) ≡ count_of t b.counts
unfolding to_reports
to_reports-count hash t b =
    group_all-count hash t b.counts [] ∙ omega (arith, count_of-lt t b.counts)

-- Recording a stack trace with a count adds the count to that of the trace, modulo 2 ^ 64, and
-- changes the count of no other trace; `record` does so with the count 1.
pub record-count_of :
    (b : StackBuffer) (t u : StackTrace) (n : ℕ)
    → (count_of t (record_with_count b u n).counts
        ≡ (if u == t then (count_of t b.counts + n) % 2 ^ 64 else count_of t b.counts))
      × (record_trace b u ≡ record_with_count b u 1)
unfolding record_with_count record_trace
record-count_of b t u n = (count_of-add_count t u n b.counts, refl)
