-- ===== src/Pprof/Dumps.antt =====
-- The counts of the buffer after a dump (src/backend/pprof.rs).
use pyroscope_rs.Base.{
  Bool, ℕ, All, ◌+◌, ◌%◌, ◌^◌, ◌<◌, ◌≡◌, refl, sym, ap, ◌∙◌, String, List, [], ◌∷◌, none, some, map,
  ◌==◌, ==_iff, if◌then◌else◌, arith, Bool-cases, inl, inr,
}
use pyroscope_rs.Base.Map.{Map}
use pyroscope_rs.Backend.{
  StackTrace, trace_eq, Metadata, BackendConfig, StackBuffer, Rules, new_trace, add_tag_rules,
  record_with_count,
}
use pyroscope_rs.Backend.Conservation.{count_of, count_of-lt, record-count_of}
use pyroscope_rs.Pprof.{
  Frames, Pprof, ProfilerCrate, trace_of, collect, buffer_of, tagged, record_all, recorded,
  dump_report, reset, build,
}
use pyroscope_rs.Errors.{ok}
use pyroscope_rs.Pprof.Collects.{
  last_of, IsConverted, Entries, collect-Entries, collect-IsDistinct, count_of-collect,
  last_of-IsDistinct,
}

record_all-count_of :
    (t : StackTrace) (b : StackBuffer) (m : Map StackTrace ℕ)
    → count_of t (record_all b m).counts ≡ (count_of t b.counts + count_of t m) % 2 ^ 64
unfolding record_all
record_all-count_of t b [] = omega (arith, count_of-lt t b.counts)
record_all-count_of t b ((u, n) ∷ m) =
    ground (arith, record_all-count_of t (record_with_count b u n) m, (record-count_of b t u n).0)

-- The rules do not make two such traces one.
add_tag_rules-injective :
    (show : ℕ → String) (config : BackendConfig) (rules : Rules) (t u : StackTrace)
    → IsConverted show config t
    → IsConverted show config u
    → add_tag_rules t rules ≡ add_tag_rules u rules
    → t ≡ u
unfolding add_tag_rules
add_tag_rules-injective show config rules t u p q e =
    let make : StackTrace → StackTrace =
      λ x. new_trace show config x.pid x.thread_id x.thread_name x.frames in
    p ∙ ap make e ∙ sym q

same_test :
    (show : ℕ → String) (config : BackendConfig) (rules : Rules) (t u : StackTrace)
    → IsConverted show config t
    → IsConverted show config u
    → (add_tag_rules u rules == add_tag_rules t rules) ≡ (u == t)
same_test show config rules t u p q = elim (Bool-cases (u == t)) [
  | inl same ↦
      (==_iff (add_tag_rules u rules) (add_tag_rules t rules)).1
        (ap (λ (x : StackTrace). add_tag_rules x rules) ((==_iff u t).0 same))
      ∙ sym same
  | inr other ↦ elim (Bool-cases (add_tag_rules u rules == add_tag_rules t rules)) [
    | inr apart ↦ apart ∙ sym other
    | inl met ↦
        let e : u ≡ t =
          add_tag_rules-injective show config rules u t q p
            ((==_iff (add_tag_rules u rules) (add_tag_rules t rules)).0 met) in
        let clash = (==_iff u t).1 e in cc
  ]
]

last_of-tagged :
    (show : ℕ → String) (config : BackendConfig) (rules : Rules) (t : StackTrace) (found : ℕ)
    (m : Map StackTrace ℕ)
    → IsConverted show config t
    → Entries (IsConverted show config) m
    → last_of
        (add_tag_rules t rules)
        found
        (map (λ (e : StackTrace × ℕ). (add_tag_rules e.0 rules, e.1)) m)
      ≡ last_of t found m
last_of-tagged show config rules t found [] p h = refl
last_of-tagged show config rules t found ((u, n) ∷ m) p h =
    let rest = map (λ (e : StackTrace × ℕ). (add_tag_rules e.0 rules, e.1)) m in
    ap (λ (c : Bool). last_of (add_tag_rules t rules) (if c then n else found) rest)
      (same_test show config rules t u p h.0)
    ∙ (last_of-tagged show config rules t (if u == t then n else found) m p h.2)

tagged-Entries :
    (rules : Rules) (P : StackTrace → Type 0) (m : Map StackTrace ℕ)
    → Entries P m
    → Entries (λ t. Unit) (map (λ (e : StackTrace × ℕ). (add_tag_rules e.0 rules, e.1)) m)
tagged-Entries rules P [] h = tt
tagged-Entries rules P ((t, n) ∷ m) h = (tt, h.1, tagged-Entries rules P m h.2)

trace_of-IsConverted :
    (show : ℕ → String) (config : BackendConfig) (f : Frames)
    → IsConverted show config (trace_of show config f)
unfolding trace_of new_trace
trace_of-IsConverted show config f = refl

-- the traces of a report
abbrev pub traces : (ℕ → String) → BackendConfig → List (Frames × ℕ) → List (StackTrace × ℕ)
traces show config = map (λ (e : Frames × ℕ). (trace_of show config e.0, e.1))

traces-Entries :
    (show : ℕ → String) (config : BackendConfig) (report : List (Frames × ℕ))
    → All (λ (e : Frames × ℕ). e.1 < 2 ^ 64) report
    → Entries (IsConverted show config) (traces show config report)
traces-Entries show config [] fits = tt
traces-Entries show config ((f, n) ∷ report) fits =
    (trace_of-IsConverted show config f, fits.0, traces-Entries show config report fits.1)

build-buffer :
    {G : Type 0} (crate : ProfilerCrate G) (p : Pprof G) → (build crate p).1.buffer ≡ p.buffer
unfolding build
build-buffer crate p = ground arith

dump_report-buffer :
    {G : Type 0} (crate : ProfilerCrate G) (show : ℕ → String) (hash : Metadata → ℕ) (p : Pprof G)
    (guard : G) (report : List (Frames × ℕ))
    → p.guard ≡ some guard
    → crate.report guard ≡ ok report
    → (dump_report crate show hash p).1.buffer ≡ recorded crate show hash p report
unfolding dump_report reset
dump_report-buffer crate show hash p guard report runs reports = ground (
  arith,
  build-buffer crate (record p { buffer = recorded crate show hash p report; guard = none }),
)

-- A dump with a profiler that reports: for a stack of pprof-rs, the buffer's count of its trace, with the rules
-- applied, grows by the count of the last entry of the report that converts to this trace, and by
-- nothing if there is none (modulo 2 ^ 64); an entry that converts to the same trace as a later one
-- is lost. The counts of the report are below 2 ^ 64.
pub recorded-last_of :
    {G : Type 0} (crate : ProfilerCrate G) (show : ℕ → String) (hash : Metadata → ℕ) (p : Pprof G)
    (guard : G) (report : List (Frames × ℕ)) (f : Frames)
    → p.guard ≡ some guard
    → crate.report guard ≡ ok report
    → All (λ (e : Frames × ℕ). e.1 < 2 ^ 64) report
    → count_of
        (add_tag_rules (trace_of show p.backend_config f) p.rules)
        (dump_report crate show hash p).1.buffer.counts
      ≡ (count_of (add_tag_rules (trace_of show p.backend_config f) p.rules) p.buffer.counts
          + last_of (trace_of show p.backend_config f) 0 (traces show p.backend_config report))
        % 2 ^ 64
unfolding recorded tagged buffer_of
recorded-last_of crate show hash p guard report f runs reports fits =
    let config = p.backend_config in
    let t = trace_of show config f in
    let mark = add_tag_rules t p.rules in
    let entries = traces-Entries show config report fits in
    let counts = collect [] (traces show config report) in
    let held =
      collect-Entries (IsConverted show config) [] (traces show config report) tt entries in
    let apart = collect-IsDistinct [] (traces show config report) tt in
    let marked = map (λ (e : StackTrace × ℕ). (add_tag_rules e.0 p.rules, e.1)) counts in
    let second : count_of mark (collect [] marked) ≡ last_of t 0 (traces show config report) =
      count_of-collect (λ u. Unit) mark [] marked tt
        (tagged-Entries p.rules (IsConverted show config) counts held)
      ∙ last_of-tagged show config p.rules t 0 counts (trace_of-IsConverted show config f) held
      ∙ last_of-IsDistinct (IsConverted show config) t counts apart held
      ∙ count_of-collect (IsConverted show config) t [] (traces show config report) tt entries in
    ap (λ (b : StackBuffer). count_of mark b.counts)
      (dump_report-buffer crate show hash p guard report runs reports)
    ∙ record_all-count_of mark p.buffer (collect [] marked)
    ∙ ap (λ n. (count_of mark p.buffer.counts + n) % 2 ^ 64) second
