-- ===== src/Pyspy/Counted.antt =====
-- The reports of the py-spy backend (pyroscope_ffi/python/rust/src/backend.rs).
use pyroscope_rs.Base.{
  Bool, ◌&&◌, ◌||◌, not, ℕ, suc, ◌+◌, ◌%◌, ◌^◌, ◌≡◌, refl, ap, ◌∙◌, String, true, false, List, [],
  ◌∷◌, ◌==◌, if◌then◌else◌, arith, Bool-cases, inl, inr,
}
use pyroscope_rs.Backend.{
  StackTrace, trace_eq, Metadata, BackendConfig, Report, Rules, add_tag_rules, record_trace,
  to_reports, clear,
}
use pyroscope_rs.Backend.Conservation.{
  count_of, reports_count, to_reports-count, record-count_of, count_of-lt,
}
use pyroscope_rs.Errors.{ok}
use pyroscope_rs.Pyspy.{
  Trace, PyspyConfig, Pyspy, trace_of, skipped, take_trace, take_traces, report,
}

-- Whether a sampled trace counts: an idle one if idle ones are asked for, and where only the owner of the
-- lock of the interpreter counts, one that owns it.
abbrev pub counts_in : PyspyConfig → Trace → Bool
counts_in config x = (x.active || config.include_idle) && (x.owns_gil || not config.gil_only)

skipped-not : (config : PyspyConfig) (x : Trace) → skipped config x ≡ not (counts_in config x)
unfolding skipped
skipped-not config x = ground arith

-- How many traces count and convert to a trace, with the rules applied.
abbrev pub hits : (ℕ → String) → PyspyConfig → BackendConfig → Rules → StackTrace → List Trace → ℕ
hits show config backend_config rules t [] = 0
hits show config backend_config rules t (x ∷ xs) =
    let rest = hits show config backend_config rules t xs in
    if counts_in config x
    then if add_tag_rules (trace_of show backend_config x) rules == t then suc rest else rest
    else rest

module _ (show : ℕ → String) (hash : Metadata → ℕ) where
  take_skipped : (p : Pyspy) (x : Trace) → skipped p.config x ≡ true → take_trace show hash p x ≡ p
  unfolding take_trace
  take_skipped p x h = rw (h, take_trace)

  take_kept :
      (p : Pyspy) (x : Trace)
      → skipped p.config x ≡ false
      → take_trace show hash p x ≡ record p {
        buffer = record_trace p.buffer (add_tag_rules (trace_of show p.backend_config x) p.rules);
      }
  unfolding take_trace
  take_kept p x h = rw (h, take_trace)

  take_traces-count_of :
      (p : Pyspy) (t : StackTrace) (xs : List Trace)
      → count_of t (take_traces show hash p xs).buffer.counts
        ≡ (count_of t p.buffer.counts + hits show p.config p.backend_config p.rules t xs) % 2 ^ 64
  unfolding take_traces
  take_traces-count_of p t [] = omega (arith, count_of-lt t p.buffer.counts)
  take_traces-count_of p t (x ∷ xs) = elim (Bool-cases (skipped p.config x)) [
    | inl skip ↦
        let same = after (take_skipped p x skip) in
        let counts = skipped-not p.config x in
        ground (arith, same, counts, take_traces-count_of p t xs)
    | inr kept ↦
        let u = add_tag_rules (trace_of show p.backend_config x) p.rules in
        let (counted, once) = record-count_of p.buffer t u 1 in
        let next = record p { buffer = record_trace p.buffer u } in
        let same = after (take_kept p x kept) in
        let counts = skipped-not p.config x in
        ground (arith, same, counts, take_traces-count_of next t xs, counted, once)
  ]
    where
      after :
          {q : Pyspy}
          → take_trace show hash p x ≡ q
          → count_of t (take_traces show hash (take_trace show hash p x) xs).buffer.counts
            ≡ count_of t (take_traces show hash q xs).buffer.counts
      after e = ap (λ (q : Pyspy). count_of t (take_traces show hash q xs).buffer.counts) e

  -- What a report of the py-spy backend says of a trace, when the buffer held nothing before the samples: the
  -- counts of its reports for the trace sum to the number of sampled traces that are not skipped (idle, where
  -- idle threads are left out, or without the lock of the interpreter, where only its owner counts)
  -- and that convert to it with the rules applied, modulo 2 ^ 64; and the buffer is empty after it.
  pub report-hits :
      (p : Pyspy) (t : StackTrace) (xs : List Trace)
      → p.buffer.counts ≡ []
      → (reports : List Report) × (p' : Pyspy) × (report show hash (take_traces show hash p xs)
          ≡ (ok reports, p'))
        × (reports_count t reports ≡ hits show p.config p.backend_config p.rules t xs % 2 ^ 64)
        × (p'.buffer.counts ≡ [])
  unfolding report clear
  report-hits p t xs empty =
      let p' = take_traces show hash p xs in
      (
        to_reports hash p'.buffer,
        record p' { buffer = clear p'.buffer },
        refl,
        to_reports-count hash t p'.buffer
            ∙ take_traces-count_of p t xs
            ∙ ap (λ m. (count_of t m + hits show p.config p.backend_config p.rules t xs) % 2 ^ 64)
                empty
            ∙ omega arith,
        refl,
      )
