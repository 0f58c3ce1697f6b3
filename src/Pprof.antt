-- ===== src/Pprof.antt =====
-- src/backend/pprof.rs: the backend over the profiler of pprof-rs, which is the record `ProfilerCrate` over
-- the state `G` of a running profiler. `hash` and `show` are as in Backend. A count of the profiler is
-- converted with `as usize`; it is given as that number.
pub mod Collects
pub mod Dumps
use pyroscope_rs.Base.{
  ℕ, ◌+◌, ◌%◌, ◌^◌, String, Bool, List, [], ◌∷◌, ◌++◌, Option, none, some, map, unwrap_or,
  option_bind,
}
use pyroscope_rs.Backend.{
  StackFrame, StackTrace, trace_eq, Metadata, BackendConfig, StackBuffer, Report, ThreadTag, Rules,
  new_trace, add_tag_rules, record_with_count, to_reports, clear, add, remove,
}
use pyroscope_rs.Base.Map
use pyroscope_rs.Base.Map.{Map}
use pyroscope_rs.Errors.{Result, ok, err, ◌>>=◌, PyroscopeError, ad_hoc}

-- `PathBuf`: the text of the whole and of the last part, where they are Unicode
pub record FilePath : Type 0 where
  pub text : Option String
  pub last : Option (Option String)

-- `PathBuf::default()`
abbrev pub empty_path : FilePath
empty_path = record { text = some ""; last = none }

-- pprof-rs: a symbol, a stack with the symbols of each address, and the stacks of a report with their counts
pub record Symbol : Type 0 where
  pub name : String
  pub filename : Option FilePath
  pub lineno : Option ℕ

pub record Frames : Type 0 where
  pub frames : List (List Symbol)
  pub thread_name : String
  pub thread_id : ℕ

pub record ProfilerCrate (G : Type 0) : Type 0 where
  pub build : ℕ → Result G
  pub report : G → Result (List (Frames × ℕ))

pub record Pprof (G : Type 0) : Type 0 where
  pub buffer : StackBuffer
  pub sample_rate : ℕ
  pub backend_config : BackendConfig
  pub inner_builder : Option ℕ
  pub guard : Option G
  pub rules : Rules

-- `From<pprof::Symbol>`
unfoldable pub frame_of : Symbol → StackFrame
frame_of s = record {
  module_name = none;
  name = some s.name;
  filename = some (unwrap_or (unwrap_or path.last (some "")) "");
  relative_path = some (unwrap_or path.text "");
  absolute_path = none;
  line = s.lineno;
}
  where
    path : FilePath
    path = unwrap_or s.filename empty_path

abbrev pub concat {ℓ} : {A : Type ℓ} → List (List A) → List A
concat [] = []
concat (xs ∷ xss) = xs ++ concat xss

-- `From<(pprof::Frames, &BackendConfig)>`
unfoldable pub trace_of : (ℕ → String) → BackendConfig → Frames → StackTrace
unfolding frame_of
trace_of show config f =
    new_trace show config none (some f.thread_id) (some f.thread_name)
      (map frame_of (concat f.frames))

-- `collect` into a `HashMap`: the last count of a trace is kept
unfoldable pub collect : Map StackTrace ℕ → List (StackTrace × ℕ) → Map StackTrace ℕ
collect m [] = m
collect m ((t, n) ∷ rest) = collect (Map.insert t n m) rest

-- `From<(pprof::Report, &BackendConfig)>`
unfoldable pub buffer_of : (ℕ → String) → BackendConfig → List (Frames × ℕ) → StackBuffer
buffer_of show config report = record {
  counts = collect [] (map (λ (e : Frames × ℕ). (trace_of show config e.0, e.1)) report);
}

-- the traces of a buffer with the rules applied
unfoldable pub tagged : Rules → Map StackTrace ℕ → Map StackTrace ℕ
tagged rules counts =
    collect [] (map (λ (e : StackTrace × ℕ). (add_tag_rules e.0 rules, e.1)) counts)

unfoldable pub record_all : StackBuffer → Map StackTrace ℕ → StackBuffer
record_all b [] = b
record_all b ((t, n) ∷ rest) = record_all (record_with_count b t n) rest

module _ {G : Type 0} where
  unfoldable pub new : ℕ → BackendConfig → Pprof G
  new sample_rate backend_config = record {
    buffer = record { counts = [] };
    sample_rate = sample_rate;
    backend_config = backend_config;
    inner_builder = none;
    guard = none;
    rules = [];
  }

  abbrev pub shutdown : Pprof G → Result (Unit {0})
  shutdown p = ok tt

  module _ (crate : ProfilerCrate G) where
    -- a profiler that is built anew, or an error with none
    unfoldable pub build : Pprof G → Result (Unit {0}) × Pprof G
    build p = elim p.inner_builder [
      | none ↦ (err (ad_hoc "pprof-rs: ProfilerGuardBuilder error"), p)
      | some frequency ↦ elim (crate.build frequency) [
        | err e ↦ (err e, p)
        | ok guard ↦ (ok tt, record p { guard = some guard })
      ]
    ]

    unfoldable pub initialize : Pprof G → Result (Unit {0}) × Pprof G
    unfolding build
    initialize p = build (record p { inner_builder = some p.sample_rate })

    -- the running profiler is dropped first
    unfoldable pub reset : Pprof G → Result (Unit {0}) × Pprof G
    unfolding build
    reset p = build (record p { guard = none })

    module _ (show : ℕ → String) (hash : Metadata → ℕ) where
      -- what a report adds to the buffer
      unfoldable pub recorded : Pprof G → List (Frames × ℕ) → StackBuffer
      unfolding buffer_of tagged record_all
      recorded p report =
          record_all p.buffer (tagged p.rules (buffer_of show p.backend_config report).counts)

      unfoldable pub dump_report : Pprof G → Result (Unit {0}) × Pprof G
      dump_report p = elim p.guard [
        | none ↦ (err (ad_hoc "pprof-rs: ProfilerGuard report error"), p)
        | some guard ↦ elim (crate.report guard) [
          | err e ↦ (err e, p)
          | ok report ↦ reset (record p { buffer = recorded p report })
        ]
      ]

      -- `report` after the dump
      abbrev pub hand_over : Result (Unit {0}) × Pprof G → Result (List Report) × Pprof G
      hand_over (err e, p) = (err e, p)
      hand_over (ok _, p) = (ok (to_reports hash p.buffer), record p { buffer = clear p.buffer })

      unfoldable pub report : Pprof G → Result (List Report) × Pprof G
      report p = hand_over (dump_report p)

      -- the dump ahead of a change of the rules, if a profiler runs
      unfoldable pub dump_first : Pprof G → Result (Unit {0}) × Pprof G
      dump_first p = elim p.guard [ none ↦ (ok tt, p) | some _ ↦ dump_report p ]

      abbrev pub then_rules :
          (Rules → Rules) → Result (Unit {0}) × Pprof G → Result (Unit {0}) × Pprof G
      then_rules change (err e, p) = (err e, p)
      then_rules change (ok _, p) = (ok tt, record p { rules = change p.rules })

      unfoldable pub add_tag : Pprof G → ThreadTag → Result (Unit {0}) × Pprof G
      add_tag p tag = then_rules (λ rules. (add rules tag).1) (dump_first p)

      unfoldable pub remove_tag : Pprof G → ThreadTag → Result (Unit {0}) × Pprof G
      remove_tag p tag = then_rules (λ rules. (remove rules tag).1) (dump_first p)
