-- ===== src/Tests/Backends.antt =====
-- Runs of the models of the two sampling backends.
use pyroscope_rs.Base.{
  All, map, ◌≢◌, ℕ, ◌+◌, ◌%◌, ◌^◌, ◌≡◌, refl, String, Bool, true, false, List, [], ◌∷◌, Option,
  none, some, arith,
}
use pyroscope_rs.Bindings.{comma, string_to_tags}
use pyroscope_rs.Bindings.Joined.{Parts, IsPlain, text_of, tags_of, join, string_to_tags-tags_of}
use pyroscope_rs.Backend.{Metadata, BackendConfig, StackTrace, StackBuffer, Report, add_tag_rules}
use pyroscope_rs.Backend.Conservation.{count_of, reports_count}
use pyroscope_rs.Errors.{ok}
use pyroscope_rs.Pprof.{Symbol, Frames, ProfilerCrate, Pprof, trace_of, dump_report}
use pyroscope_rs.Pprof.Collects.{last_of}
use pyroscope_rs.Pprof.Dumps.{traces, recorded-last_of}
use pyroscope_rs.Pyspy
use pyroscope_rs.Pyspy.{PyspyConfig, Pyspy, take_traces, report}
use pyroscope_rs.Pyspy.Counted.{hits, report-hits}

abbrev show : ℕ → String
show n = "7"

abbrev hash : Metadata → ℕ
hash m = 0

abbrev backend_config : BackendConfig
backend_config = record { report_pid = false; report_thread_id = false; report_thread_name = false }

abbrev symbol : String → Symbol
symbol name = record { name = name; filename = none; lineno = some 3 }

-- two stacks of pprof-rs that are one stack once their frames are joined
abbrev apart : Frames
apart = record {
  frames = (symbol "work" ∷ []) ∷ (symbol "main" ∷ []) ∷ [];
  thread_name = "w";
  thread_id = 7;
}

abbrev inlined : Frames
inlined = record {
  frames = (symbol "work" ∷ symbol "main" ∷ []) ∷ [];
  thread_name = "w";
  thread_id = 7;
}

abbrev crate : ProfilerCrate ℕ
crate = record { build = λ frequency. ok 1; report = λ guard. ok ((apart, 4) ∷ (inlined, 2) ∷ []) }

abbrev pprof : Pprof ℕ
pprof = record {
  buffer = record { counts = [] };
  sample_rate = 100;
  backend_config = backend_config;
  inner_builder = some 100;
  guard = some 1;
  rules = [];
}

-- of the six samples two are counted
recorded-last_of_example :
    count_of
      (add_tag_rules (trace_of show backend_config apart) [])
      (dump_report crate show hash pprof).1.buffer.counts
    ≡ (0
        + last_of
            (trace_of show backend_config apart)
            0
            (traces show backend_config ((apart, 4) ∷ (inlined, 2) ∷ [])))
      % 2 ^ 64
recorded-last_of_example =
    recorded-last_of crate show hash pprof 1 ((apart, 4) ∷ (inlined, 2) ∷ []) apart refl refl
      (omega arith, (omega arith, tt))

lost_counts :
    count_of
      (add_tag_rules (trace_of show backend_config apart) [])
      (dump_report crate show hash pprof).1.buffer.counts
    ≡ 2
unfolding dump_report pyroscope_rs.Pprof.reset pyroscope_rs.Pprof.recorded
    pyroscope_rs.Pprof.collect pyroscope_rs.Base.Map.insert pyroscope_rs.Backend.StackTrace-discrete
    trace_of pyroscope_rs.Backend.new_trace native.Mathlib.Decide.ℕ_discrete
    pyroscope_rs.Base.Equality.String-discrete pyroscope_rs.Backend.record_with_count add_tag_rules
lost_counts = refl

abbrev pyspy : Pyspy
pyspy = record {
  buffer = record { counts = [] };
  config = record { pid = some 42; include_idle = false; gil_only = false };
  backend_config = backend_config;
  sampler_thread = true;
  running = true;
  rules = [];
}

abbrev sampled : Bool → Pyspy.Trace
sampled active = record {
  pid = 42;
  thread_id = 7;
  thread_name = some "w";
  active = active;
  owns_gil = true;
  frames = record { name = "work"; filename = "app.py"; module_name = some "app"; line = 3 } ∷ [];
}

abbrev samples : List Pyspy.Trace
samples = sampled true ∷ sampled false ∷ sampled true ∷ []

abbrev working : StackTrace
working = add_tag_rules (Pyspy.trace_of show backend_config (sampled true)) []

-- the idle sample is not counted
report-hits_example :
    (reports : List Report) × (p' : Pyspy) × (report show hash (take_traces show hash pyspy samples)
      ≡ (ok reports, p'))
    × (reports_count working reports
        ≡ hits show pyspy.config backend_config [] working samples % 2 ^ 64)
    × (p'.buffer.counts ≡ [])
report-hits_example = report-hits show hash pyspy working samples refl

two_hits : hits show pyspy.config backend_config [] working samples ≡ 2
unfolding Pyspy.skipped Pyspy.trace_of pyroscope_rs.Backend.StackTrace-discrete add_tag_rules
    pyroscope_rs.Backend.new_trace native.Mathlib.Decide.ℕ_discrete
    pyroscope_rs.Base.Equality.String-discrete
two_hits = refl

-- "env=prod,path=a=b": the text behind the second equals sign of a tag is lost
abbrev env_tag : Parts
env_tag = (101 ∷ [], (112 ∷ []) ∷ [])

abbrev path_tag : Parts
path_tag = (112 ∷ [], (97 ∷ []) ∷ (98 ∷ []) ∷ [])

two_tags-IsPlain : All IsPlain (env_tag ∷ path_tag ∷ [])
two_tags-IsPlain = ground arith

filled : join comma (text_of env_tag) (map text_of (path_tag ∷ [])) ≢ []
filled e = cc

string_to_tags-tags_of_example :
    string_to_tags (join comma (text_of env_tag) (map text_of (path_tag ∷ [])))
    ≡ tags_of (env_tag ∷ path_tag ∷ [])
string_to_tags-tags_of_example =
    string_to_tags-tags_of env_tag (path_tag ∷ []) two_tags-IsPlain filled

lost_text :
    string_to_tags (101 ∷ 61 ∷ 112 ∷ 44 ∷ 112 ∷ 61 ∷ 97 ∷ 61 ∷ 98 ∷ [])
    ≡ some ((101 ∷ [], 112 ∷ []) ∷ (112 ∷ [], 97 ∷ []) ∷ [])
unfolding string_to_tags
lost_text = refl
