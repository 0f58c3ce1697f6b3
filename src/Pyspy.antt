-- ===== src/Pyspy.antt =====
-- pyroscope_ffi/python/rust/src/backend.rs: the backend over py-spy. The samples that py-spy's iterator
-- gives until the backend is shut down are an argument; `hash` and `show` are as in Backend.
pub mod Counted
use Prim.Native.String.{◌++◌ as append}
use pyroscope_rs.Base.{
  ℕ, ◌+◌, ◌%◌, ◌^◌, String, Bool, true, false, not, ◌&&◌, ◌||◌, List, [], ◌∷◌, Option, none, some,
  map, if◌then◌else◌, is_some,
}
use pyroscope_rs.Backend.{
  StackFrame, StackTrace, Metadata, BackendConfig, StackBuffer, Report, ThreadTag, Rules, new_trace,
  add_tag_rules, record_trace, to_reports, clear, add, remove,
}
use pyroscope_rs.Errors.{Result, ok, err, ad_hoc}

-- py-spy: a frame, a trace, and the fields of the configuration that are read here
pub record Frame : Type 0 where
  pub name : String
  pub filename : String
  pub module_name : Option String
  pub line : ℕ

pub record Trace : Type 0 where
  pub pid : ℕ
  pub thread_id : ℕ
  pub thread_name : Option String
  pub active : Bool
  pub owns_gil : Bool
  pub frames : List Frame

pub record PyspyConfig : Type 0 where
  pub pid : Option ℕ
  pub include_idle : Bool
  pub gil_only : Bool

-- The sampler thread is there once the backend is initialized; its result, if it has ended, comes with the join.
pub record Pyspy : Type 0 where
  pub buffer : StackBuffer
  pub config : PyspyConfig
  pub backend_config : BackendConfig
  pub sampler_thread : Bool
  pub running : Bool
  pub rules : Rules

abbrev pub new : PyspyConfig → BackendConfig → Pyspy
new config backend_config = record {
  buffer = record { counts = [] };
  config = config;
  backend_config = backend_config;
  sampler_thread = false;
  running = false;
  rules = [];
}

-- `From<py_spy::Frame>`; a line is an i32, given as the u32 that it is cast to
unfoldable pub frame_of : Frame → StackFrame
frame_of f = record {
  module_name = f.module_name;
  name = some (qualified f.module_name);
  filename = some f.filename;
  relative_path = none;
  absolute_path = some f.filename;
  line = some f.line;
}
  where
    qualified : Option String → String
    qualified (some m) = append m (append "." f.name)
    qualified none = f.name

-- `From<(py_spy::StackTrace, &BackendConfig)>`
unfoldable pub trace_of : (ℕ → String) → BackendConfig → Trace → StackTrace
unfolding frame_of
trace_of show config t =
    new_trace show config (some t.pid) (some t.thread_id) t.thread_name (map frame_of t.frames)

-- the two tests of the loop
unfoldable pub skipped : PyspyConfig → Trace → Bool
skipped config t = not (config.include_idle || t.active) || (config.gil_only && not t.owns_gil)

abbrev pub add_tag : Pyspy → ThreadTag → Pyspy
add_tag p rule = record p { rules = (add p.rules rule).1 }

abbrev pub remove_tag : Pyspy → ThreadTag → Pyspy
remove_tag p rule = record p { rules = (remove p.rules rule).1 }

unfoldable pub initialize : Pyspy → Result (Unit {0}) × Pyspy
initialize p =
    if is_some p.config.pid
    then (ok tt, record p { running = true; sampler_thread = true })
    else (err (ad_hoc "Pyspy: No Process ID Specified"), p)

-- `joined` is how the sampler thread ended
unfoldable pub shutdown : Result (Unit {0}) → Pyspy → Result (Unit {0})
shutdown joined p =
    if p.sampler_thread then joined else err (ad_hoc "Pyspy: Failed to unwrap Sampler Thread")

module _ (show : ℕ → String) (hash : Metadata → ℕ) where
  -- what the sampler thread does with one trace
  unfoldable pub take_trace : Pyspy → Trace → Pyspy
  take_trace p t = if skipped p.config t then p else record p {
    buffer = record_trace p.buffer (add_tag_rules (trace_of show p.backend_config t) p.rules);
  }

  unfoldable pub take_traces : Pyspy → List Trace → Pyspy
  take_traces p [] = p
  take_traces p (t ∷ traces) = take_traces (take_trace p t) traces

  unfoldable pub report : Pyspy → Result (List Report) × Pyspy
  report p = (ok (to_reports hash p.buffer), record p { buffer = clear p.buffer })
