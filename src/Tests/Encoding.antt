-- ===== src/Tests/Encoding.antt =====
-- `encode` of src/encode/pprof.rs on the reports of a small program.
use pyroscope_rs.Base.{String, ◌/◌, ◌≡◌, refl, List, [], ◌∷◌, none, some, arith}
use pyroscope_rs.Base.Map
use pyroscope_rs.Base.Equality.{String-discrete, string_eq}
use pyroscope_rs.Backend.{Tag, StackFrame, Report}
use pyroscope_rs.Encode.{Profile, encode}
use pyroscope_rs.Encode.Labels.{with_tags}
use pyroscope_rs.Encode.Samples.{samples_at, expected_samples}
use pyroscope_rs.Encode.Reports.{HasHeader, encode-expected_samples}

abbrev step : StackFrame
step = record {
  module_name = none;
  name = some "step";
  filename = none;
  relative_path = none;
  absolute_path = none;
  line = some 4;
}

abbrev loop : StackFrame
loop = record step { line = some 9 }

abbrev tag : String → String → Tag
tag k v = record { key = k; value = v }

abbrev reports : List Report
reports =
    record {
      counts =
          (
            record {
              pid = none;
              thread_id = some 3;
              thread_name = none;
              frames = step ∷ loop ∷ [];
              metadata = record { tags = tag "host" "a" ∷ tag "zone" "x" ∷ [] };
            },
            2,
          )
          ∷ [];
      metadata = record { tags = tag "zone" "y" ∷ [] };
    }
    ∷ []

-- the tag of the report replaces that of the trace
labels_override :
    with_tags (with_tags [] (tag "host" "a" ∷ tag "zone" "x" ∷ [])) (tag "zone" "y" ∷ [])
    ≡ ("host", "a") ∷ ("zone", "y") ∷ []
unfolding with_tags Map.insert String-discrete
labels_override = refl

encode-expected_samples_example :
    (p : Profile) × (encode reports 100 5 6 ≡ some p)
    × HasHeader p (1_000_000_000 / 100) 5 6
    × (samples_at p p.sample ≡ some (expected_samples (1_000_000_000 / 100) reports))
    × (encode reports 0 5 6 ≡ none)
encode-expected_samples_example =
    encode-expected_samples reports 100 5 6 (λ e. absurd (omega arith))
