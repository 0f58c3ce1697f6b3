-- ===== src/Encode.antt =====
-- src/encode/pprof.rs: a pprof profile made from reports. Hash maps are association lists, an i64 is
-- kept as its bit pattern, a number below 2 ^ 64, and `none` stands for a panic. Of the generated
-- `Profile`, the list of mappings, which stays empty, is left out.
pub mod Rows
pub mod Tables
pub mod Labels
pub mod Samples
pub mod Reports
use native.Mathlib.Decide.{ℕ_discrete}
use pyroscope_rs.Base.{
  ℕ, ◌+◌, ◌*◌, ◌/◌, ◌%◌, ◌^◌, String, Bool, true, false, List, [], ◌∷◌, ◌++◌, Option, none, some,
  map, length, Eq, eqb, if◌then◌else◌, option_bind, unwrap_or,
}
use pyroscope_rs.Base.Equality.{string_eq, nat_eq}
use pyroscope_rs.Base.Map
use pyroscope_rs.Base.Map.{Map}
use pyroscope_rs.Backend.{Tag, StackFrame, StackTrace, Report}

pub record ValueType : Type 0 where
  pub type : ℕ
  pub unit : ℕ

pub record Label : Type 0 where
  pub key : ℕ
  pub str : ℕ
  pub num : ℕ
  pub num_unit : ℕ

pub record Sample : Type 0 where
  pub location_id : List ℕ
  pub value : List ℕ
  pub label : List Label

pub record Line : Type 0 where
  pub function_id : ℕ
  pub line : ℕ

pub record Location : Type 0 where
  pub id : ℕ
  pub mapping_id : ℕ
  pub address : ℕ
  pub line : List Line
  pub is_folded : Bool

pub record Function : Type 0 where
  pub id : ℕ
  pub name : ℕ
  pub system_name : ℕ
  pub filename : ℕ
  pub start_line : ℕ

pub record Profile : Type 0 where
  pub sample_type : List ValueType
  pub sample : List Sample
  pub location : List Location
  pub function : List Function
  pub string_table : List String
  pub drop_frames : ℕ
  pub keep_frames : ℕ
  pub time_nanos : ℕ
  pub duration_nanos : ℕ
  pub period_type : Option ValueType
  pub period : ℕ
  pub comment : List ℕ
  pub default_sample_type : ℕ

pub record LocationMirror : Type 0 where
  pub function_id : ℕ
  pub line : ℕ

pub record FunctionMirror : Type 0 where
  pub name : ℕ
  pub filename : ℕ

unfoldable pub LocationMirror-discrete : Discrete LocationMirror
LocationMirror-discrete = hlevel ℕ_discrete

instance abbrev pub location_mirror_eq : Eq LocationMirror
location_mirror_eq = record { dec = LocationMirror-discrete }

unfoldable pub FunctionMirror-discrete : Discrete FunctionMirror
FunctionMirror-discrete = hlevel ℕ_discrete

instance abbrev pub function_mirror_eq : Eq FunctionMirror
function_mirror_eq = record { dec = FunctionMirror-discrete }

pub record PProfBuilder : Type 0 where
  pub profile : Profile
  pub strings : Map String ℕ
  pub functions : Map FunctionMirror ℕ
  pub locations : Map LocationMirror ℕ

-- the body that `add_string`, `add_function` and `add_location` share: look the key up, or assert
-- that the map is not one longer than the list and add a row, whose number counts from `base`
unfoldable pub add_row :
    {K V : Type 0} ⦃e : Eq K⦄ → ℕ → K → (ℕ → V) → Map K ℕ → List V → Option (ℕ × Map K ℕ × List V)
add_row base key make index items = elim (Map.get key index) [
  | some id ↦ some (id, index, items)
  | none ↦
      if eqb (length index) (length items + 1)
      then none
      else let id = length index + base in some (id, Map.insert key id index, items ++ make id ∷ [])
]

unfoldable pub add_string : PProfBuilder → String → Option (ℕ × PProfBuilder)
unfolding add_row
add_string b s =
    option_bind (add_row 0 s (λ id. s) b.strings b.profile.string_table) λ (id, index, items).
      some (id, record b { profile = record b.profile { string_table = items }; strings = index })

abbrev pub function_of : FunctionMirror → ℕ → Function
function_of fm id = record {
  id = id;
  name = fm.name;
  system_name = 0;
  filename = fm.filename;
  start_line = 0;
}

unfoldable pub add_function : PProfBuilder → FunctionMirror → Option (ℕ × PProfBuilder)
unfolding add_row
add_function b fm =
    option_bind (add_row 1 fm (function_of fm) b.functions b.profile.function) λ (id, index, items).
      some (id, record b { profile = record b.profile { function = items }; functions = index })

abbrev pub location_of : LocationMirror → ℕ → Location
location_of lm id = record {
  id = id;
  mapping_id = 0;
  address = 0;
  line = record { function_id = lm.function_id; line = lm.line } ∷ [];
  is_folded = false;
}

unfoldable pub add_location : PProfBuilder → LocationMirror → Option (ℕ × PProfBuilder)
unfolding add_row
add_location b lm =
    option_bind (add_row 1 lm (location_of lm) b.locations b.profile.location) λ (id, index, items).
      some (id, record b { profile = record b.profile { location = items }; locations = index })

-- one round of the loop over frames
unfoldable pub add_frame : PProfBuilder → StackFrame → Option (ℕ × PProfBuilder)
unfolding add_string add_function add_location
add_frame b sf = option_bind (add_string b (unwrap_or sf.name "")) λ (name, b₁).
    option_bind (add_string b₁ (unwrap_or sf.filename "")) λ (filename, b₂).
      option_bind (add_function b₂ (record { name = name; filename = filename }))
        λ (function_id, b₃).
          add_location b₃ (record { function_id = function_id; line = unwrap_or sf.line 0 })

unfoldable pub add_frames : PProfBuilder → List StackFrame → Option (List ℕ × PProfBuilder)
unfolding add_frame
add_frames b [] = some ([], b)
add_frames b (sf ∷ frames) =
    option_bind (add_frame b sf)
      λ (id, b₁). option_bind (add_frames b₁ frames) λ (ids, b₂). some (id ∷ ids, b₂)

-- a loop over tags
unfoldable pub add_labels : PProfBuilder → Map ℕ ℕ → List Tag → Option (Map ℕ ℕ × PProfBuilder)
unfolding add_string
add_labels b labels [] = some (labels, b)
add_labels b labels (l ∷ tags) = option_bind (add_string b l.key) λ (k, b₁).
    option_bind (add_string b₁ l.value) λ (v, b₂). add_labels b₂ (Map.insert k v labels) tags

abbrev pub label_of : ℕ × ℕ → Label
label_of (k, v) = record { key = k; str = v; num = 0; num_unit = 0 }

-- one round of the loop over the stack traces of a report
unfoldable pub add_trace : PProfBuilder → List Tag → StackTrace × ℕ → Option PProfBuilder
unfolding add_frames add_labels
add_trace b report_tags (stacktrace, value) =
    option_bind (add_frames b stacktrace.frames) λ (ids, b₁).
      option_bind (add_labels b₁ [] stacktrace.metadata.tags) λ (labels, b₂).
        option_bind (add_labels b₂ labels report_tags) λ (all, b₃).
          let sample : Sample = record {
            location_id = ids;
            value = (value * b.profile.period % 2 ^ 64) ∷ [];
            label = map label_of all;
          } in
          some (record b₃ {
            profile = record b₃.profile { sample = b₃.profile.sample ++ sample ∷ [] };
          })

unfoldable pub add_traces : PProfBuilder → List Tag → Map StackTrace ℕ → Option PProfBuilder
unfolding add_trace
add_traces b report_tags [] = some b
add_traces b report_tags (entry ∷ rest) =
    option_bind (add_trace b report_tags entry) λ b₁. add_traces b₁ report_tags rest

unfoldable pub add_reports : PProfBuilder → List Report → Option PProfBuilder
unfolding add_traces
add_reports b [] = some b
add_reports b (report ∷ reports) =
    option_bind (add_traces b report.metadata.tags report.counts) λ b₁. add_reports b₁ reports

unfoldable pub empty_builder : ℕ → ℕ → PProfBuilder
empty_builder start_time_nanos duration_nanos = record {
  profile = record {
    sample_type = [];
    sample = [];
    location = [];
    function = [];
    string_table = [];
    drop_frames = 0;
    keep_frames = 0;
    time_nanos = start_time_nanos;
    duration_nanos = duration_nanos;
    period_type = none;
    period = 0;
    comment = [];
    default_sample_type = 0;
  };
  strings = [];
  functions = [];
  locations = [];
}

-- `1_000_000_000 / sample_rate as i64`
unfoldable pub period_of : ℕ → Option ℕ
period_of sample_rate = if eqb sample_rate 0 then none else some (1_000_000_000 / sample_rate)

-- `encode` before its loops
unfoldable pub begin : ℕ → ℕ → ℕ → Option PProfBuilder
unfolding empty_builder add_string period_of
begin sample_rate start_time_nanos duration_nanos =
    option_bind (add_string (empty_builder start_time_nanos duration_nanos) "") λ (empty, b₀).
      option_bind (add_string b₀ "cpu") λ (cpu, b₁).
        option_bind (add_string b₁ "nanoseconds") λ (nanoseconds, b₂).
          option_bind (period_of sample_rate) λ period.
            let value_type : ValueType = record { type = cpu; unit = nanoseconds } in
            some (record b₂ {
              profile = record b₂.profile {
                sample_type = b₂.profile.sample_type ++ value_type ∷ [];
                period = period;
                period_type = some value_type;
              };
            })

-- the program's `encode`
unfoldable pub encode : List Report → ℕ → ℕ → ℕ → Option Profile
unfolding begin add_reports
encode reports sample_rate start_time_nanos duration_nanos =
    option_bind (begin sample_rate start_time_nanos duration_nanos)
      λ b. option_bind (add_reports b reports) λ b'. some b'.profile
