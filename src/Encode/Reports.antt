-- ===== src/Encode/Reports.antt =====
-- `encode` of src/encode/pprof.rs from the reports to the profile.
use pyroscope_rs.Base.{
  ℕ, ◌+◌, ◌/◌, ◌≡◌, ◌≢◌, refl, ap, ◌∙◌, List, [], ◌∷◌, ◌++◌, Option, none, some, arith, get_elem?,
  Extends-refl, ne→eqb,
}
use pyroscope_rs.Base.Equality.{string_eq}
use pyroscope_rs.Base.Map
use pyroscope_rs.Backend.{Report}
use pyroscope_rs.Encode.{
  ValueType, Function, Location, Profile, PProfBuilder, add_row, location_mirror_eq,
  function_mirror_eq, add_string, empty_builder, period_of, begin, encode,
}
use pyroscope_rs.Encode.Tables.{header_of, IsBuilder, Step-trans, add_string-Step}
use pyroscope_rs.Encode.Samples.{
  samples_at, expected_samples, frame_of, Holds, add_reports-Holds, empty_builder-IsBuilder,
}

-- What the profile says besides its samples.
pub record HasHeader (p : Profile) (period start_time_nanos duration_nanos : ℕ) : Type 0 where
  pub empty_first : get_elem? p.string_table 0 ≡ some ""
  pub cpu : ℕ
  pub nanoseconds : ℕ
  pub at_cpu : get_elem? p.string_table cpu ≡ some "cpu"
  pub at_nanoseconds : get_elem? p.string_table nanoseconds ≡ some "nanoseconds"
  pub sample_type : p.sample_type ≡ record { type = cpu; unit = nanoseconds } ∷ []
  pub period_type : p.period_type ≡ some (record { type = cpu; unit = nanoseconds })
  pub period_value : p.period ≡ period
  pub times : (p.time_nanos ≡ start_time_nanos) × (p.duration_nanos ≡ duration_nanos)
  pub function_ids : (i : ℕ) (f : Function) → get_elem? p.function i ≡ some f → f.id ≡ i + 1
  pub location_ids : (i : ℕ) (l : Location) → get_elem? p.location i ≡ some l → l.id ≡ i + 1

-- The builder before the loops.
record Begins (b : PProfBuilder) (period start_time_nanos duration_nanos : ℕ) : Type 0 where
  valid : IsBuilder b
  empty_first : get_elem? b.profile.string_table 0 ≡ some ""
  cpu : ℕ
  nanoseconds : ℕ
  at_cpu : get_elem? b.profile.string_table cpu ≡ some "cpu"
  at_nanoseconds : get_elem? b.profile.string_table nanoseconds ≡ some "nanoseconds"
  no_samples : b.profile.sample ≡ []
  sample_type : b.profile.sample_type ≡ record { type = cpu; unit = nanoseconds } ∷ []
  period_type : b.profile.period_type ≡ some (record { type = cpu; unit = nanoseconds })
  period_value : b.profile.period ≡ period
  times : (b.profile.time_nanos ≡ start_time_nanos) × (b.profile.duration_nanos ≡ duration_nanos)

first_string :
    (s d : ℕ) (id : ℕ) (b : PProfBuilder)
    → add_string (empty_builder s d) "" ≡ some (id, b)
    → get_elem? b.profile.string_table 0 ≡ some ""
unfolding add_string add_row empty_builder Map.get Map.insert
first_string s d id b h = ground (arith, h)

IsBuilder-header :
    (b : PProfBuilder) (types : List ValueType) (period : ℕ) (type : Option ValueType)
    → IsBuilder b
    → IsBuilder (record b {
      profile = record b.profile { sample_type = types; period = period; period_type = type };
    })
IsBuilder-header b types period type v = record {
  strings = v.strings;
  functions = v.functions;
  locations = v.locations;
  function_rows = v.function_rows;
  location_rows = v.location_rows;
}

begin-Begins :
    (sample_rate s d period : ℕ)
    → period_of sample_rate ≡ some period
    → (b : PProfBuilder) × (begin sample_rate s d ≡ some b) × Begins b period s d
unfolding begin
begin-Begins sample_rate s d period rate =
    let b = empty_builder s d in
    let (empty, b₀, run₀, s₀, at_empty) = add_string-Step b "" (empty_builder-IsBuilder s d) in
    let (cpu, b₁, run₁, s₁, at_cpu) = add_string-Step b₀ "cpu" s₀.valid in
    let (nanoseconds, b₂, run₂, s₂, at_nanoseconds) = add_string-Step b₁ "nanoseconds" s₁.valid in
    let later = Step-trans s₁ s₂ in
    let header : header_of b₂.profile ≡ header_of b.profile = (Step-trans s₀ later).header in
    let fresh : header_of b.profile ≡ b.profile = unfold empty_builder in refl in
    let same : header_of b₂.profile ≡ b.profile = header ∙ fresh in
    let vt : ValueType = record { type = cpu; unit = nanoseconds } in
    (
      record b₂ {
        profile = record b₂.profile {
          sample_type = b₂.profile.sample_type ++ vt ∷ [];
          period = period;
          period_type = some vt;
        };
      },
      rw (run₀, run₁, run₂, rate),
      record {
        valid = IsBuilder-header b₂ (b₂.profile.sample_type ++ vt ∷ []) period (some vt) s₂.valid;
        empty_first = later.grows.strings 0 "" (first_string s d empty b₀ run₀);
        cpu = cpu;
        nanoseconds = nanoseconds;
        at_cpu = s₂.grows.strings cpu "cpu" at_cpu;
        at_nanoseconds = at_nanoseconds;
        no_samples = ap (λ (p : Profile). p.sample) same ∙ unfold empty_builder in refl;
        sample_type =
            ap (λ (p : Profile). p.sample_type ++ vt ∷ []) same ∙ unfold empty_builder in refl;
        period_type = refl;
        period_value = refl;
        times = (
          ap (λ (p : Profile). p.time_nanos) same ∙ unfold empty_builder in refl,
          ap (λ (p : Profile). p.duration_nanos) same ∙ unfold empty_builder in refl,
        );
      },
    )

begin_zero : (s d : ℕ) → begin 0 s d ≡ none
unfolding begin period_of
begin_zero s d =
    let (empty, b₀, run₀, s₀, at_empty) =
      add_string-Step (empty_builder s d) "" (empty_builder-IsBuilder s d) in
    let (cpu, b₁, run₁, s₁, at_cpu) = add_string-Step b₀ "cpu" s₀.valid in
    let (nanoseconds, b₂, run₂, s₂, at_nanoseconds) = add_string-Step b₁ "nanoseconds" s₁.valid in
    rw (run₀, run₁, run₂)

-- For every sample rate but 0 `encode` does not panic. Its profile has the period of the rate, names cpu
-- and nanoseconds, and its samples read back, through the tables, as the stack traces of the reports in
-- their order, each with its frames, with its count times the period (wrapping at 64 bits), and with the
-- tags of the trace overridden by those of the report; a rate of 0 panics.
pub encode-expected_samples :
    (reports : List Report) (sample_rate start_time_nanos duration_nanos : ℕ)
    → sample_rate ≢ 0
    → (p : Profile) × (encode reports sample_rate start_time_nanos duration_nanos ≡ some p)
      × HasHeader p (1_000_000_000 / sample_rate) start_time_nanos duration_nanos
      × (samples_at p p.sample ≡ some (expected_samples (1_000_000_000 / sample_rate) reports))
      × (encode reports 0 start_time_nanos duration_nanos ≡ none)
unfolding encode samples_at
encode-expected_samples reports sample_rate start_time_nanos duration_nanos nonzero =
    let period = 1_000_000_000 / sample_rate in
    let rate : period_of sample_rate ≡ some period = rw (ne→eqb sample_rate 0 nonzero, period_of) in
    let (b, run, first) = begin-Begins sample_rate start_time_nanos duration_nanos period rate in
    let start : Holds b (frame_of b.profile) b.profile.string_table [] = record {
      valid = first.valid;
      header = refl;
      strings = Extends-refl b.profile.string_table;
      samples = rw first.no_samples;
    } in
    let (b', runs, done) =
      add_reports-Holds b reports (frame_of b.profile) b.profile.string_table [] start in
    let header = done.header in
    let late : b'.profile.period ≡ b.profile.period = ap (λ (p : Profile). p.period) header in
    let e = first.period_value in
    (
      b'.profile,
      rw (run, runs),
      record {
        empty_first = done.strings 0 "" first.empty_first;
        cpu = first.cpu;
        nanoseconds = first.nanoseconds;
        at_cpu = done.strings first.cpu "cpu" first.at_cpu;
        at_nanoseconds = done.strings first.nanoseconds "nanoseconds" first.at_nanoseconds;
        sample_type = ap (λ (p : Profile). p.sample_type) header ∙ first.sample_type;
        period_type = ap (λ (p : Profile). p.period_type) header ∙ first.period_type;
        period_value = late ∙ e;
        times = (
          ap (λ (p : Profile). p.time_nanos) header ∙ first.times.0,
          ap (λ (p : Profile). p.duration_nanos) header ∙ first.times.1,
        );
        function_ids = λ i f h.
            let (fm, shape) = done.valid.function_rows i f h in ap (λ (g : Function). g.id) shape;
        location_ids = λ i l h.
            let (lm, shape) = done.valid.location_rows i l h in ap (λ (k : Location). k.id) shape;
      },
      done.samples ∙ ap (λ (n : ℕ). some (expected_samples n reports)) e,
      rw (begin_zero start_time_nanos duration_nanos),
    )
