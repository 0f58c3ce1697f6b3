-- ===== src/PprofEnc/Encode.antt =====
-- `new`, `reset` and `encode` (kit/pprof_enc/src/lib.rs), and a window from the one to the other.
use pyroscope_rs.Base.{
  ℕ, ◌+◌, ◌*◌, ◌%◌, ◌^◌, ◌≡◌, refl, sym, ◌∙◌, List, [], ◌∷◌, Option, some, get_elem?, option_bind,
  ◌==◌, if◌then◌else◌, Extends, Extends-refl,
}
use pyroscope_rs.Base.Equality.{string_eq, nat_eq}
use pyroscope_rs.Base.Map
use pyroscope_rs.Base.Index.{IsIndex-empty}
use pyroscope_rs.PprofEnc.{
  Profile, Sample, Function, Location, Frame, stack_eq, ids_eq, function_key_eq, ProfileBuilder,
  intern, key_of, new_table, new, add_sample, reset, encode,
}
use pyroscope_rs.PprofEnc.Tables.{frame_at, resolve, location_key, Interns, intern-Interns, Grows}
use pyroscope_rs.PprofEnc.Locations.{resolve_all-Grows}
use pyroscope_rs.PprofEnc.Samples.{IsSample, IsValid, total_of, total, total_of-resolves}
use pyroscope_rs.PprofEnc.AddSample.{add_sample-Adds}

new_table-Interns : Interns (record { strings = []; index = [] }) "" (0, new_table)
unfolding new_table intern Map.get
new_table-Interns =
    intern-Interns (record { strings = []; index = [] }) "" (IsIndex-empty (λ s. s) 0)

-- A new builder is valid and holds no sample.
pub new-IsValid :
    (time_nanos duration_nanos period : ℕ)
    → IsValid (new time_nanos duration_nanos period)
      × ((frames : List Frame) → total (new time_nanos duration_nanos period) frames ≡ 0)
unfolding new total
new-IsValid time_nanos duration_nanos period = (
  record {
    tables = record {
      empty_first = new_table-Interns.found;
      strings = new_table-Interns.valid;
      functions = IsIndex-empty key_of 1;
      named = λ i f h. cc;
      function_ids = λ i f h. cc;
      locations = IsIndex-empty location_key 1;
      placed = λ i f h. cc;
      location_ids = λ i f h. cc;
    };
    sampled = IsIndex-empty (λ s. s.location_id) 0;
    samples = λ i f h. cc;
  },
  λ frames. refl,
)

-- A reset forgets everything but the period, whatever the builder went through.
pub reset-eq-new :
    (b : ProfileBuilder) (time_nanos duration_nanos : ℕ)
    → reset b time_nanos duration_nanos ≡ new time_nanos duration_nanos b.period
unfolding reset new
reset-eq-new b time_nanos duration_nanos = refl

abbrev pub profile_frame : Profile → ℕ → Option Frame
profile_frame p = frame_at p.string_table p.function p.location

-- What a reader of the message relies on.
pub record IsProfile (p : Profile) : Type 0 where
  pub empty_first : get_elem? p.string_table 0 ≡ some ""
  pub cpu : ℕ
  pub nanoseconds : ℕ
  pub at_cpu : get_elem? p.string_table cpu ≡ some "cpu"
  pub at_nanoseconds : get_elem? p.string_table nanoseconds ≡ some "nanoseconds"
  pub sample_type : p.sample_type ≡ record { type = cpu; unit = nanoseconds } ∷ []
  pub period_type : p.period_type ≡ some (record { type = cpu; unit = nanoseconds })
  pub function_ids : (i : ℕ) (f : Function) → get_elem? p.function i ≡ some f → f.id ≡ i + 1
  pub location_ids : (i : ℕ) (l : Location) → get_elem? p.location i ≡ some l → l.id ≡ i + 1
  pub samples : (i : ℕ) (s : Sample) → get_elem? p.sample i ≡ some s → IsSample (profile_frame p) s

-- The message of a valid builder: string 0 is empty, the sample type is cpu in nanoseconds, functions
-- and locations have their row numbers as ids, every sample's ids lead through the tables to its
-- frames, and each stack has the builder's total.
pub encode-IsProfile :
    (b : ProfileBuilder) (frames : List Frame)
    → IsValid b
    → IsProfile (encode b).0
      × (total_of (profile_frame (encode b).0) (encode b).0.sample frames ≡ total b frames)
unfolding encode total
encode-IsProfile b frames valid =
    let first = intern b.st "cpu" in
    let s = intern-Interns b.st "cpu" valid.tables.strings in
    let second = intern first.1 "nanoseconds" in
    let t = intern-Interns first.1 "nanoseconds" s.valid in
    let ext : Extends b.st.strings second.1.strings = λ i a h. t.extends i a (s.extends i a h) in
    let grows : Grows b (record b { st = second.1 }) = record {
      strings = ext;
      functions = Extends-refl b.functions;
      locations = Extends-refl b.locations;
    } in
    (
      record {
        empty_first = ext 0 "" valid.tables.empty_first;
        cpu = first.0;
        nanoseconds = second.0;
        at_cpu = t.extends first.0 "cpu" s.found;
        at_nanoseconds = t.found;
        sample_type = refl;
        period_type = refl;
        function_ids = valid.tables.function_ids;
        location_ids = valid.tables.location_ids;
        samples = λ i u h.
            let x = valid.samples i u h in
            record {
              frames = x.frames;
              value = x.value;
              resolves = resolve_all-Grows grows u.location_id x.frames x.resolves;
              one_value = x.one_value;
              fits = x.fits;
            };
      },
      total_of-resolves (resolve b) _ b.samples frames λ i u h.
          let x = valid.samples i u h in
          resolve_all-Grows grows u.location_id x.frames x.resolves ∙ sym x.resolves,
    )

-- The samples of a window, added in turn.
unfoldable pub add_samples : ProfileBuilder → List (List Frame × ℕ) → Option ProfileBuilder
add_samples b [] = some b
add_samples b ((frames, count) ∷ rest) =
    option_bind (add_sample b frames count) λ b'. add_samples b' rest

-- What a window says of one stack, computed from the samples alone.
unfoldable pub expected : ℕ → ℕ → List (List Frame × ℕ) → List Frame → ℕ
expected period start [] fs = start
expected period start ((frames, count) ∷ rest) fs =
    expected period (if frames == fs then (start + count * period % 2 ^ 64) % 2 ^ 64 else start)
      rest fs

add_samples-expected :
    (b : ProfileBuilder) (window : List (List Frame × ℕ)) (period : ℕ)
    → IsValid b
    → b.period ≡ period
    → (b' : ProfileBuilder) × (add_samples b window ≡ some b')
      × IsValid b'
      × ((fs : List Frame) → total b' fs ≡ expected period (total b fs) window fs)
unfolding add_samples expected
add_samples-expected b [] period valid e = (b, refl, valid, λ fs. refl)
add_samples-expected b ((frames, count) ∷ rest) period valid e =
    let (b₁, run, adds) = add_sample-Adds b frames count valid in
    let (b₂, runs, valid₂, totals) =
      add_samples-expected b₁ rest period adds.valid (adds.period ∙ e) in
    (b₂, rw run runs, valid₂, λ fs. totals fs ∙ rw (adds.totals fs, e))

-- A window of the reader, from a new builder to the message: no sample panics, the message is well
-- formed, and it gives each stack the sum of `count * period` over its samples, wrapping at 64 bits.
pub window-expected :
    (time_nanos duration_nanos period : ℕ) (window : List (List Frame × ℕ)) (frames : List Frame)
    → (b : ProfileBuilder) × (add_samples (new time_nanos duration_nanos period) window ≡ some b)
      × IsProfile (encode b).0
      × (total_of (profile_frame (encode b).0) (encode b).0.sample frames
          ≡ expected period 0 window frames)
window-expected time_nanos duration_nanos period window frames =
    let (valid, empty) = new-IsValid time_nanos duration_nanos period in
    let (b, run, valid', totals) =
      add_samples-expected (new time_nanos duration_nanos period) window period valid
        (unfold new in refl) in
    let (message, same) = encode-IsProfile b frames valid' in
    (b, run, message, same ∙ totals frames ∙ rw (empty frames))
