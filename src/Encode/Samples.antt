-- ===== src/Encode/Samples.antt =====
-- The samples that `encode` makes (src/encode/pprof.rs), read back from the profile.
use mathlib.Core.List.{append_assoc, append-nil}
use pyroscope_rs.Base.{
  ℕ, ◌*◌, ◌%◌, ◌^◌, ◌≡◌, refl, sym, ap, subst, ◌∙◌, String, List, [], ◌∷◌, ◌++◌, Option, some, map,
  arith, Extends, option_bind, option_bind-eq_some,
}
use pyroscope_rs.Base.Equality.{string_eq}
use pyroscope_rs.Base.Map.{Map}
use pyroscope_rs.Base.Index.{IsIndex-empty}
use pyroscope_rs.Backend.{Tag, StackFrame, StackTrace, Report}
use pyroscope_rs.Encode.{
  Sample, Profile, location_mirror_eq, function_mirror_eq, PProfBuilder, add_frames, label_of,
  add_trace, add_traces, add_reports, empty_builder,
}
use pyroscope_rs.Encode.Tables.{
  FrameView, view_of, frame_at, mirror_of_function, mirror_of_location, IsBuilder, Grows, Step,
  Step-refl, Step-trans, frame_at-Grows, add_frame-Step,
}
use pyroscope_rs.Encode.Labels.{labels_at, labels_at-Extends, with_tags, add_labels-Step}

-- A sample as a reader of the profile sees it.
pub record SampleView : Type 0 where
  pub stack : List FrameView
  pub value : List ℕ
  pub labels : Map String String

unfoldable pub stack_at : Profile → List ℕ → Option (List FrameView)
stack_at p [] = some []
stack_at p (id ∷ ids) =
    option_bind (frame_at p id) λ f. option_bind (stack_at p ids) λ fs. some (f ∷ fs)

unfoldable pub samples_at : Profile → List Sample → Option (List SampleView)
samples_at p [] = some []
samples_at p (s ∷ ss) = option_bind (stack_at p s.location_id) λ stack.
    option_bind (labels_at p.string_table s.label) λ labels.
      option_bind (samples_at p ss)
        λ rest. some (record { stack = stack; value = s.value; labels = labels } ∷ rest)

-- What the profile is to say of one stack trace of a report.
abbrev pub expected_sample : ℕ → List Tag → StackTrace × ℕ → SampleView
expected_sample period report_tags (t, count) = record {
  stack = map view_of t.frames;
  value = (count * period % 2 ^ 64) ∷ [];
  labels = with_tags (with_tags [] t.metadata.tags) report_tags;
}

abbrev pub expected_samples : ℕ → List Report → List SampleView
expected_samples period [] = []
expected_samples period (r ∷ rs) =
    map (expected_sample period r.metadata.tags) r.counts ++ expected_samples period rs

stack_at-Grows :
    (p q : Profile) (ids : List ℕ) {stack : List FrameView}
    → Grows p q
    → stack_at p ids ≡ some stack
    → stack_at q ids ≡ some stack
unfolding stack_at
stack_at-Grows p q [] g h = h
stack_at-Grows p q (id ∷ ids) g h =
    let (f, at_f, h₁) = option_bind-eq_some (frame_at p id) _ h in
    let (fs, at_fs, h₂) = option_bind-eq_some (stack_at p ids) _ h₁ in
    rw (frame_at-Grows id g at_f, stack_at-Grows p q ids g at_fs) h₂

-- Growing tables keep the samples, and a sample more is read after them.
samples_at-push :
    (p q : Profile) (ss : List Sample) (s : Sample) (views : List SampleView)
    (stack : List FrameView) (labels : Map String String)
    → Grows p q
    → samples_at p ss ≡ some views
    → stack_at q s.location_id ≡ some stack
    → labels_at q.string_table s.label ≡ some labels
    → samples_at q (ss ++ s ∷ [])
      ≡ some (views ++ record { stack = stack; value = s.value; labels = labels } ∷ [])
unfolding samples_at
samples_at-push p q [] s views stack labels g h at_stack at_labels =
    let e : [] ≡ views = ground (arith, h) in rw (at_stack, at_labels, ← e)
samples_at-push p q (t ∷ ss) s views stack labels g h at_stack at_labels =
    let (st, at_st, h₁) = option_bind-eq_some (stack_at p t.location_id) _ h in
    let (ls, at_ls, h₂) = option_bind-eq_some (labels_at p.string_table t.label) _ h₁ in
    let (rest, at_rest, h₃) = option_bind-eq_some (samples_at p ss) _ h₂ in
    let e : record { stack = st; value = t.value; labels = ls } ∷ rest ≡ views =
      ground (arith, h₃) in
    rw (
      stack_at-Grows p q t.location_id g at_st,
      labels_at-Extends p.string_table q.string_table t.label g.strings at_ls,
      samples_at-push p q ss s rest stack labels g at_rest at_stack at_labels,
      ← e,
    )

add_frames-Step :
    (b : PProfBuilder) (frames : List StackFrame)
    → IsBuilder b
    → (ids : List ℕ) × (b' : PProfBuilder) × (add_frames b frames ≡ some (ids, b'))
      × Step b b'
      × (stack_at b'.profile ids ≡ some (map view_of frames))
unfolding add_frames stack_at
add_frames-Step b [] v = ([], b, refl, Step-refl b v, refl)
add_frames-Step b (sf ∷ frames) v =
    let (id, b₁, run₁, s₁, at_id) = add_frame-Step b sf v in
    let (ids, b₂, run₂, s₂, at_ids) = add_frames-Step b₁ frames s₁.valid in
    (id ∷ ids, b₂, rw (run₁, run₂), Step-trans s₁ s₂, rw (frame_at-Grows id s₂.grows at_id, at_ids))

-- the profile without its tables and samples
abbrev pub frame_of : Profile → Profile
frame_of p = record p { sample = []; location = []; function = []; string_table = [] }

-- A builder after some stack traces were added: its samples read as `views`.
pub record Holds (b : PProfBuilder) (head : Profile) (table : List String) (views : List SampleView)
    : Type 0 where
  pub valid : IsBuilder b
  pub header : frame_of b.profile ≡ head
  pub strings : Extends table b.profile.string_table
  pub samples : samples_at b.profile b.profile.sample ≡ some views

IsBuilder-samples :
    (b : PProfBuilder) (ss : List Sample)
    → IsBuilder b
    → IsBuilder (record b { profile = record b.profile { sample = ss } })
IsBuilder-samples b ss v = record {
  strings = v.strings;
  functions = v.functions;
  locations = v.locations;
  function_rows = v.function_rows;
  location_rows = v.location_rows;
}

add_trace-Holds :
    (b : PProfBuilder) (report_tags : List Tag) (t : StackTrace) (count : ℕ) (head : Profile)
    (strings : List String) (views : List SampleView)
    → Holds b head strings views
    → (b' : PProfBuilder) × (add_trace b report_tags (t, count) ≡ some b')
      × Holds b' head strings (views ++ expected_sample head.period report_tags (t, count) ∷ [])
unfolding add_trace labels_at
add_trace-Holds b report_tags t count head strings views holds =
    let (ids, b₁, run₁, s₁, at_ids) = add_frames-Step b t.frames holds.valid in
    let (own, b₂, run₂, s₂, at_own) = add_labels-Step b₁ [] t.metadata.tags [] s₁.valid refl in
    let (all, b₃, run₃, s₃, at_all) =
      add_labels-Step b₂ own report_tags (with_tags [] t.metadata.tags) s₂.valid at_own in
    let s = Step-trans s₁ (Step-trans s₂ s₃) in
    let sample : Sample = record {
      location_id = ids;
      value = (count * b.profile.period % 2 ^ 64) ∷ [];
      label = map label_of all;
    } in
    let q : Profile = record b₃.profile { sample = b₃.profile.sample ++ sample ∷ [] } in
    let kept : b₃.profile.sample ≡ b.profile.sample = ap (λ (p : Profile). p.sample) s.header in
    let period : head.period ≡ b.profile.period =
      ap (λ (p : Profile). p.period) (sym holds.header) in
    let grows : Grows b.profile q = record {
      strings = s.grows.strings;
      functions = s.grows.functions;
      locations = s.grows.locations;
    } in
    let late = Step-trans s₂ s₃ in
    let last : Grows b₁.profile q = record {
      strings = late.grows.strings;
      functions = late.grows.functions;
      locations = late.grows.locations;
    } in
    (
      record b₃ { profile = q },
      rw (run₁, run₂, run₃),
      record {
        valid = IsBuilder-samples b₃ (b₃.profile.sample ++ sample ∷ []) s₃.valid;
        header = ap frame_of s.header ∙ holds.header;
        strings = λ i a h. s.grows.strings i a (holds.strings i a h);
        samples =
            ap (λ (ss : List Sample). samples_at q (ss ++ sample ∷ [])) kept
            ∙ samples_at-push b.profile q b.profile.sample sample views (map view_of t.frames)
                (with_tags (with_tags [] t.metadata.tags) report_tags) grows holds.samples
                (stack_at-Grows b₁.profile q ids last at_ids) at_all
            ∙ rw period;
      },
    )

add_traces-Holds :
    (b : PProfBuilder) (report_tags : List Tag) (m : Map StackTrace ℕ) (head : Profile)
    (strings : List String) (views : List SampleView)
    → Holds b head strings views
    → (b' : PProfBuilder) × (add_traces b report_tags m ≡ some b')
      × Holds b' head strings (views ++ map (expected_sample head.period report_tags) m)
unfolding add_traces
add_traces-Holds b report_tags [] head strings views holds = (b, refl, rw (append-nil views) holds)
add_traces-Holds b report_tags ((t, count) ∷ rest) head strings views holds =
    let v = expected_sample head.period report_tags (t, count) in
    let (b₁, run₁, h₁) = add_trace-Holds b report_tags t count head strings views holds in
    let (b₂, run₂, h₂) = add_traces-Holds b₁ report_tags rest head strings (views ++ v ∷ []) h₁ in
    let e : (views ++ v ∷ []) ++ map (expected_sample head.period report_tags) rest
        ≡ views ++ v ∷ map (expected_sample head.period report_tags) rest =
      append_assoc views (v ∷ []) _ in
    (b₂, rw run₁ run₂, subst (Holds b₂ head strings) e h₂)

pub add_reports-Holds :
    (b : PProfBuilder) (reports : List Report) (head : Profile) (strings : List String)
    (views : List SampleView)
    → Holds b head strings views
    → (b' : PProfBuilder) × (add_reports b reports ≡ some b')
      × Holds b' head strings (views ++ expected_samples head.period reports)
unfolding add_reports
add_reports-Holds b [] head strings views holds = (b, refl, rw (append-nil views) holds)
add_reports-Holds b (r ∷ reports) head strings views holds =
    let (b₁, run₁, h₁) = add_traces-Holds b r.metadata.tags r.counts head strings views holds in
    let here = map (expected_sample head.period r.metadata.tags) r.counts in
    let (b₂, run₂, h₂) = add_reports-Holds b₁ reports head strings (views ++ here) h₁ in
    let e : (views ++ here) ++ expected_samples head.period reports
        ≡ views ++ (here ++ expected_samples head.period reports) =
      append_assoc views here _ in
    (b₂, rw run₁ run₂, subst (Holds b₂ head strings) e h₂)

pub empty_builder-IsBuilder : (s d : ℕ) → IsBuilder (empty_builder s d)
unfolding empty_builder
empty_builder-IsBuilder s d = record {
  strings = record { valid = IsIndex-empty {V = String} (λ x. x) 0; size = refl };
  functions = record { valid = IsIndex-empty mirror_of_function 1; size = refl };
  locations = record { valid = IsIndex-empty mirror_of_location 1; size = refl };
  function_rows = λ i f h. cc;
  location_rows = λ i f h. cc;
}
