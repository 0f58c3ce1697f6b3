-- ===== src/Tests/Profiles.antt =====
-- The builder of kit/pprof_enc/src/lib.rs on two stacks that share frames.
use native.Mathlib.Decide.{ℕ_discrete}
use pyroscope_rs.Base.{
  row, ◌*◌, ◌%◌, ◌^◌, ◌≡◌, refl, List, [], ◌∷◌, none, some, unwrap_or, get_elem?,
}
use pyroscope_rs.Base.Map
use pyroscope_rs.Base.Equality.{String-discrete, list_discrete, string_eq}
use pyroscope_rs.PprofEnc.{
  Frame, Frame-discrete, FunctionKey-discrete, ProfileBuilder, intern, new_table, new,
  insert_function, intern_function, intern_location, intern_frame, intern_frames, bump, merge,
  record_sample, add_sample, encode, reset,
}
use pyroscope_rs.PprofEnc.Tables.{frame_at, resolve}
use pyroscope_rs.PprofEnc.Locations.{resolve_all}
use pyroscope_rs.PprofEnc.Samples.{IsValid, total_of, total}
use pyroscope_rs.PprofEnc.AddSample.{Adds, add_sample-Adds}
use pyroscope_rs.PprofEnc.Encode.{
  new-IsValid, profile_frame, IsProfile, encode-IsProfile, add_samples, expected, window-expected,
}
use pyroscope_rs.PprofEnc.Stale.{add_sample-encode}

program : Unit {0}
unfolding row ℕ_discrete list_discrete frame_at Map.get Map.insert String-discrete Frame-discrete
    FunctionKey-discrete intern new_table new insert_function intern_function intern_location
    intern_frame intern_frames bump merge record_sample add_sample encode reset resolve_all total
    expected
program = tt

abbrev main : Frame
main = record { function_name = "main"; filename = "a.py"; first_line = 1 }

abbrev inner : Frame
inner = record { function_name = "inner"; filename = "a.py"; first_line = 7 }

abbrev outer_stack : List Frame
outer_stack = main ∷ []

abbrev inner_stack : List Frame
inner_stack = inner ∷ main ∷ []

abbrev fresh : ProfileBuilder
fresh = new 1000 500 10

abbrev one_sample : ProfileBuilder
one_sample = unwrap_or (add_sample fresh inner_stack 3) fresh

one_sample-IsValid : IsValid one_sample
one_sample-IsValid =
    let (b, run, adds) = add_sample-Adds fresh inner_stack 3 (new-IsValid 1000 500 10).0 in
    rw run adds.valid

first_sample :
    get_elem? one_sample.samples 0 ≡ some (record { location_id = 1 ∷ 2 ∷ []; value = 30 ∷ [] })
unfolding program
first_sample = refl

first_stack : resolve_all (resolve one_sample) (1 ∷ 2 ∷ []) ≡ some inner_stack
unfolding program
first_stack = refl

window-expected_example :
    (b : ProfileBuilder) × (add_samples fresh
        ((inner_stack, 3) ∷ (outer_stack, 1) ∷ (inner_stack, 2) ∷ [])
      ≡ some b)
    × IsProfile (encode b).0
    × (total_of (profile_frame (encode b).0) (encode b).0.sample inner_stack
        ≡ expected 10 0 ((inner_stack, 3) ∷ (outer_stack, 1) ∷ (inner_stack, 2) ∷ []) inner_stack)
window-expected_example =
    window-expected 1000 500 10 ((inner_stack, 3) ∷ (outer_stack, 1) ∷ (inner_stack, 2) ∷ [])
      inner_stack

-- 50 nanoseconds of the inner stack
window_total :
    expected 10 0 ((inner_stack, 3) ∷ (outer_stack, 1) ∷ (inner_stack, 2) ∷ []) inner_stack ≡ 50
unfolding program
window_total = refl

add_sample-Adds_example :
    (b : ProfileBuilder) × (add_sample one_sample outer_stack 4 ≡ some b)
    × Adds one_sample outer_stack (4 * one_sample.period % 2 ^ 64) b
add_sample-Adds_example = add_sample-Adds one_sample outer_stack 4 one_sample-IsValid

encode-IsProfile_example :
    IsProfile (encode one_sample).0
    × (total_of (profile_frame (encode one_sample).0) (encode one_sample).0.sample inner_stack
        ≡ total one_sample inner_stack)
encode-IsProfile_example = encode-IsProfile one_sample inner_stack one_sample-IsValid

add_sample-encode_example : add_sample (encode one_sample).1 inner_stack 5 ≡ none
add_sample-encode_example =
    add_sample-encode one_sample 0 (record { location_id = 1 ∷ 2 ∷ []; value = 30 ∷ [] })
      inner_stack 5 one_sample-IsValid first_sample first_stack
