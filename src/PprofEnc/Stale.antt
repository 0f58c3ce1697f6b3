-- ===== src/PprofEnc/Stale.antt =====
-- `encode` without `reset` (kit/pprof_enc/src/lib.rs): the tables are taken, their indexes stay.
use pyroscope_rs.Base.{
  ℕ, ◌+◌, ◌*◌, ◌%◌, ◌^◌, ◌≡◌, refl, sym, ap, ◌∙◌, String, List, [], ◌∷◌, none, some, arith,
  get_elem?, option_bind-eq_some, row-eq_some, Extends, Extends-refl,
}
use pyroscope_rs.Base.Equality.{string_eq, nat_eq}
use pyroscope_rs.Base.Map
use pyroscope_rs.PprofEnc.{
  Frame, StringTable, FunctionKey, function_key_eq, ids_eq, Sample, ProfileBuilder, intern,
  insert_function, intern_function, intern_location, intern_frame, intern_frames, record_sample,
  add_sample, encode,
}
use pyroscope_rs.PprofEnc.Tables.{
  resolve, IsTables, intern-Interns, Grows, resolve-Reads, Reads-placed,
}
use pyroscope_rs.PprofEnc.Intern.{IsTables-strings}
use pyroscope_rs.PprofEnc.Locations.{resolve_all, resolve_all-Grows}
use pyroscope_rs.PprofEnc.Samples.{IsValid}

-- A key that its index knows is returned, and nothing changes.
intern_known :
    (st : StringTable) (s : String) (n : ℕ) → Map.get s st.index ≡ some n → intern st s ≡ (n, st)
unfolding intern
intern_known st s n e = rw (e, intern)

insert_function_known :
    (c : ProfileBuilder) (key : FunctionKey) (n : ℕ)
    → Map.get key c.func_index ≡ some n
    → insert_function c key ≡ (n, c)
unfolding insert_function
insert_function_known c (name, filename, start) n e = rw (e, insert_function)

intern_location_known :
    (c : ProfileBuilder) (func_id line n : ℕ)
    → Map.get func_id c.loc_index ≡ some n
    → intern_location c func_id line ≡ (n, c)
unfolding intern_location
intern_location_known c func_id line n e = rw (e, intern_location)

-- A frame that the indexes of `b` know is found in a builder with these indexes, whatever its tables.
module _ (b c : ProfileBuilder) (v : IsTables b) (st : c.st.index ≡ b.st.index)
    (funcs : c.func_index ≡ b.func_index) (locs : c.loc_index ≡ b.loc_index) where
  known_function :
      (frame : Frame) (name filename n : ℕ)
      → Map.get frame.function_name c.st.index ≡ some name
      → Map.get frame.filename c.st.index ≡ some filename
      → Map.get {K = FunctionKey} (name, filename, frame.first_line) c.func_index ≡ some n
      → intern_function c frame ≡ (n, c)
  unfolding intern_function
  known_function frame name filename n p q e = rw (
    intern_known c.st frame.function_name name p,
    intern_known c.st frame.filename filename q,
    insert_function_known c (name, filename, frame.first_line) n e,
  )

  known_frame :
      (id : ℕ) (frame : Frame) → resolve b id ≡ some frame → intern_frame c frame ≡ (id, c)
  unfolding intern_frame
  known_frame id frame h =
      let r = resolve-Reads b id frame h in
      let (start, key) = Reads-placed b v id frame r in
      let name : Map.get frame.function_name c.st.index ≡ some r.function.name =
        rw st (v.strings.complete r.function.name _ r.at_name ∙ ap some (omega arith)) in
      let filename : Map.get frame.filename c.st.index ≡ some r.function.filename =
        rw st (v.strings.complete r.function.filename _ r.at_filename ∙ ap some (omega arith)) in
      let (i, e, at_i) = row-eq_some b.functions r.line.function_id r.at_function in
      let function : Map.get {K = FunctionKey}
            (r.function.name, r.function.filename, frame.first_line) c.func_index
          ≡ some r.line.function_id =
        rw (funcs, ← start) (v.functions.complete i r.function at_i ∙ ap some (sym e)) in
      let (j, e', at_j) = row-eq_some b.locations id r.at_location in
      let location : Map.get r.line.function_id c.loc_index ≡ some id =
        rw (locs, ← key) (v.locations.complete j r.location at_j ∙ ap some (sym e')) in
      rw (
        known_function frame r.function.name r.function.filename r.line.function_id name filename
            function,
        intern_location_known c r.line.function_id frame.first_line id location,
      )

  known_frames :
      (ids : List ℕ) (frames : List Frame)
      → resolve_all (resolve b) ids ≡ some frames
      → intern_frames c frames ≡ (ids, c)
  unfolding resolve_all intern_frames
  known_frames [] frames h = let e : [] ≡ frames = ground (arith, h) in rw (← e)
  known_frames (id ∷ ids) frames h =
      let (f, at_f, h₁) = option_bind-eq_some (resolve b id) _ h in
      let (fs, at_fs, h₂) = option_bind-eq_some (resolve_all (resolve b) ids) _ h₁ in
      let e : f ∷ fs ≡ frames = ground (arith, h₂) in
      rw (← e, known_frame id f at_f, known_frames ids fs at_fs)

record_sample_stale :
    (c : ProfileBuilder) (ids : List ℕ) (v n : ℕ)
    → c.samples ≡ []
    → Map.get ids c.sample_index ≡ some n
    → record_sample c ids v ≡ none
unfolding record_sample
record_sample_stale c ids v n empty e = rw (e, record_sample, empty)

-- A builder that was encoded and not reset panics on every stack that it has a sample of.
pub add_sample-encode :
    (b : ProfileBuilder) (i : ℕ) (s : Sample) (frames : List Frame) (count : ℕ)
    → IsValid b
    → get_elem? b.samples i ≡ some s
    → resolve_all (resolve b) s.location_id ≡ some frames
    → add_sample (encode b).1 frames count ≡ none
unfolding add_sample encode
add_sample-encode b i s frames count valid at_i stands =
    let first = intern b.st "cpu" in
    let r = intern-Interns b.st "cpu" valid.tables.strings in
    let second = intern first.1 "nanoseconds" in
    let t = intern-Interns first.1 "nanoseconds" r.valid in
    let ext : Extends b.st.strings second.1.strings = λ j a h. t.extends j a (r.extends j a h) in
    let grows : Grows b (record b { st = second.1 }) = record {
      strings = ext;
      functions = Extends-refl b.functions;
      locations = Extends-refl b.locations;
    } in
    rw (
      known_frames (record b { st = second.1 }) (encode b).1
          (IsTables-strings b second.1 valid.tables t.valid ext) refl refl refl s.location_id frames
          (resolve_all-Grows grows s.location_id frames stands),
      record_sample_stale (encode b).1 s.location_id (count * b.period % 2 ^ 64) (i + 0) refl
          (valid.sampled.complete i s at_i),
    )
