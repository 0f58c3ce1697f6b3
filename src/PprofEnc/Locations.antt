-- ===== src/PprofEnc/Locations.antt =====
-- `intern_location` and the loop of `add_sample` (kit/pprof_enc/src/lib.rs).
use pyroscope_rs.Base.{
  ℕ, ◌+◌, ◌≡◌, refl, sym, ap, ap₂, ◌∙◌, List, [], ◌∷◌, ◌++◌, Option, some, arith, length,
  option_bind, option_bind-eq_some, Option-cases, inl, inr, Extends-append, Extends-refl, row,
  row-Extends, row-get_elem?, get_elem?-append_length,
}
use pyroscope_rs.Base.Equality.{string_eq, nat_eq}
use pyroscope_rs.Base.Map
use pyroscope_rs.Base.Index.{IsIndex-push, rows-push}
use pyroscope_rs.PprofEnc.{
  Line, Location, Function, Frame, function_key_eq, ProfileBuilder, intern_function,
  intern_location, intern_frame, intern_frames,
}
use pyroscope_rs.PprofEnc.Tables.{
  frame_at, resolve, location_key, IsPlaced, IsTables, Grows, Grows-trans, Grows-resolve,
  resolve_injective,
}
use pyroscope_rs.PprofEnc.Intern.{
  Keeps, Keeps-trans, Keeps-refl, Grows-refl, intern_function-InternsFrame,
}

-- The id returned is that of a location with the one line given.
record InternsLocation (b : ProfileBuilder) (func_id line : ℕ) (r : ℕ × ProfileBuilder)
    : Type 0 where
  tables : IsTables r.1
  grows : Grows b r.1
  keeps : Keeps b r.1
  location : Location
  entry : Line
  at_location : row r.1.locations r.0 ≡ some location
  one_line : location.line ≡ entry ∷ []
  same_function : entry.function_id ≡ func_id
  same_line : entry.line ≡ line

intern_location-InternsLocation :
    (b : ProfileBuilder) (func_id line : ℕ) {f : Function}
    → IsTables b
    → row b.functions func_id ≡ some f
    → f.start_line ≡ line
    → InternsLocation b func_id line (intern_location b func_id line)
unfolding intern_location
intern_location-InternsLocation b func_id line {f} v at_f start =
    elim (Option-cases (Map.get func_id b.loc_index)) [
      | inl fresh ↦
          rw (fresh, intern_location)
            (record {
              tables = record {
                empty_first = v.empty_first;
                strings = v.strings;
                functions = v.functions;
                named = v.named;
                function_ids = v.function_ids;
                locations = IsIndex-push location_key 1 v.locations l id refl fresh;
                placed =
                    rows-push (λ _ m. IsPlaced b.functions m) b.locations l v.placed
                      (record {
                        line = entry;
                        function = f;
                        one_line = refl;
                        at_function = at_f;
                        same_line = sym start;
                      });
                location_ids = rows-push (λ i m. m.id ≡ i + 1) b.locations l v.location_ids refl;
              };
              grows = record {
                strings = Extends-refl b.st.strings;
                functions = Extends-refl b.functions;
                locations = Extends-append b.locations (l ∷ []);
              };
              keeps = record { samples = refl; sample_index = refl; period = refl };
              location = l;
              entry = entry;
              at_location =
                  row-get_elem? (b.locations ++ l ∷ []) id (length b.locations) refl
                  ∙ get_elem?-append_length b.locations l (length b.locations) refl;
              one_line = refl;
              same_function = refl;
              same_line = refl;
            })
      | inr (n, hit) ↦
          let (i, l', number, at_i, same) = v.locations.sound func_id n hit in
          let p = v.placed i l' at_i in
          let e : p.line.function_id ≡ func_id = ground (arith, p.one_line, same) in
          let g : some p.function ≡ some f = sym p.at_function ∙ ap (row b.functions) e ∙ at_f in
          rw (hit, intern_location)
            (record {
              tables = v;
              grows = Grows-refl b;
              keeps = Keeps-refl b;
              location = l';
              entry = p.line;
              at_location = row-get_elem? b.locations n i number ∙ at_i;
              one_line = p.one_line;
              same_function = e;
              same_line = ground (arith, g, p.same_line);
            })
    ]
  where
    id : ℕ
    id = length b.locations + 1

    entry : Line
    entry = record { function_id = func_id; line = line }

    l : Location
    l = record { id = id; line = entry ∷ [] }

-- One round: the id returned stands for the frame.
pub record Locates (b : ProfileBuilder) (frame : Frame) (r : ℕ × ProfileBuilder) : Type 0 where
  pub tables : IsTables r.1
  pub grows : Grows b r.1
  pub keeps : Keeps b r.1
  pub resolves : resolve r.1 r.0 ≡ some frame

pub intern_frame-Locates :
    (b : ProfileBuilder) (frame : Frame) → IsTables b → Locates b frame (intern_frame b frame)
unfolding intern_frame frame_at
intern_frame-Locates b frame v =
    let r = intern_function-InternsFrame b frame v in
    let (func_id, b') = intern_function b frame in
    let q =
      intern_location-InternsLocation b' func_id frame.first_line r.tables r.at_function r.start in
    record {
      tables = q.tables;
      grows = Grows-trans r.grows q.grows;
      keeps = Keeps-trans r.keeps q.keeps;
      resolves = rw (
        q.at_location,
        q.one_line,
        q.same_function,
        row-Extends _ _ func_id q.grows.functions r.at_function,
        q.grows.strings _ _ r.at_name,
        q.grows.strings _ _ r.at_filename,
        q.same_line,
      );
    }

unfoldable pub resolve_all : (ℕ → Option Frame) → List ℕ → Option (List Frame)
resolve_all r [] = some []
resolve_all r (id ∷ ids) =
    option_bind (r id) λ frame. option_bind (resolve_all r ids) λ frames. some (frame ∷ frames)

pub resolve_all-Grows :
    {b b' : ProfileBuilder}
    → Grows b b'
    → (ids : List ℕ) (frames : List Frame) → resolve_all (resolve b) ids ≡ some frames
    → resolve_all (resolve b') ids ≡ some frames
unfolding resolve_all
resolve_all-Grows g [] frames h = h
resolve_all-Grows {b} {b'} g (id ∷ ids) frames h =
    let (f, at_f, h₁) = option_bind-eq_some (resolve b id) _ h in
    let (fs, at_fs, h₂) = option_bind-eq_some (resolve_all (resolve b) ids) _ h₁ in
    rw (Grows-resolve g id f at_f, resolve_all-Grows g ids fs at_fs) h₂

-- The loop: the ids returned stand for the frames, in order.
pub record LocatesAll (b : ProfileBuilder) (frames : List Frame) (r : List ℕ × ProfileBuilder)
    : Type 0 where
  pub tables : IsTables r.1
  pub grows : Grows b r.1
  pub keeps : Keeps b r.1
  pub resolves : resolve_all (resolve r.1) r.0 ≡ some frames

pub intern_frames-LocatesAll :
    (b : ProfileBuilder) (frames : List Frame)
    → IsTables b
    → LocatesAll b frames (intern_frames b frames)
unfolding intern_frames resolve_all
intern_frames-LocatesAll b [] v = record {
  tables = v;
  grows = Grows-refl b;
  keeps = Keeps-refl b;
  resolves = refl;
}
intern_frames-LocatesAll b (frame ∷ frames) v =
    let (id, b') = intern_frame b frame in
    let r = intern_frame-Locates b frame v in
    let q = intern_frames-LocatesAll b' frames r.tables in
    record {
      tables = q.tables;
      grows = Grows-trans r.grows q.grows;
      keeps = Keeps-trans r.keeps q.keeps;
      resolves = rw (Grows-resolve q.grows id frame r.resolves, q.resolves);
    }

-- Two lists of ids that stand for one stack are one list.
pub resolve_all_injective :
    (b : ProfileBuilder) (ids ids' : List ℕ) (frames : List Frame)
    → IsTables b
    → resolve_all (resolve b) ids ≡ some frames
    → resolve_all (resolve b) ids' ≡ some frames
    → ids ≡ ids'
unfolding resolve_all
resolve_all_injective b [] [] frames v p q = refl
resolve_all_injective b [] (id' ∷ ids') frames v p q =
    let (f', at_f', h₁) = option_bind-eq_some (resolve b id') _ q in
    let (fs', at_fs', h₂) = option_bind-eq_some (resolve_all (resolve b) ids') _ h₁ in
    absurd (ground (arith, p, h₂))
resolve_all_injective b (id ∷ ids) [] frames v p q =
    let (f, at_f, h₁) = option_bind-eq_some (resolve b id) _ p in
    let (fs, at_fs, h₂) = option_bind-eq_some (resolve_all (resolve b) ids) _ h₁ in
    absurd (ground (arith, q, h₂))
resolve_all_injective b (id ∷ ids) (id' ∷ ids') frames v p q =
    let (f, at_f, h₁) = option_bind-eq_some (resolve b id) _ p in
    let (fs, at_fs, h₂) = option_bind-eq_some (resolve_all (resolve b) ids) _ h₁ in
    let (f', at_f', h₃) = option_bind-eq_some (resolve b id') _ q in
    let (fs', at_fs', h₄) = option_bind-eq_some (resolve_all (resolve b) ids') _ h₃ in
    let e : some (f ∷ fs) ≡ some (f' ∷ fs') = h₂ ∙ sym h₄ in
    let head : f ≡ f' = ground (arith, e) in
    let tail : fs ≡ fs' = ground (arith, e) in
    ap₂ ◌∷◌ (resolve_injective b v id id' f at_f (at_f' ∙ ap some (sym head)))
      (resolve_all_injective b ids ids' fs v at_fs (at_fs' ∙ ap some (sym tail)))
