-- ===== src/PprofEnc/Intern.antt =====
-- `intern_function`, `intern_location` and the loop of `add_sample` (kit/pprof_enc/src/lib.rs).
use pyroscope_rs.Base.{
  ℕ, ◌+◌, ◌≡◌, refl, ap, ◌∙◌, String, List, [], ◌∷◌, ◌++◌, some, length, get_elem?, Option-cases,
  inl, inr, Extends, Extends-append, Extends-refl, row, row-Extends, row-get_elem?,
  get_elem?-append_length,
}
use pyroscope_rs.Base.Equality.{string_eq, nat_eq}
use pyroscope_rs.Base.Map
use pyroscope_rs.Base.Index.{IsIndex-push, rows-push}
use pyroscope_rs.PprofEnc.{
  Location, Function, StringTable, Frame, FunctionKey, function_key_eq, ProfileBuilder, intern,
  key_of, insert_function, intern_function,
}
use pyroscope_rs.PprofEnc.Tables.{IsNamed, IsPlaced, IsStrings, IsTables, intern-Interns, Grows}

-- Interning touches neither the samples nor the header fields.
pub record Keeps (b b' : ProfileBuilder) : Type 0 where
  pub samples : b'.samples ≡ b.samples
  pub sample_index : b'.sample_index ≡ b.sample_index
  pub period : b'.period ≡ b.period

pub Keeps-trans : {a b c : ProfileBuilder} → Keeps a b → Keeps b c → Keeps a c
Keeps-trans g h = record {
  samples = h.samples ∙ g.samples;
  sample_index = h.sample_index ∙ g.sample_index;
  period = h.period ∙ g.period;
}

IsNamed-Extends :
    (ss ss' : List String) (f : Function) → Extends ss ss' → IsNamed ss f → IsNamed ss' f
IsNamed-Extends ss ss' f ext n = record {
  name = n.name;
  filename = n.filename;
  at_name = ext f.name n.name n.at_name;
  at_filename = ext f.filename n.filename n.at_filename;
}

IsPlaced-Extends :
    (fs fs' : List Function) (l : Location) → Extends fs fs' → IsPlaced fs l → IsPlaced fs' l
IsPlaced-Extends fs fs' l ext p = record {
  line = p.line;
  function = p.function;
  one_line = p.one_line;
  at_function = row-Extends fs fs' p.line.function_id ext p.at_function;
  same_line = p.same_line;
}

pub Grows-refl : (b : ProfileBuilder) → Grows b b
Grows-refl b = record {
  strings = Extends-refl b.st.strings;
  functions = Extends-refl b.functions;
  locations = Extends-refl b.locations;
}

pub Keeps-refl : (b : ProfileBuilder) → Keeps b b
Keeps-refl b = record { samples = refl; sample_index = refl; period = refl }

-- A longer string table leaves the other tables right.
pub IsTables-strings :
    (b : ProfileBuilder) (st : StringTable)
    → IsTables b
    → IsStrings st
    → Extends b.st.strings st.strings
    → IsTables (record b { st = st })
IsTables-strings b st v valid ext = record {
  empty_first = ext 0 "" v.empty_first;
  strings = valid;
  functions = v.functions;
  named = λ i f h. IsNamed-Extends b.st.strings st.strings f ext (v.named i f h);
  function_ids = v.function_ids;
  locations = v.locations;
  placed = v.placed;
  location_ids = v.location_ids;
}

-- The id returned is that of a function with the key.
record InternsFunction (b : ProfileBuilder) (key : FunctionKey) (r : ℕ × ProfileBuilder)
    : Type 0 where
  tables : IsTables r.1
  grows : Grows b r.1
  keeps : Keeps b r.1
  function : Function
  at_function : row r.1.functions r.0 ≡ some function
  same_key : key_of function ≡ key

insert_function-InternsFunction :
    (b : ProfileBuilder) (name filename start_line : ℕ) {s t : String}
    → IsTables b
    → get_elem? b.st.strings name ≡ some s
    → get_elem? b.st.strings filename ≡ some t
    → InternsFunction b
        (name, filename, start_line)
        (insert_function b (name, filename, start_line))
unfolding insert_function
insert_function-InternsFunction b name filename start_line {s} {t} v at_name at_filename =
    elim (Option-cases (Map.get {K = FunctionKey} (name, filename, start_line) b.func_index)) [
      | inl fresh ↦
          rw (fresh, insert_function)
            (record {
              tables = record {
                empty_first = v.empty_first;
                strings = v.strings;
                functions = IsIndex-push key_of 1 v.functions f id refl fresh;
                named =
                    rows-push (λ _ g. IsNamed b.st.strings g) b.functions f v.named
                      (record {
                        name = s;
                        filename = t;
                        at_name = at_name;
                        at_filename = at_filename;
                      });
                function_ids = rows-push (λ i g. g.id ≡ i + 1) b.functions f v.function_ids refl;
                locations = v.locations;
                placed = λ i l h. IsPlaced-Extends b.functions _ l grown (v.placed i l h);
                location_ids = v.location_ids;
              };
              grows = record {
                strings = Extends-refl b.st.strings;
                functions = grown;
                locations = Extends-refl b.locations;
              };
              keeps = record { samples = refl; sample_index = refl; period = refl };
              function = f;
              at_function =
                  row-get_elem? (b.functions ++ f ∷ []) id (length b.functions) refl
                  ∙ get_elem?-append_length b.functions f (length b.functions) refl;
              same_key = refl;
            })
      | inr (n, hit) ↦
          let (i, f', number, at_i, same) = v.functions.sound _ n hit in
          rw (hit, insert_function)
            (record {
              tables = v;
              grows = Grows-refl b;
              keeps = Keeps-refl b;
              function = f';
              at_function = row-get_elem? b.functions n i number ∙ at_i;
              same_key = same;
            })
    ]
  where
    id : ℕ
    id = length b.functions + 1

    f : Function
    f = record { id = id; name = name; filename = filename; start_line = start_line }

    grown : Extends b.functions (b.functions ++ f ∷ [])
    grown = Extends-append b.functions (f ∷ [])

-- The id returned is that of a function with the names and the first line of the frame.
pub record InternsFrame (b : ProfileBuilder) (frame : Frame) (r : ℕ × ProfileBuilder) : Type 0 where
  pub tables : IsTables r.1
  pub grows : Grows b r.1
  pub keeps : Keeps b r.1
  pub function : Function
  pub at_function : row r.1.functions r.0 ≡ some function
  pub at_name : get_elem? r.1.st.strings function.name ≡ some frame.function_name
  pub at_filename : get_elem? r.1.st.strings function.filename ≡ some frame.filename
  pub start : function.start_line ≡ frame.first_line

pub intern_function-InternsFrame :
    (b : ProfileBuilder) (frame : Frame)
    → IsTables b
    → InternsFrame b frame (intern_function b frame)
unfolding intern_function
intern_function-InternsFrame b frame v =
    let first = intern b.st frame.function_name in
    let s = intern-Interns b.st frame.function_name v.strings in
    let second = intern first.1 frame.filename in
    let t = intern-Interns first.1 frame.filename s.valid in
    let ext : Extends b.st.strings second.1.strings = λ i a h. t.extends i a (s.extends i a h) in
    let w = IsTables-strings b second.1 v t.valid ext in
    let r =
      insert_function-InternsFunction (record b { st = second.1 }) first.0 second.0 frame.first_line
        w (t.extends first.0 frame.function_name s.found) t.found in
    record {
      tables = r.tables;
      grows = record {
        strings = λ i a h. r.grows.strings i a (ext i a h);
        functions = r.grows.functions;
        locations = r.grows.locations;
      };
      keeps = record {
        samples = r.keeps.samples;
        sample_index = r.keeps.sample_index;
        period = r.keeps.period;
      };
      function = r.function;
      at_function = r.at_function;
      at_name =
          ap (get_elem? _) (ap (λ (k : FunctionKey). k.0) r.same_key)
          ∙ r.grows.strings _ _ (t.extends first.0 frame.function_name s.found);
      at_filename =
          ap (get_elem? _) (ap (λ (k : FunctionKey). k.1) r.same_key) ∙ r.grows.strings _ _ t.found;
      start = ap (λ (k : FunctionKey). k.2) r.same_key;
    }
