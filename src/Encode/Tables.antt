-- ===== src/Encode/Tables.antt =====
-- The tables of the builder of src/encode/pprof.rs, and what an id of a location stands for.
use pyroscope_rs.Base.{
  ℕ, ◌+◌, ◌≡◌, refl, ap, ◌∙◌, String, List, [], ◌∷◌, Option, none, some, arith, inl, inr, get_elem?,
  row, row-Extends, row-get_elem?, Extends, Extends-refl, option_bind, option_bind-eq_some,
  unwrap_or,
}
use pyroscope_rs.Base.Equality.{string_eq}
use pyroscope_rs.Encode.{
  Line, Location, Function, Profile, LocationMirror, FunctionMirror, location_mirror_eq,
  function_mirror_eq, PProfBuilder, add_string, function_of, add_function, location_of,
  add_location, add_frame,
}
use pyroscope_rs.Encode.Rows.{IsTable, add_row-AddsRow}
use pyroscope_rs.Backend.{StackFrame}

-- A frame as a reader of the profile sees it.
pub record FrameView : Type 0 where
  pub name : String
  pub filename : String
  pub line : ℕ

abbrev pub view_of : StackFrame → FrameView
view_of sf = record {
  name = unwrap_or sf.name "";
  filename = unwrap_or sf.filename "";
  line = unwrap_or sf.line 0;
}

abbrev first_line : List Line → Option Line
first_line [] = none
first_line (line ∷ _) = some line

-- the frame that a location id stands for
unfoldable pub frame_at : Profile → ℕ → Option FrameView
frame_at p id = option_bind (row p.location id) λ l. option_bind (first_line l.line) λ line.
    option_bind (row p.function line.function_id) λ f.
      option_bind (get_elem? p.string_table f.name) λ name.
        option_bind (get_elem? p.string_table f.filename)
          λ filename. some (record { name = name; filename = filename; line = line.line })

abbrev pub mirror_of_function : Function → FunctionMirror
mirror_of_function f = record { name = f.name; filename = f.filename }

abbrev pub mirror_of_location : Location → LocationMirror
mirror_of_location l = of_line l.line
  where
    of_line : List Line → LocationMirror
    of_line [] = record { function_id = 0; line = 0 }
    of_line (line ∷ _) = record { function_id = line.function_id; line = line.line }

pub record IsBuilder (b : PProfBuilder) : Type 0 where
  pub strings : IsTable {V = String} (λ s. s) 0 b.profile.string_table b.strings
  pub functions : IsTable mirror_of_function 1 b.profile.function b.functions
  pub locations : IsTable mirror_of_location 1 b.profile.location b.locations
  pub function_rows :
      (i : ℕ) (f : Function)
      → get_elem? b.profile.function i ≡ some f
      → (fm : FunctionMirror) × (f ≡ function_of fm (i + 1))
  pub location_rows :
      (i : ℕ) (l : Location)
      → get_elem? b.profile.location i ≡ some l
      → (lm : LocationMirror) × (l ≡ location_of lm (i + 1))

-- the profile without its tables
abbrev pub header_of : Profile → Profile
header_of p = record p { location = []; function = []; string_table = [] }

pub record Grows (p q : Profile) : Type 0 where
  pub strings : Extends p.string_table q.string_table
  pub functions : Extends p.function q.function
  pub locations : Extends p.location q.location

-- A step that fills the tables and changes nothing else of the profile.
pub record Step (b b' : PProfBuilder) : Type 0 where
  pub valid : IsBuilder b'
  pub grows : Grows b.profile b'.profile
  pub header : header_of b'.profile ≡ header_of b.profile

pub Grows-trans : {p q r : Profile} → Grows p q → Grows q r → Grows p r
Grows-trans g h = record {
  strings = λ i a e. h.strings i a (g.strings i a e);
  functions = λ i a e. h.functions i a (g.functions i a e);
  locations = λ i a e. h.locations i a (g.locations i a e);
}

pub Step-trans : {a b c : PProfBuilder} → Step a b → Step b c → Step a c
Step-trans s t = record {
  valid = t.valid;
  grows = Grows-trans s.grows t.grows;
  header = t.header ∙ s.header;
}

pub Step-refl : (b : PProfBuilder) → IsBuilder b → Step b b
Step-refl b v = record {
  valid = v;
  grows = record {
    strings = Extends-refl b.profile.string_table;
    functions = Extends-refl b.profile.function;
    locations = Extends-refl b.profile.location;
  };
  header = refl;
}

-- What an id stands for stays when the tables grow.
pub frame_at-Grows :
    {p q : Profile} (id : ℕ) {view : FrameView}
    → Grows p q
    → frame_at p id ≡ some view
    → frame_at q id ≡ some view
unfolding frame_at
frame_at-Grows {p} {q} id g h =
    let (l, at_l, h₁) = option_bind-eq_some (row p.location id) _ h in
    let (line, at_line, h₂) = option_bind-eq_some (first_line l.line) _ h₁ in
    let (f, at_f, h₃) = option_bind-eq_some (row p.function line.function_id) _ h₂ in
    let (name, at_name, h₄) = option_bind-eq_some (get_elem? p.string_table f.name) _ h₃ in
    let (filename, at_filename, h₅) =
      option_bind-eq_some (get_elem? p.string_table f.filename) _ h₄ in
    rw
      (
        row-Extends p.location q.location id g.locations at_l,
        at_line,
        row-Extends p.function q.function line.function_id g.functions at_f,
        g.strings f.name name at_name,
        g.strings f.filename filename at_filename,
      )
      h₅

pub add_string-Step :
    (b : PProfBuilder) (s : String)
    → IsBuilder b
    → (id : ℕ) × (b' : PProfBuilder) × (add_string b s ≡ some (id, b'))
      × Step b b'
      × (get_elem? b'.profile.string_table id ≡ some s)
unfolding add_string
add_string-Step b s v =
    let (r, run, a) =
      add_row-AddsRow {V = String} (λ s. s) 0 s (λ id. s) b.profile.string_table b.strings v.strings
        (λ id. refl) in
    let e : r.0 ≡ a.place = a.number ∙ omega arith in
    (
      r.0,
      record b { profile = record b.profile { string_table = r.2 }; strings = r.1 },
      rw run,
      record {
        valid = record {
          strings = a.table;
          functions = v.functions;
          locations = v.locations;
          function_rows = v.function_rows;
          location_rows = v.location_rows;
        };
        grows = record {
          strings = a.extends;
          functions = Extends-refl b.profile.function;
          locations = Extends-refl b.profile.location;
        };
        header = refl;
      },
      ap (get_elem? r.2) e ∙ a.at_place ∙ ap some a.same_key,
    )

pub add_function-Step :
    (b : PProfBuilder) (fm : FunctionMirror)
    → IsBuilder b
    → (id : ℕ) × (b' : PProfBuilder) × (add_function b fm ≡ some (id, b'))
      × Step b b'
      × (f : Function) × (row b'.profile.function id ≡ some f)
      × (mirror_of_function f ≡ fm)
unfolding add_function
add_function-Step b fm v =
    let (r, run, a) =
      add_row-AddsRow mirror_of_function 1 fm (function_of fm) b.profile.function b.functions
        v.functions (λ id. refl) in
    (
      r.0,
      record b { profile = record b.profile { function = r.2 }; functions = r.1 },
      rw run,
      record {
        valid = record {
          strings = v.strings;
          functions = a.table;
          locations = v.locations;
          function_rows = λ i f h. elim (a.rows i f h) [
            | inl old ↦ v.function_rows i f old
            | inr new ↦ (fm, new)
          ];
          location_rows = v.location_rows;
        };
        grows = record {
          strings = Extends-refl b.profile.string_table;
          functions = a.extends;
          locations = Extends-refl b.profile.location;
        };
        header = refl;
      },
      a.value,
      row-get_elem? r.2 r.0 a.place a.number ∙ a.at_place,
      a.same_key,
    )

pub add_location-Step :
    (b : PProfBuilder) (lm : LocationMirror)
    → IsBuilder b
    → (id : ℕ) × (b' : PProfBuilder) × (add_location b lm ≡ some (id, b'))
      × Step b b'
      × (l : Location) × (row b'.profile.location id ≡ some l)
      × (first_line l.line ≡ some (record { function_id = lm.function_id; line = lm.line }))
unfolding add_location
add_location-Step b lm v =
    let (r, run, a) =
      add_row-AddsRow mirror_of_location 1 lm (location_of lm) b.profile.location b.locations
        v.locations (λ id. refl) in
    let rows : (i : ℕ) (l : Location)
        → get_elem? r.2 i ≡ some l
        → (m : LocationMirror) × (l ≡ location_of m (i + 1)) =
      λ i l h. elim (a.rows i l h) [ inl old ↦ v.location_rows i l old | inr new ↦ (lm, new) ] in
    let (m, shape) = rows a.place a.value a.at_place in
    let e : m ≡ lm = rw shape at a.same_key in
    (
      r.0,
      record b { profile = record b.profile { location = r.2 }; locations = r.1 },
      rw run,
      record {
        valid = record {
          strings = v.strings;
          functions = v.functions;
          locations = a.table;
          function_rows = v.function_rows;
          location_rows = rows;
        };
        grows = record {
          strings = Extends-refl b.profile.string_table;
          functions = Extends-refl b.profile.function;
          locations = a.extends;
        };
        header = refl;
      },
      a.value,
      row-get_elem? r.2 r.0 a.place a.number ∙ a.at_place,
      rw (shape, e),
    )

-- A frame that is added gets an id that stands for its name, file and line.
pub add_frame-Step :
    (b : PProfBuilder) (sf : StackFrame)
    → IsBuilder b
    → (id : ℕ) × (b' : PProfBuilder) × (add_frame b sf ≡ some (id, b'))
      × Step b b'
      × (frame_at b'.profile id ≡ some (view_of sf))
unfolding add_frame frame_at
add_frame-Step b sf v =
    let (name, b₁, run₁, s₁, at_name) = add_string-Step b (unwrap_or sf.name "") v in
    let (filename, b₂, run₂, s₂, at_filename) =
      add_string-Step b₁ (unwrap_or sf.filename "") s₁.valid in
    let (fid, b₃, run₃, s₃, f, at_f, same) =
      add_function-Step b₂ (record { name = name; filename = filename }) s₂.valid in
    let (id, b₄, run₄, s₄, l, at_l, at_line) =
      add_location-Step b₃ (record { function_id = fid; line = unwrap_or sf.line 0 }) s₃.valid in
    let n : f.name ≡ name = ap (λ (m : FunctionMirror). m.name) same in
    let m : f.filename ≡ filename = ap (λ (m : FunctionMirror). m.filename) same in
    let g = Grows-trans s₃.grows s₄.grows in
    (
      id,
      b₄,
      rw (run₁, run₂, run₃) run₄,
      Step-trans s₁ (Step-trans s₂ (Step-trans s₃ s₄)),
      rw (
        at_l,
        at_line,
        row-Extends b₃.profile.function b₄.profile.function fid s₄.grows.functions at_f,
        n,
        m,
        g.strings name _ (s₂.grows.strings name _ at_name),
        g.strings filename _ at_filename,
      ),
    )
