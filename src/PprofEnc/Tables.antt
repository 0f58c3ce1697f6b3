-- ===== src/PprofEnc/Tables.antt =====
-- How a reader of the profile takes a location id to a frame, and what interning does to that reading
-- (kit/pprof_enc/src/lib.rs).
use pyroscope_rs.Base.{
  ℕ, ◌+◌, ◌≡◌, refl, sym, ap, ◌∙◌, String, List, [], ◌∷◌, Option, some, arith, length, get_elem?,
  option_bind, option_bind-eq_some, Option-cases, inl, inr, Extends, Extends-append, Extends-refl,
  row, row-Extends, row-eq_some, get_elem?-append_length,
}
use pyroscope_rs.Base.Equality.{string_eq, nat_eq}
use pyroscope_rs.Base.Map
use pyroscope_rs.Base.Index.{IsIndex, IsIndex-push, IsIndex-injective}
use pyroscope_rs.PprofEnc.{
  Line, Location, Function, StringTable, Frame, function_key_eq, ProfileBuilder, intern, key_of,
}

unfoldable pub frame_at : List String → List Function → List Location → ℕ → Option Frame
frame_at strings functions locations id = option_bind (row locations id) λ l.
    option_bind (get_elem? l.line 0) λ line. option_bind (row functions line.function_id) λ f.
      option_bind (get_elem? strings f.name) λ name.
        option_bind (get_elem? strings f.filename) λ filename.
          some (record { function_name = name; filename = filename; first_line = line.line })

-- the frame that a location id of the builder stands for
abbrev pub resolve : ProfileBuilder → ℕ → Option Frame
resolve b = frame_at b.st.strings b.functions b.locations

abbrev pub location_key : Location → ℕ
location_key l = first_function l.line
  where
    first_function : List Line → ℕ
    first_function [] = 0
    first_function (line ∷ _) = line.function_id

pub record IsNamed (strings : List String) (f : Function) : Type 0 where
  pub name : String
  pub filename : String
  pub at_name : get_elem? strings f.name ≡ some name
  pub at_filename : get_elem? strings f.filename ≡ some filename

pub record IsPlaced (functions : List Function) (l : Location) : Type 0 where
  pub line : Line
  pub function : Function
  pub one_line : l.line ≡ line ∷ []
  pub at_function : row functions line.function_id ≡ some function
  pub same_line : line.line ≡ function.start_line

abbrev pub IsStrings : StringTable → Type 0
IsStrings st = IsIndex {V = String} (λ s. s) 0 st.strings st.index

pub record IsTables (b : ProfileBuilder) : Type 0 where
  pub empty_first : get_elem? b.st.strings 0 ≡ some ""
  pub strings : IsStrings b.st
  pub functions : IsIndex key_of 1 b.functions b.func_index
  pub named : (i : ℕ) (f : Function) → get_elem? b.functions i ≡ some f → IsNamed b.st.strings f
  pub function_ids : (i : ℕ) (f : Function) → get_elem? b.functions i ≡ some f → f.id ≡ i + 1
  pub locations : IsIndex location_key 1 b.locations b.loc_index
  pub placed : (i : ℕ) (l : Location) → get_elem? b.locations i ≡ some l → IsPlaced b.functions l
  pub location_ids : (i : ℕ) (l : Location) → get_elem? b.locations i ≡ some l → l.id ≡ i + 1

-- Interning returns the place of the string, and moves no string.
pub record Interns (st : StringTable) (s : String) (r : ℕ × StringTable) : Type 0 where
  pub valid : IsStrings r.1
  pub found : get_elem? r.1.strings r.0 ≡ some s
  pub extends : Extends st.strings r.1.strings

pub intern-Interns : (st : StringTable) (s : String) → IsStrings st → Interns st s (intern st s)
unfolding intern
intern-Interns st s v = elim (Option-cases (Map.get s st.index)) [
  | inl fresh ↦
      rw (fresh, intern)
        (record {
          valid = IsIndex-push _ 0 v s (length st.strings) (omega arith) fresh;
          found = get_elem?-append_length st.strings s (length st.strings) refl;
          extends = Extends-append st.strings (s ∷ []);
        })
  | inr (n, hit) ↦
      let (i, t, number, at_i, same) = v.sound s n hit in
      rw (hit, intern)
        (record {
          valid = v;
          found = let e : n ≡ i = omega arith in rw (e, ← same) at_i;
          extends = Extends-refl st.strings;
        })
]

-- No table of the later state has lost or moved a row.
pub record Grows (b b' : ProfileBuilder) : Type 0 where
  pub strings : Extends b.st.strings b'.st.strings
  pub functions : Extends b.functions b'.functions
  pub locations : Extends b.locations b'.locations

pub Grows-trans : {a b c : ProfileBuilder} → Grows a b → Grows b c → Grows a c
Grows-trans g h = record {
  strings = λ i a p. h.strings i a (g.strings i a p);
  functions = λ i a p. h.functions i a (g.functions i a p);
  locations = λ i a p. h.locations i a (g.locations i a p);
}

-- So what an id stands for stays.
pub Grows-resolve :
    {b b' : ProfileBuilder}
    → Grows b b'
    → (id : ℕ) (frame : Frame) → resolve b id ≡ some frame
    → resolve b' id ≡ some frame
unfolding frame_at
Grows-resolve {b} {b'} g id frame h =
    let (l, at_l, h₁) = option_bind-eq_some (row b.locations id) _ h in
    let (line, at_line, h₂) = option_bind-eq_some (get_elem? l.line 0) _ h₁ in
    let (f, at_f, h₃) = option_bind-eq_some (row b.functions line.function_id) _ h₂ in
    let (name, at_name, h₄) = option_bind-eq_some (get_elem? b.st.strings f.name) _ h₃ in
    let (filename, at_filename, h₅) =
      option_bind-eq_some (get_elem? b.st.strings f.filename) _ h₄ in
    rw
      (
        row-Extends b.locations b'.locations id g.locations at_l,
        at_line,
        row-Extends b.functions b'.functions line.function_id g.functions at_f,
        g.strings f.name name at_name,
        g.strings f.filename filename at_filename,
      )
      h₅

-- What one location id stands for, taken apart.
pub record Reads (b : ProfileBuilder) (id : ℕ) (frame : Frame) : Type 0 where
  pub location : Location
  pub line : Line
  pub function : Function
  pub at_location : row b.locations id ≡ some location
  pub at_line : get_elem? location.line 0 ≡ some line
  pub at_function : row b.functions line.function_id ≡ some function
  pub at_name : get_elem? b.st.strings function.name ≡ some frame.function_name
  pub at_filename : get_elem? b.st.strings function.filename ≡ some frame.filename
  pub first_line : line.line ≡ frame.first_line

pub resolve-Reads :
    (b : ProfileBuilder) (id : ℕ) (frame : Frame) → resolve b id ≡ some frame → Reads b id frame
unfolding frame_at
resolve-Reads b id frame h =
    let (l, at_l, h₁) = option_bind-eq_some (row b.locations id) _ h in
    let (line, at_line, h₂) = option_bind-eq_some (get_elem? l.line 0) _ h₁ in
    let (f, at_f, h₃) = option_bind-eq_some (row b.functions line.function_id) _ h₂ in
    let (name, at_name, h₄) = option_bind-eq_some (get_elem? b.st.strings f.name) _ h₃ in
    let (filename, at_filename, h₅) =
      option_bind-eq_some (get_elem? b.st.strings f.filename) _ h₄ in
    record {
      location = l;
      line = line;
      function = f;
      at_location = at_l;
      at_line = at_line;
      at_function = at_f;
      at_name = at_name ∙ ground (arith, h₅);
      at_filename = at_filename ∙ ground (arith, h₅);
      first_line = ground (arith, h₅);
    }

module _ (b : ProfileBuilder) (v : IsTables b) where
  row_injective :
      (f g : Function) (m n : ℕ)
      → row b.functions m ≡ some f
      → row b.functions n ≡ some g
      → key_of f ≡ key_of g
      → m ≡ n
  row_injective f g m n p q same =
      let (i, e, at_i) = row-eq_some b.functions m p in
      let (j, e', at_j) = row-eq_some b.functions n q in
      omega (arith, IsIndex-injective key_of 1 v.functions i j f g at_i at_j same)

  -- The line read is the one that the location was made with.
  pub Reads-placed :
      (id : ℕ) (frame : Frame) (r : Reads b id frame)
      → (r.function.start_line ≡ frame.first_line) × (location_key r.location ≡ r.line.function_id)
  Reads-placed id frame r =
      let (i, e, at_i) = row-eq_some b.locations id r.at_location in
      let x = v.placed i r.location at_i in
      let same : some r.line ≡ some x.line =
        sym r.at_line ∙ ap (λ (l : List Line). get_elem? l 0) x.one_line in
      let line : r.line ≡ x.line = ground (arith, same) in
      let f : some r.function ≡ some x.function =
        sym r.at_function ∙ ap (λ (l : Line). row b.functions l.function_id) line ∙ x.at_function in
      let g : r.function ≡ x.function = ground (arith, f) in
      (
        ap (λ (h : Function). h.start_line) g
            ∙ sym x.same_line
            ∙ ap (λ (l : Line). l.line) (sym line)
            ∙ r.first_line,
        rw (x.one_line, line),
      )

  -- Two ids that stand for one frame are one id.
  pub resolve_injective :
      (m n : ℕ) (frame : Frame) → resolve b m ≡ some frame → resolve b n ≡ some frame → m ≡ n
  resolve_injective m n frame p q =
      let r = resolve-Reads b m frame p in
      let s = resolve-Reads b n frame q in
      let (i, e, at_i) = row-eq_some b.locations m r.at_location in
      let (j, e', at_j) = row-eq_some b.locations n s.at_location in
      let (start, key) = Reads-placed m frame r in
      let (start', key') = Reads-placed n frame s in
      let name =
        IsIndex-injective {V = String} (λ t. t) 0 v.strings _ _ _ _ r.at_name s.at_name refl in
      let filename =
        IsIndex-injective {V = String} (λ t. t) 0 v.strings _ _ _ _ r.at_filename s.at_filename
          refl in
      let function =
        row_injective r.function s.function _ _ r.at_function s.at_function
          (ground (arith, name, filename, start, start')) in
      omega (
        arith,
        IsIndex-injective location_key 1 v.locations i j _ _ at_i at_j (key ∙ function ∙ sym key'),
      )
