-- ===== src/PprofEnc.antt =====
-- kit/pprof_enc/src/lib.rs: the messages of a pprof profile, the string table and the builder that
-- merges samples. An i64 is kept as its bit pattern, a number below 2 ^ 64. `none` stands for a panic.
pub mod Tables
pub mod Intern
pub mod Locations
pub mod Samples
pub mod AddSample
pub mod Encode
pub mod Stale
use native.Mathlib.Decide.{ℕ_discrete}
use pyroscope_rs.Base.{
  ℕ, suc, ◌+◌, ◌*◌, ◌%◌, ◌^◌, String, Bool, true, false, List, [], ◌∷◌, ◌++◌, Option, none, some,
  length, get_elem?, set, option_bind, Eq,
}
use pyroscope_rs.Base.Equality.{String-discrete, list_discrete, string_eq, nat_eq}
use pyroscope_rs.Base.Map
use pyroscope_rs.Base.Map.{Map}

pub record ValueType : Type 0 where
  pub type : ℕ
  pub unit : ℕ

pub record Sample : Type 0 where
  pub location_id : List ℕ
  pub value : List ℕ

pub record Line : Type 0 where
  pub function_id : ℕ
  pub line : ℕ

pub record Location : Type 0 where
  pub id : ℕ
  pub line : List Line

pub record Function : Type 0 where
  pub id : ℕ
  pub name : ℕ
  pub filename : ℕ
  pub start_line : ℕ

pub record Profile : Type 0 where
  pub sample_type : List ValueType
  pub sample : List Sample
  pub location : List Location
  pub function : List Function
  pub string_table : List String
  pub time_nanos : ℕ
  pub duration_nanos : ℕ
  pub period_type : Option ValueType
  pub period : ℕ

pub record StringTable : Type 0 where
  pub strings : List String
  pub index : Map String ℕ

-- A symbolized stack frame.
pub record Frame : Type 0 where
  pub function_name : String
  pub filename : String
  pub first_line : ℕ

abbrev pub FunctionKey : Type 0
FunctionKey = ℕ × ℕ × ℕ

unfoldable pub FunctionKey-discrete : Discrete FunctionKey
FunctionKey-discrete = hlevel ℕ_discrete

instance abbrev pub function_key_eq : Eq FunctionKey
function_key_eq = record { dec = FunctionKey-discrete }

instance abbrev pub ids_eq : Eq (List ℕ)
ids_eq = record { dec = list_discrete ℕ_discrete }

unfoldable pub Frame-discrete : Discrete Frame
Frame-discrete = hlevel (String-discrete, ℕ_discrete)

instance abbrev pub stack_eq : Eq (List Frame)
stack_eq = record { dec = list_discrete Frame-discrete }

pub record ProfileBuilder : Type 0 where
  pub st : StringTable
  pub functions : List Function
  pub func_index : Map FunctionKey ℕ
  pub locations : List Location
  pub loc_index : Map ℕ ℕ
  pub samples : List Sample
  pub sample_index : Map (List ℕ) ℕ
  pub time_nanos : ℕ
  pub duration_nanos : ℕ
  pub period : ℕ

-- `StringTable::intern`: the index, and the table after the call
unfoldable pub intern : StringTable → String → ℕ × StringTable
intern st s = elim (Map.get s st.index) [
  | some idx ↦ (idx, st)
  | none ↦ (
    length st.strings,
    record { strings = st.strings ++ s ∷ []; index = Map.insert s (length st.strings) st.index },
  )
]

unfoldable pub new_table : StringTable
unfolding intern Map.get Map.insert
new_table = (intern (record { strings = []; index = [] }) "").1

unfoldable pub new : ℕ → ℕ → ℕ → ProfileBuilder
unfolding new_table
new time_nanos duration_nanos period = record {
  st = new_table;
  functions = [];
  func_index = [];
  locations = [];
  loc_index = [];
  samples = [];
  sample_index = [];
  time_nanos = time_nanos;
  duration_nanos = duration_nanos;
  period = period;
}

abbrev pub key_of : Function → FunctionKey
key_of f = (f.name, f.filename, f.start_line)

-- the part of `intern_function` after the two calls of `intern`
unfoldable pub insert_function : ProfileBuilder → FunctionKey → ℕ × ProfileBuilder
insert_function b (name, filename, start_line) = elim (Map.get key b.func_index) [
  | some id ↦ (id, b)
  | none ↦
      let id = length b.functions + 1 in
      let f : Function = record {
        id = id;
        name = name;
        filename = filename;
        start_line = start_line;
      } in
      (
        id,
        record b { functions = b.functions ++ f ∷ []; func_index = Map.insert key id b.func_index },
      )
]
  where
    key : FunctionKey
    key = (name, filename, start_line)

unfoldable pub intern_function : ProfileBuilder → Frame → ℕ × ProfileBuilder
unfolding insert_function
intern_function b frame =
    let (name_idx, st) = intern b.st frame.function_name in
    let (filename_idx, st') = intern st frame.filename in
    insert_function (record b { st = st' }) (name_idx, filename_idx, frame.first_line)

unfoldable pub intern_location : ProfileBuilder → ℕ → ℕ → ℕ × ProfileBuilder
intern_location b func_id line = elim (Map.get func_id b.loc_index) [
  | some id ↦ (id, b)
  | none ↦
      let id = length b.locations + 1 in
      let l : Location = record {
        id = id;
        line = record { function_id = func_id; line = line } ∷ [];
      } in
      (
        id,
        record b {
          locations = b.locations ++ l ∷ [];
          loc_index = Map.insert func_id id b.loc_index;
        },
      )
]

-- one round of the loop of `add_sample`
unfoldable pub intern_frame : ProfileBuilder → Frame → ℕ × ProfileBuilder
intern_frame b frame =
    let (func_id, b') = intern_function b frame in intern_location b' func_id frame.first_line

unfoldable pub intern_frames : ProfileBuilder → List Frame → List ℕ × ProfileBuilder
intern_frames b [] = ([], b)
intern_frames b (frame ∷ frames) =
    let (loc_id, b') = intern_frame b frame in
    let (ids, b'') = intern_frames b' frames in (loc_id ∷ ids, b'')

-- `value[0] += v`, wrapping
unfoldable pub bump : ℕ → List ℕ → Option (List ℕ)
bump v [] = none
bump v (v₀ ∷ vs) = some (((v₀ + v) % 2 ^ 64) ∷ vs)

-- `self.samples[idx].value[0] += v`
unfoldable pub merge : List Sample → ℕ → ℕ → Option (List Sample)
unfolding bump
merge samples idx v =
    option_bind (get_elem? samples idx)
      λ s. option_bind (bump v s.value) λ vs. some (set samples idx (record s { value = vs }))

-- the part of `add_sample` after the loop
unfoldable pub record_sample : ProfileBuilder → List ℕ → ℕ → Option ProfileBuilder
unfolding merge
record_sample b ids value = elim (Map.get ids b.sample_index) [
  | some idx ↦
      option_bind (merge b.samples idx value) λ samples. some (record b { samples = samples })
  | none ↦ some (record b {
    samples = b.samples ++ record { location_id = ids; value = value ∷ [] } ∷ [];
    sample_index = Map.insert ids (length b.samples) b.sample_index;
  })
]

unfoldable pub add_sample : ProfileBuilder → List Frame → ℕ → Option ProfileBuilder
unfolding record_sample
add_sample b frames count =
    let (ids, b') = intern_frames b frames in record_sample b' ids (count * b'.period % 2 ^ 64)

unfoldable pub reset : ProfileBuilder → ℕ → ℕ → ProfileBuilder
unfolding new_table
reset b time_nanos duration_nanos = record b {
  st = new_table;
  functions = [];
  func_index = [];
  locations = [];
  loc_index = [];
  samples = [];
  sample_index = [];
  time_nanos = time_nanos;
  duration_nanos = duration_nanos;
}

unfoldable pub num_samples : ProfileBuilder → ℕ
num_samples b = length b.samples

unfoldable pub is_empty : ProfileBuilder → Bool
is_empty b = elim b.samples [ [] ↦ true | _ ∷ _ ↦ false ]

-- `encode` up to the call of prost: the message, and the builder whose tables were taken
unfoldable pub encode : ProfileBuilder → Profile × ProfileBuilder
encode b =
    let (cpu, st) = intern b.st "cpu" in
    let (nanos, st') = intern st "nanoseconds" in
    let value_type : ValueType = record { type = cpu; unit = nanos } in
    (
      record {
        sample_type = value_type ∷ [];
        sample = b.samples;
        location = b.locations;
        function = b.functions;
        string_table = st'.strings;
        time_nanos = b.time_nanos;
        duration_nanos = b.duration_nanos;
        period_type = some value_type;
        period = b.period;
      },
      record b { st = record st' { strings = [] }; functions = []; locations = []; samples = [] },
    )
