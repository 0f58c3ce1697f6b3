-- ===== src/Unwind.antt =====
-- kit/python_unwind/src/lib.rs: the walk along the interpreter frames of a Python thread.
-- `kindasafe::u64`, which reads eight bytes of the process or fails, is the argument `read`; the
-- memory does not change during one walk. Address sums wrap at 64 bits. The loop takes fuel, and
-- `none` says that it ran out. What the walk prints is the list of mismatches.
pub mod Bounds
pub mod Chains
pub mod Cycles
use pyroscope_rs.Base.{
  ℕ, zero, suc, ◌+◌, ◌%◌, ◌^◌, Bool, true, false, not, ◌&&◌, List, [], ◌∷◌, ◌++◌, Option, none,
  some, length, set, ltb, eqb, if◌then◌else◌,
}
use pyroscope_rs.PythonOffsetsTypes.Py314.{DebugOffsets}

abbrev pub frame_skip_owner_min : ℕ
frame_skip_owner_min = 3

abbrev pub max_depth : ℕ
max_depth = 128

pub record RawFrame : Type 0 where
  pub code_object : ℕ
  pub instr_offset : ℕ

-- a code object whose `ob_type` is not the expected type object
pub record Mismatch : Type 0 where
  pub code_object : ℕ
  pub ob_type : ℕ

-- the variables of the loop
pub record Walk : Type 0 where
  pub frame_ptr : ℕ
  pub prev_frame : ℕ
  pub depth : ℕ
  pub buf : List RawFrame
  pub mismatches : List Mismatch

-- how a round ends: the loop goes on, or `break`
pub data Round : Type 0 where
  continues : Walk → Round
  breaks : Walk → Round

-- `a + b` on u64
abbrev pub address : ℕ → ℕ → ℕ
address a b = (a + b) % 2 ^ 64

-- the bound on the depth
abbrev pub max_of : List RawFrame → ℕ
max_of buf = if ltb (length buf) max_depth then length buf else max_depth

-- the variables before the loop
abbrev pub start : ℕ → List RawFrame → Walk
start frame_ptr buf = record {
  frame_ptr = frame_ptr;
  prev_frame = 0;
  depth = 0;
  buf = buf;
  mismatches = [];
}

-- the test of the loop
unfoldable pub goes_on : ℕ → Walk → Bool
goes_on max w = not (eqb w.frame_ptr 0) && not (eqb w.frame_ptr w.prev_frame) && ltb w.depth max

module _ (read : ℕ → Option ℕ) (offsets : DebugOffsets) (code_type : ℕ) where
  -- `prev_frame = frame_ptr; frame_ptr = read(previous)`, which ends most rounds
  unfoldable pub advance : Walk → Round
  advance w = elim (read (address w.frame_ptr offsets.interpreter_frame.previous)) [
    | none ↦ breaks (record w { prev_frame = w.frame_ptr })
    | some v ↦ continues (record w { frame_ptr = v; prev_frame = w.frame_ptr })
  ]

  -- the check of `ob_type`, which only prints
  unfoldable pub check_type : ℕ → List Mismatch
  check_type code_obj =
      if eqb code_type 0 then [] else elim (read (address code_obj offsets.pyobject.ob_type)) [
        | none ↦ []
        | some ob_type ↦
            if eqb ob_type code_type
            then []
            else record { code_object = code_obj; ob_type = ob_type } ∷ []
      ]

  -- a frame that belongs to Python code, from `code_obj == 0` on
  unfoldable pub collect : Walk → ℕ → Round
  unfolding advance check_type
  collect w code_obj =
      if eqb code_obj 0
      then breaks w
      else let checked = record w { mismatches = w.mismatches ++ check_type code_obj } in
        elim (read (address w.frame_ptr offsets.interpreter_frame.instr_ptr)) [
          | none ↦ breaks checked
          | some instr_ptr ↦ advance (record checked {
            depth = w.depth + 1;
            buf = set w.buf w.depth (record { code_object = code_obj; instr_offset = instr_ptr });
          })
        ]

  -- the body of the loop; `v & 0xFF` is `v % 256`
  unfoldable pub round : Walk → Round
  unfolding advance collect
  round w = elim (read (address w.frame_ptr offsets.interpreter_frame.owner)) [
    | none ↦ breaks w
    | some v ↦
        if ltb (v % 256) frame_skip_owner_min
        then elim (read (address w.frame_ptr offsets.interpreter_frame.executable)) [
          | none ↦ breaks w
          | some code_obj ↦ collect w code_obj
        ]
        else advance w
  ]

  unfoldable pub loop : ℕ → ℕ → Walk → Option Walk
  loop max zero w = none
  loop max (suc fuel) w = elim (goes_on max w) [
    | false ↦ some w
    | true ↦ elim (round w) [ breaks w' ↦ some w' | continues w' ↦ loop max fuel w' ]
  ]

  -- the walk at its end; its `depth` is what the function returns
  unfoldable pub unwind : ℕ → ℕ → List RawFrame → Option Walk
  unfolding loop goes_on round
  unwind fuel tstate buf = elim (read (address tstate offsets.thread_state.current_frame)) [
    | none ↦ some (start 0 buf)
    | some frame_ptr ↦
        if eqb frame_ptr 0 then some (start 0 buf) else loop (max_of buf) fuel (start frame_ptr buf)
  ]
