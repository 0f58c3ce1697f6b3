-- ===== src/Tests/Walks.antt =====
-- The walk of kit/python_unwind/src/lib.rs over a small memory: a frame of Python code, a frame that is
-- skipped, and another of Python code.
use pyroscope_rs.Base.{
  ℕ, ◌%◌, ◌^◌, ◌≡◌, refl, List, [], ◌∷◌, Option, none, some, arith, eqb, if◌then◌else◌,
}
use pyroscope_rs.Tests.Offsets.{made_up}
use pyroscope_rs.Unwind.{
  RawFrame, Walk, max_of, unwind, loop, goes_on, round, collect, advance, check_type,
}
use pyroscope_rs.Unwind.Bounds.{Fits, IsRanked, unwind-Fits}
use pyroscope_rs.Unwind.Chains.{
  IsPython, Chain, root, shim, python, chain_length, Collects, unwind-Collects,
}
use pyroscope_rs.Unwind.Cycles.{IsShim, unwind_cycle}

program : Unit {0}
unfolding unwind loop goes_on round collect advance check_type
program = tt

abbrev pub cells : List (ℕ × ℕ) → ℕ → Option ℕ
cells [] a = none
cells ((c, v) ∷ rest) a = if eqb a c then some v else cells rest a

-- the thread at 1000; frames at 2000, 3000 and 4000
abbrev pub contents : List (ℕ × ℕ)
contents =
    (1208, 2000)
    ∷ (2288, 256)
    ∷ (2264, 70)
    ∷ (2272, 71)
    ∷ (2256, 3000)
    ∷ (3288, 3)
    ∷ (3256, 4000)
    ∷ (4288, 1)
    ∷ (4264, 80)
    ∷ (4272, 81)
    ∷ (4256, 0)
    ∷ (478, 9)
    ∷ []

abbrev pub memory : ℕ → Option ℕ
memory = cells contents

abbrev pub blank : RawFrame
blank = record { code_object = 0; instr_offset = 0 }

abbrev pub upper : RawFrame
upper = record { code_object = 70; instr_offset = 71 }

abbrev pub lower : RawFrame
lower = record { code_object = 80; instr_offset = 81 }

abbrev buffer : List RawFrame
buffer = blank ∷ blank ∷ blank ∷ []

pub lower-IsPython : IsPython memory made_up 4000 lower 0
lower-IsPython = record {
  owner = 1;
  at_owner = refl;
  kept = omega arith;
  at_executable = refl;
  has_code = λ e. absurd (omega arith);
  at_instr_ptr = refl;
  at_previous = refl;
}

pub upper-IsPython : IsPython memory made_up 2000 upper 3000
upper-IsPython = record {
  owner = 256;
  at_owner = refl;
  kept = omega arith;
  at_executable = refl;
  has_code = λ e. absurd (omega arith);
  at_instr_ptr = refl;
  at_previous = refl;
}

pub middle-IsShim : IsShim memory made_up 3000 4000
middle-IsShim = record {
  nonzero = λ e. absurd (omega arith);
  owner = 3;
  at_owner = refl;
  skipped = omega arith;
  at_previous = refl;
}

abbrev pub small_chain : Chain memory made_up 2000 (upper ∷ lower ∷ [])
small_chain =
    python (λ e. absurd (omega arith)) upper-IsPython (λ e. absurd (omega arith))
      (shim middle-IsShim (λ e. absurd (omega arith))
        (python (λ e. absurd (omega arith)) lower-IsPython (λ e. absurd (omega arith)) (root refl)))

unwind-Collects_example :
    (w : Walk) × (unwind memory made_up 9 4 1000 buffer ≡ some w)
    × Collects memory made_up [] buffer (max_of buffer) (upper ∷ lower ∷ []) w
unwind-Collects_example =
    unwind-Collects memory made_up 9 4 1000 2000 buffer (upper ∷ lower ∷ []) small_chain refl
      (unfold chain_length in omega arith)

-- the type objects of the code are checked, and one that differs is told of
small_walk :
    unwind memory made_up 10 4 1000 buffer
    ≡ some (record {
      frame_ptr = 0;
      prev_frame = 4000;
      depth = 2;
      buf = upper ∷ lower ∷ blank ∷ [];
      mismatches = record { code_object = 70; ob_type = 9 } ∷ [];
    })
unfolding program
small_walk = refl

abbrev skipped_first : ℕ → ℕ
skipped_first p = if eqb (p % 2 ^ 64) 3000 then 1 else 0

memory-IsRanked : IsRanked memory made_up skipped_first 1
memory-IsRanked = record { bounded = λ p. ground arith; falls = λ p q owner o s r. ground arith }

unwind-Fits_example :
    (w : Walk) × (unwind memory made_up 9 20 1000 buffer ≡ some w) × Fits buffer (max_of buffer) w
unwind-Fits_example =
    unwind-Fits memory made_up 9 skipped_first 1 20 1000 buffer memory-IsRanked (omega arith)

-- two skipped frames that point to one another
abbrev ring : ℕ → Option ℕ
ring = cells ((1208, 2000) ∷ (2288, 3) ∷ (2256, 3000) ∷ (3288, 3) ∷ (3256, 2000) ∷ [])

ring-IsShim : IsShim ring made_up 2000 3000 × IsShim ring made_up 3000 2000
ring-IsShim = (
  record {
    nonzero = λ e. absurd (omega arith);
    owner = 3;
    at_owner = refl;
    skipped = omega arith;
    at_previous = refl;
  },
  record {
    nonzero = λ e. absurd (omega arith);
    owner = 3;
    at_owner = refl;
    skipped = omega arith;
    at_previous = refl;
  },
)

unwind_cycle_example : unwind ring made_up 0 1000 1000 buffer ≡ none
unwind_cycle_example =
    unwind_cycle ring made_up 0 1000 1000 2000 3000 buffer refl ring-IsShim.0 ring-IsShim.1
      (λ e. absurd (omega arith)) (omega arith)
