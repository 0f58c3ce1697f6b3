-- ===== src/Tests/Rings.antt =====
-- One record of kit/sig_ring/src/lib.rs with two frames of a longer stack.
use pyroscope_rs.Base.{
  ℕ, zero, suc, ◌<◌, ◌^◌, ◌≡◌, refl, List, [], ◌∷◌, ◌++◌, Option, some, length, arith, All,
}
use pyroscope_rs.Base.Bytes.{to_le_bytes, from_le_bytes, read_le}
use pyroscope_rs.Unwind.{RawFrame}
use pyroscope_rs.SigRing.{
  record_len, frame_bytes, frames_bytes, copy_at, prefix, committed, write, RecordView, frame,
  parse_record,
}
use pyroscope_rs.SigRing.RoundTrip.{parse_record-write, frame-parse_record}

program : Unit {0}
unfolding to_le_bytes from_le_bytes read_le record_len frame_bytes frames_bytes copy_at prefix write
    frame parse_record
program = tt

abbrev leaf : RawFrame
leaf = record { code_object = 0x7f00_1234_5678; instr_offset = 258 }

abbrev caller : RawFrame
caller = record { code_object = 4096; instr_offset = 2 ^ 63 }

abbrev stack : List RawFrame
stack = leaf ∷ caller ∷ leaf ∷ []

abbrev zeros : ℕ → List ℕ
zeros zero = []
zeros (suc n) = 0 ∷ zeros n

-- a queue that grants what is asked for
abbrev roomy : ℕ → Option (List ℕ)
roomy n = some (zeros n)

full_record : length (zeros 40) ≡ record_len 2
unfolding program
full_record = refl

granted : roomy (record_len 2) ≡ some (zeros 40)
unfolding program
granted = refl

parse_record-write_example :
    (bytes : List ℕ) × (view : RecordView) × (write roomy 77 stack 2 ≡ committed bytes)
    × (parse_record bytes ≡ some view)
    × (view.tid ≡ 77)
    × (view.depth ≡ 2)
    × (frame view 1 ≡ some caller)
parse_record-write_example =
    parse_record-write roomy 77 2 stack (zeros 40) 1 caller (omega arith) (omega arith)
      (omega arith) granted full_record (omega arith) refl (omega arith, omega arith)

-- a record of one frame with a byte behind it
abbrev raw : List ℕ
raw = 1 ∷ 0 ∷ 0 ∷ 0 ∷ 1 ∷ 0 ∷ 0 ∷ 0 ∷ (zeros 15 ++ 9 ∷ 255 ∷ [])

abbrev view : RecordView
view = record { tid = 1; depth = 1; buf = raw }

raw_parses : parse_record raw ≡ some view
unfolding program
raw_parses = refl

raw_bytes : All (λ b. b < 256) raw
raw_bytes = ground arith

frame-parse_record_example : (f : RawFrame) × (frame view 0 ≡ some f)
frame-parse_record_example = frame-parse_record raw view 0 raw_bytes raw_parses (omega arith)
