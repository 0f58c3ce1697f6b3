-- ===== src/SigRing.antt =====
-- kit/sig_ring/src/lib.rs: records of stack samples in a framed byte queue. The queue is bbqueue's:
-- the argument `grant` gives the bytes of a write grant of the length asked for, or refuses. The kit
-- runs on x86_64, where native-endian numbers are little-endian and `usize` has 64 bits.
pub mod Layout
pub mod RoundTrip
use pyroscope_rs.Base.{
  ℕ, suc, ◌+◌, ◌*◌, ◌%◌, ◌^◌, Bool, true, false, List, [], ◌∷◌, ◌++◌, Option, none, some, length,
  take, drop, ltb, leb, if◌then◌else◌, option_bind,
}
use pyroscope_rs.Base.Bytes.{to_le_bytes, from_le_bytes, read_le}
use pyroscope_rs.Unwind.{RawFrame}

abbrev pub header_size : ℕ
header_size = 8

abbrev pub frame_size : ℕ
frame_size = 16

-- `HEADER_SIZE + depth * FRAME_SIZE` on usize
unfoldable pub record_len : ℕ → ℕ
record_len depth = (header_size + depth * frame_size) % 2 ^ 64

-- the bytes of one `#[repr(C)]` frame, and of a slice of frames
unfoldable pub frame_bytes : RawFrame → List ℕ
frame_bytes f = to_le_bytes 8 f.code_object ++ to_le_bytes 8 f.instr_offset

unfoldable pub frames_bytes : List RawFrame → List ℕ
frames_bytes [] = []
frames_bytes (f ∷ fs) = frame_bytes f ++ frames_bytes fs

-- `grant[offset..offset + src.len()].copy_from_slice(src)`; `none` is the panic of the slice
unfoldable pub copy_at : ℕ → List ℕ → List ℕ → Option (List ℕ)
copy_at offset src buf =
    if leb (offset + length src) (length buf)
    then some (take offset buf ++ (src ++ drop (offset + length src) buf))
    else none

-- `&frames[..depth]`
unfoldable pub prefix : ℕ → List RawFrame → Option (List RawFrame)
prefix depth frames = if leb depth (length frames) then some (take depth frames) else none

-- what `write` does: it returns `false`, commits a record and returns `true`, or panics
pub data Write : Type 0 where
  refused : Write
  committed : List ℕ → Write
  panicked : Write

abbrev pub or_panic : ℕ → Option (List ℕ) → Write
or_panic len none = panicked
or_panic len (some bytes) = committed (take len bytes)

unfoldable pub write : (ℕ → Option (List ℕ)) → ℕ → List RawFrame → ℕ → Write
unfolding prefix
write grant tid frames depth = elim (grant (record_len depth)) [
  | none ↦ refused
  | some bytes ↦ or_panic (record_len depth) (
      option_bind (copy_at 0 (to_le_bytes 4 tid) bytes) λ with_tid.
        option_bind (copy_at 4 (to_le_bytes 4 (depth % 2 ^ 32)) with_tid) λ with_depth.
          option_bind (prefix depth frames)
            λ src. copy_at header_size (frames_bytes src) with_depth)
]

pub record RecordView : Type 0 where
  pub tid : ℕ
  pub depth : ℕ
  pub buf : List ℕ

-- `RecordView::frame`; `none` is a read out of bounds
unfoldable pub frame : RecordView → ℕ → Option RawFrame
frame view i =
    let offset = header_size + i * frame_size in
    option_bind (read_le 8 view.buf offset) λ code.
      option_bind (read_le 8 view.buf (offset + 8))
        λ instr. some (record { code_object = code; instr_offset = instr })

unfoldable pub parse_record : List ℕ → Option RecordView
unfolding record_len
parse_record buf =
    if ltb (length buf) header_size
    then none
    else let tid = from_le_bytes (take 4 buf) in
      let depth = from_le_bytes (take 4 (drop 4 buf)) in
      if ltb (length buf) (record_len depth)
      then none
      else some (record { tid = tid; depth = depth; buf = buf })
