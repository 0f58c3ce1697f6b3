-- ===== src/SigRing/RoundTrip.antt =====
-- What a reader gets from the bytes of a record, as written or any others
-- (kit/sig_ring/src/lib.rs).
use mathlib.Core.List.{append_assoc}
use pyroscope_rs.Base.{
  ℕ, zero, suc, All, ◌+◌, ◌*◌, ◌%◌, ◌^◌, ◌≤◌, ◌<◌, ◌≡◌, refl, sym, ap, ◌∙◌, List, [], ◌∷◌, ◌++◌,
  Option, some, arith, length, take, drop, get_elem?, length-append, le→leb, le→ltb,
}
use pyroscope_rs.Base.Reading.{read_le-append}
use pyroscope_rs.Base.Bytes.{
  to_le_bytes, from_le_bytes, read_le, length-to_le_bytes, from_le_bytes-to_le_bytes,
  from_le_bytes-lt,
}
use pyroscope_rs.Base.Slices.{
  take-append_length, drop-append, length-take, length-drop, All-take, All-drop,
}
use pyroscope_rs.SigRing.Layout.{
  record_bytes, length-frame_bytes, length-frames_bytes, write-committed,
}
use pyroscope_rs.SigRing.{
  record_len, frame_bytes, frames_bytes, committed, write, RecordView, frame, parse_record,
}
use pyroscope_rs.Unwind.{RawFrame}

abbrev pub IsWord : RawFrame → Type 0
IsWord f = (f.code_object < 2 ^ 64) × (f.instr_offset < 2 ^ 64)

-- Where the bytes of frame `i` stand among the bytes of the frames.
split_frames :
    (fs : List RawFrame) (i n : ℕ) {f : RawFrame}
    → i < n
    → get_elem? fs i ≡ some f
    → (before : List ℕ) × (behind : List ℕ) × (length before ≡ i * 16)
      × (frames_bytes (take n fs) ≡ before ++ (frame_bytes f ++ behind))
unfolding frames_bytes
split_frames [] i n lt h = cc
split_frames (g ∷ fs) i zero lt h = absurd (omega arith)
split_frames (g ∷ fs) zero (suc n) {f} lt h =
    let e : g ≡ f = ground (arith, h) in ([], frames_bytes (take n fs), refl, rw e)
split_frames (g ∷ fs) (suc i) (suc n) {f} lt h =
    let (before, behind, size, e) = split_frames fs i n (omega arith) h in
    (
      frame_bytes g ++ before,
      behind,
      omega (arith, length-append (frame_bytes g) before, length-frame_bytes g),
      rw (e, append_assoc (frame_bytes g) before (frame_bytes f ++ behind)),
    )

module _ (tid depth : ℕ) (frames : List RawFrame) (small : tid < 2 ^ 32) (short : depth < 2 ^ 32)
    (within : depth ≤ length frames) where
  abbrev pub bytes : List ℕ
  bytes = record_bytes tid depth frames

  length-bytes : length bytes ≡ 8 + depth * 16
  unfolding record_bytes
  length-bytes =
      let d = to_le_bytes 4 depth in
      let f = frames_bytes (take depth frames) in
      omega (
        arith,
        length-append (to_le_bytes 4 tid) (d ++ f),
        length-append d f,
        length-to_le_bytes 4 tid,
        length-to_le_bytes 4 depth,
        length-frames_bytes (take depth frames),
        length-take depth frames,
      )

  pub parse_record-bytes :
      parse_record bytes ≡ some (record { tid = tid; depth = depth; buf = bytes })
  unfolding parse_record record_bytes
  parse_record-bytes =
      let t = to_le_bytes 4 tid in
      let d = to_le_bytes 4 depth in
      let f = frames_bytes (take depth frames) in
      let lt = length-to_le_bytes 4 tid in
      let ld = length-to_le_bytes 4 depth in
      let size = length-bytes in
      let their_tid : from_le_bytes (take 4 bytes) ≡ tid =
        ap from_le_bytes (take-append_length 4 t (d ++ f) (sym lt))
        ∙ from_le_bytes-to_le_bytes 4 tid small in
      let their_depth : from_le_bytes (take 4 (drop 4 bytes)) ≡ depth =
        ap (λ (x : List ℕ). from_le_bytes (take 4 x)) (drop-append 4 0 t (d ++ f) (omega arith))
        ∙ ap from_le_bytes (take-append_length 4 d f (sym ld))
        ∙ from_le_bytes-to_le_bytes 4 depth short in
      rw (
        le→ltb (length bytes) 8 (omega arith),
        their_tid,
        their_depth,
        le→ltb (length bytes) ((8 + depth * 16) % 2 ^ 64) (omega arith),
      )

  pub frame-bytes :
      (i : ℕ) (f : RawFrame)
      → i < depth
      → get_elem? frames i ≡ some f
      → IsWord f
      → frame (record { tid = tid; depth = depth; buf = bytes }) i ≡ some f
  unfolding frame record_bytes frame_bytes
  frame-bytes i f lt h (c, o) =
      let t = to_le_bytes 4 tid in
      let d = to_le_bytes 4 depth in
      let code = to_le_bytes 8 f.code_object in
      let instr = to_le_bytes 8 f.instr_offset in
      let (before, behind, size, e) = split_frames frames i depth lt h in
      let front = t ++ (d ++ before) in
      let at_front : length front ≡ 8 + i * 16 = omega (
        arith,
        length-append t (d ++ before),
        length-append d before,
        length-to_le_bytes 4 tid,
        length-to_le_bytes 4 depth,
      ) in
      let whole : bytes ≡ front ++ (code ++ (instr ++ behind)) =
        ap (λ (x : List ℕ). t ++ (d ++ x)) (e ∙ ap (◌++◌ before) (append_assoc code instr behind))
        ∙ ap (◌++◌ t) (sym (append_assoc d before _))
        ∙ sym (append_assoc t (d ++ before) _) in
      let shifted : bytes ≡ (front ++ code) ++ (instr ++ behind) =
        whole ∙ sym (append_assoc front code (instr ++ behind)) in
      let first : read_le 8 bytes (8 + i * 16) ≡ some f.code_object =
        ap (λ (x : List ℕ). read_le 8 x (8 + i * 16)) whole
        ∙ read_le-append 8 (8 + i * 16) f.code_object front (instr ++ behind) (sym at_front) c in
      let second : read_le 8 bytes (8 + i * 16 + 8) ≡ some f.instr_offset =
        ap (λ (x : List ℕ). read_le 8 x (8 + i * 16 + 8)) shifted
        ∙ read_le-append 8 (8 + i * 16 + 8) f.instr_offset (front ++ code) behind
            (omega (arith, length-append front code, length-to_le_bytes 8 f.code_object)) o in
      rw (first, second)

-- A record that `write` commits parses back: the thread id, the depth and frame `i`, any of the first
-- `depth`, are those written. The grant has the length asked for, the numbers fit their types, and
-- `depth` is within the frames.
pub parse_record-write :
    (grant : ℕ → Option (List ℕ)) (tid depth : ℕ) (frames : List RawFrame) (buffer : List ℕ) (i : ℕ)
    (f : RawFrame)
    → tid < 2 ^ 32
    → depth < 2 ^ 32
    → depth ≤ length frames
    → grant (record_len depth) ≡ some buffer
    → length buffer ≡ record_len depth
    → i < depth
    → get_elem? frames i ≡ some f
    → IsWord f
    → (bytes : List ℕ) × (view : RecordView) × (write grant tid frames depth ≡ committed bytes)
      × (parse_record bytes ≡ some view)
      × (view.tid ≡ tid)
      × (view.depth ≡ depth)
      × (frame view i ≡ some f)
parse_record-write grant tid depth frames buffer i f small short within granted size lt h word = (
  record_bytes tid depth frames,
  record { tid = tid; depth = depth; buf = record_bytes tid depth frames },
  write-committed grant tid frames depth buffer granted size short within,
  parse_record-bytes tid depth frames small short within,
  refl,
  refl,
  frame-bytes tid depth frames small short within i f lt h word,
)

-- What a record that parses says of its buffer.
parse_record-facts :
    (buf : List ℕ) (view : RecordView)
    → parse_record buf ≡ some view
    → (8 ≤ length buf)
      × (view.buf ≡ buf)
      × (view.depth ≡ from_le_bytes (take 4 (drop 4 buf)))
      × ((8 + view.depth * 16) % 2 ^ 64 ≤ length buf)
unfolding parse_record
parse_record-facts buf view h = ground (arith, h)

-- Whatever the bytes, a record that parses has all its frames inside the buffer.
pub frame-parse_record :
    (buf : List ℕ) (view : RecordView) (i : ℕ)
    → All (λ b. b < 256) buf
    → parse_record buf ≡ some view
    → i < view.depth
    → (f : RawFrame) × (frame view i ≡ some f)
unfolding frame read_le
frame-parse_record buf view i small h lt =
    let (long, same, depth, room) = parse_record-facts buf view h in
    let field = take 4 (drop 4 buf) in
    let four : length field ≡ 4 = omega (arith, length-take 4 (drop 4 buf), length-drop 4 buf) in
    let bound : view.depth < 2 ^ 32 =
      rw depth
        (from_le_bytes-lt field 4 (All-take _ 4 (drop 4 buf) (All-drop _ 4 buf small)) four) in
    rw
      (
        same,
        le→leb (8 + i * 16 + 8) (length buf) (omega arith),
        le→leb (8 + i * 16 + 8 + 8) (length buf) (omega arith),
      )
      (_, refl)
