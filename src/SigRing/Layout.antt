-- ===== src/SigRing/Layout.antt =====
-- The bytes that `write` commits (kit/sig_ring/src/lib.rs).
use mathlib.Core.List.{append_assoc, append-nil}
use pyroscope_rs.Base.{
  ℕ, ◌+◌, ◌*◌, ◌%◌, ◌^◌, ◌≤◌, ◌<◌, ◌≡◌, refl, sym, ap, ◌∙◌, List, [], ◌∷◌, ◌++◌, Option, some,
  arith, length, take, drop, length-append, le→leb, option_bind,
}
use pyroscope_rs.Base.Bytes.{to_le_bytes, length-to_le_bytes}
use pyroscope_rs.Base.Slices.{
  take-append_length, drop-append, drop_all, take_all, length-drop, length-take,
}
use pyroscope_rs.SigRing.{
  record_len, frame_bytes, frames_bytes, copy_at, committed, or_panic, write,
}
use pyroscope_rs.Unwind.{RawFrame}

-- The record of a thread id and some frames.
unfoldable pub record_bytes : ℕ → ℕ → List RawFrame → List ℕ
record_bytes tid depth frames =
    to_le_bytes 4 tid ++ (to_le_bytes 4 depth ++ frames_bytes (take depth frames))

pub length-frame_bytes : (f : RawFrame) → length (frame_bytes f) ≡ 16
unfolding frame_bytes
length-frame_bytes f = omega (
  arith,
  length-append (to_le_bytes 8 f.code_object) (to_le_bytes 8 f.instr_offset),
  length-to_le_bytes 8 f.code_object,
  length-to_le_bytes 8 f.instr_offset,
)

pub length-frames_bytes : (fs : List RawFrame) → length (frames_bytes fs) ≡ length fs * 16
unfolding frames_bytes
length-frames_bytes [] = omega arith
length-frames_bytes (f ∷ fs) = omega (
  arith,
  length-append (frame_bytes f) (frames_bytes fs),
  length-frame_bytes f,
  length-frames_bytes fs,
)

-- A copy behind a prefix of its length.
copy_at-append :
    (offset : ℕ) (src before behind : List ℕ)
    → offset ≡ length before
    → length src ≤ length behind
    → copy_at offset src (before ++ behind) ≡ some (before ++ (src ++ drop (length src) behind))
unfolding copy_at
copy_at-append offset src before behind e fits = rw (
  le→leb (offset + length src) (length (before ++ behind))
      (omega (arith, length-append before behind)),
  take-append_length offset before behind e,
  drop-append (offset + length src) (length src) before behind (omega arith),
)

-- The header and the frames fill a grant of their length.
three_copies :
    (t d f bytes : List ℕ)
    → length t ≡ 4
    → length d ≡ 4
    → length bytes ≡ 8 + length f
    → option_bind (copy_at 0 t bytes) (λ a. option_bind (copy_at 4 d a) λ b. copy_at 8 f b)
      ≡ some (t ++ (d ++ f))
three_copies t d f bytes lt ld size =
    let m = drop (length t) bytes in
    let lm = length-drop (length t) bytes in
    let n = drop (length d) m in
    let ln = length-drop (length d) m in
    let all : drop (length f) n ≡ [] = drop_all (length f) n (omega arith) in
    let third : copy_at 8 f ((t ++ d) ++ n) ≡ some ((t ++ d) ++ (f ++ drop (length f) n)) =
      copy_at-append 8 f (t ++ d) n (omega (arith, length-append t d)) (omega arith) in
    rw (
      copy_at-append 0 t [] bytes refl (omega arith),
      copy_at-append 4 d t m (sym lt) (omega arith),
      ← append_assoc t d n,
      third,
      all,
      append-nil f,
      append_assoc t d f,
    )

pub write-committed :
    (grant : ℕ → Option (List ℕ)) (tid : ℕ) (frames : List RawFrame) (depth : ℕ) (bytes : List ℕ)
    → grant (record_len depth) ≡ some bytes
    → length bytes ≡ record_len depth
    → depth < 2 ^ 32
    → depth ≤ length frames
    → write grant tid frames depth ≡ committed (record_bytes tid depth frames)
unfolding write record_bytes record_len
write-committed grant tid frames depth bytes granted len small within =
    let t = to_le_bytes 4 tid in
    let d = to_le_bytes 4 depth in
    let f = frames_bytes (take depth frames) in
    let lt = length-to_le_bytes 4 tid in
    let ld = length-to_le_bytes 4 depth in
    let lf : length f ≡ depth * 16 =
      omega (arith, length-frames_bytes (take depth frames), length-take depth frames) in
    let same : depth % 2 ^ 32 ≡ depth = omega arith in
    let copies = three_copies t d f bytes lt ld (omega arith) in
    let whole : take (record_len depth) (t ++ (d ++ f)) ≡ t ++ (d ++ f) =
      take_all (record_len depth) (t ++ (d ++ f))
        (omega (arith, length-append t (d ++ f), length-append d f)) in
    rw (granted, write, same, le→leb depth (length frames) within)
      (ap (or_panic (record_len depth)) copies ∙ ap committed whole)
