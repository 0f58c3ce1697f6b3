-- ===== src/Pysignalprof/Texts.antt =====
-- Texts that stand in memory as code points, and what is read of them (kit/pysignalprof/src/lib.rs).
use pyroscope_rs.Base.{
  ℕ, zero, suc, All, ◌-◌, ◌*◌, ◌^◌, ◌≤◌, ◌<◌, ◌≡◌, refl, sym, ap, ◌∙◌, List, [], ◌∷◌, ◌++◌, Option,
  some, length, min, option_bind, arith,
}
use pyroscope_rs.Base.Bytes.{
  from_le_bytes, to_le_bytes, length-to_le_bytes, from_le_bytes-to_le_bytes,
}
use pyroscope_rs.Base.Slices.{take-append_length, drop-append}
use pyroscope_rs.Pysignalprof.Unicode.{
  from_u32, len_utf8, units, nonempty, read_ucs, read_ucs1_to_utf8,
}
use pyroscope_rs.Pysignalprof.Utf8.{chars_of, fitting, read_ucs-fitting}

-- code points as numbers of `k` bytes in a row, little-endian
abbrev pub points_bytes : ℕ → List ℕ → List ℕ
points_bytes k [] = []
points_bytes k (c ∷ cps) = to_le_bytes k c ++ points_bytes k cps

units-points_bytes :
    (k : ℕ) (cps : List ℕ)
    → All (λ c. c < 256 ^ k) cps
    → units k (length cps) (points_bytes k cps) ≡ cps
unfolding units
units-points_bytes k [] fit = refl
units-points_bytes k (c ∷ cps) (small, fit) =
    let size = length-to_le_bytes k c in
    rw (
      take-append_length k (to_le_bytes k c) (points_bytes k cps) (sym size),
      from_le_bytes-to_le_bytes k c small,
      drop-append k 0 (to_le_bytes k c) (points_bytes k cps) (omega (arith, size)),
      units-points_bytes k cps fit,
    )

-- A text that stands in memory as code points of `k` bytes each, little-endian, of which `limit` at most are read
-- into a buffer of `cap` bytes: it is read as those of the code points read that are characters, as far as their
-- UTF-8 fits into the buffer, and as no text if none is left.
pub read_ucs-points_bytes :
    (slice : ℕ → ℕ → Option (List ℕ)) (k limit cap addr n : ℕ) (cps : List ℕ)
    → length cps ≡ min n limit
    → All (λ c. c < 256 ^ k) cps
    → slice addr (min n limit * k) ≡ some (points_bytes k cps)
    → read_ucs slice k limit cap addr n ≡ nonempty (fitting cap (chars_of cps))
read_ucs-points_bytes slice k limit cap addr n cps count fit there =
    read_ucs-fitting slice k limit cap addr n
    ∙ ap (λ o. option_bind o λ raw. nonempty (fitting cap (chars_of (units k (min n limit) raw))))
        there
    ∙ ap (λ m. nonempty (fitting cap (chars_of (units k m (points_bytes k cps))))) (sym count)
    ∙ ap (λ x. nonempty (fitting cap (chars_of x))) (units-points_bytes k cps fit)

-- Latin-1 data: every byte is a character.
chars_of-bytes : (bytes : List ℕ) → All (λ b. b < 256) bytes → chars_of bytes ≡ bytes
unfolding chars_of from_u32
chars_of-bytes [] h = refl
chars_of-bytes (b ∷ bytes) h = ground (arith, chars_of-bytes bytes h.1)

fitting-bytes :
    (room : ℕ) (bytes : List ℕ)
    → All (λ b. b < 256) bytes
    → 2 * length bytes ≤ room
    → fitting room bytes ≡ bytes
unfolding fitting len_utf8
fitting-bytes room [] h enough = refl
fitting-bytes room (b ∷ bytes) h enough =
    ground (arith, fitting-bytes (room - 1) bytes h.1, fitting-bytes (room - 2) bytes h.1)

units-bytes : (bytes : List ℕ) (n : ℕ) → length bytes ≡ n → units 1 n bytes ≡ bytes
unfolding units from_le_bytes
units-bytes [] zero h = refl
units-bytes [] (suc n) h = absurd (omega arith)
units-bytes (b ∷ bytes) zero h = absurd (omega arith)
units-bytes (b ∷ bytes) (suc n) h = ground (arith, units-bytes bytes n)

nonempty_pos : (bytes : List ℕ) → 0 < length bytes → nonempty bytes ≡ some bytes
nonempty_pos [] h = absurd (omega arith)
nonempty_pos (b ∷ bytes) h = refl

-- A Latin-1 name of at most 128 characters is read whole: its 256 bytes of buffer do not cut it.
pub read_ucs1-whole :
    (slice : ℕ → ℕ → Option (List ℕ)) (addr n : ℕ) (raw : List ℕ)
    → 0 < n
    → n ≤ 128
    → slice addr n ≡ some raw
    → length raw ≡ n
    → All (λ b. b < 256) raw
    → read_ucs1_to_utf8 slice 256 addr n ≡ some raw
unfolding read_ucs1_to_utf8
read_ucs1-whole slice addr n raw pos short there size small =
    let all : min n 128 ≡ n = omega arith in
    let once : n * 1 ≡ n = omega arith in
    read_ucs-fitting slice 1 128 256 addr n
    ∙ rw
        (
          all,
          once,
          there,
          units-bytes raw n size,
          chars_of-bytes raw small,
          fitting-bytes 256 raw small (omega arith),
        )
        (nonempty_pos raw (omega arith))
