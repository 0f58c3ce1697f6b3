-- ===== src/Pysignalprof/Utf8.antt =====
-- What the names read from UCS data are (kit/pysignalprof/src/lib.rs).
use mathlib.Core.List.{append_assoc, append-nil}
use pyroscope_rs.Base.{
  ℕ, zero, suc, All, ◌+◌, ◌-◌, ◌*◌, ◌≤◌, ◌≡◌, refl, sym, ap, ◌∙◌, List, [], ◌∷◌, ◌++◌, Option, none,
  some, length, length-append, ltb, if◌then◌else◌, min, option_bind, arith, Bool-cases,
  Option-cases, inl, inr, ltb→le, le→ltb, ltb→lt, lt→ltb,
}
use pyroscope_rs.Pysignalprof.Unicode.{
  from_u32, encode_utf8, len_utf8, next_char, decode, from_utf8, units, encode_all, nonempty,
  read_ucs,
}

abbrev IsScalar : ℕ → Type 0
IsScalar c = from_u32 c ≡ some c

-- The characters among some numbers.
unfoldable pub chars_of : List ℕ → List ℕ
chars_of [] = []
chars_of (cp ∷ cps) = elim (from_u32 cp) [ none ↦ chars_of cps | some c ↦ c ∷ chars_of cps ]

-- The first characters that fit into some bytes.
unfoldable pub fitting : ℕ → List ℕ → List ℕ
fitting room [] = []
fitting room (c ∷ cs) =
    let rest = fitting (room - len_utf8 c) cs in if ltb room (len_utf8 c) then [] else c ∷ rest

-- A text in UTF-8.
unfoldable pub utf8 : List ℕ → List ℕ
utf8 [] = []
utf8 (c ∷ cs) = encode_utf8 c ++ utf8 cs

from_u32-IsScalar : (cp c : ℕ) → from_u32 cp ≡ some c → (cp ≡ c) × IsScalar c
unfolding from_u32
from_u32-IsScalar cp c h = ground (arith, h)

length-encode_utf8 : (c : ℕ) → length (encode_utf8 c) ≡ len_utf8 c
unfolding encode_utf8 len_utf8
length-encode_utf8 c = ground arith

next_char-encode_utf8 :
    (c : ℕ) (rest : List ℕ) → IsScalar c → next_char (encode_utf8 c ++ rest) ≡ some (c, rest)
unfolding next_char encode_utf8 from_u32
next_char-encode_utf8 c rest h = ground arith

encode_all-fitting :
    (cap : ℕ) (cps out : List ℕ)
    → length out ≤ cap
    → encode_all cap cps out ≡ out ++ utf8 (fitting (cap - length out) (chars_of cps))
unfolding encode_all fitting utf8 chars_of
encode_all-fitting cap [] out h = sym (append-nil out)
encode_all-fitting cap (cp ∷ cps) out h = elim (Option-cases (from_u32 cp)) [
  | inl nothing ↦ rw (nothing, encode_all, chars_of) (encode_all-fitting cap cps out h)
  | inr (c, char) ↦ elim (Bool-cases (ltb cap (length out + len_utf8 c))) [
    | inl full ↦
        rw
          (
            char,
            encode_all,
            chars_of,
            full,
            fitting,
            lt→ltb (cap - length out) (len_utf8 c) (omega (arith, ltb→lt _ _ full)),
            utf8,
          )
          (sym (append-nil out))
    | inr room ↦
        let fits = ltb→le _ _ room in
        let size = length-encode_utf8 c in
        let more = length-append out (encode_utf8 c) in
        let left : cap - length (out ++ encode_utf8 c) ≡ cap - length out - len_utf8 c =
          omega arith in
        let ih = encode_all-fitting cap cps (out ++ encode_utf8 c) (omega arith) in
        rw
          (
            char,
            encode_all,
            chars_of,
            room,
            fitting,
            le→ltb (cap - length out) (len_utf8 c) (omega arith),
            utf8,
          )
          (ih ∙ rw left (append_assoc out (encode_utf8 c) _))
  ]
]

-- Each of the characters is one, and they fit.
chars_of-All : (cps : List ℕ) → All IsScalar (chars_of cps)
unfolding chars_of
chars_of-All [] = tt
chars_of-All (cp ∷ cps) = elim (Option-cases (from_u32 cp)) [
  | inl nothing ↦ rw (nothing, chars_of) (chars_of-All cps)
  | inr (c, char) ↦ rw (char, chars_of) ((from_u32-IsScalar cp c char).1, chars_of-All cps)
]

fitting-All : (room : ℕ) (cs : List ℕ) → All IsScalar cs → All IsScalar (fitting room cs)
unfolding fitting
fitting-All room [] h = tt
fitting-All room (c ∷ cs) h = elim (Bool-cases (ltb room (len_utf8 c))) [
  | inl full ↦ rw (full, fitting) tt
  | inr fits ↦ rw (fits, fitting) (h.0, fitting-All (room - len_utf8 c) cs h.1)
]

encode_cons : (c : ℕ) → (b : ℕ) × (bs : List ℕ) × (encode_utf8 c ≡ b ∷ bs)
encode_cons c = split (encode_utf8 c) refl
  where
    split :
        (bytes : List ℕ)
        → encode_utf8 c ≡ bytes
        → (b : ℕ) × (bs : List ℕ) × (encode_utf8 c ≡ b ∷ bs)
    split [] e =
        absurd
          (unfold len_utf8 in ground (arith, length-encode_utf8 c, ap (λ (x : List ℕ). length x) e))
    split (b ∷ bs) e = (b, bs, e)

decode_step :
    (fuel c b : ℕ) (bs rest : List ℕ)
    → next_char (b ∷ bs) ≡ some (c, rest)
    → decode (suc fuel) (b ∷ bs) ≡ option_bind (decode fuel rest) (λ cs. some (c ∷ cs))
unfolding decode
decode_step fuel c b bs rest h = rw (h, decode)

decode-utf8 :
    (fuel : ℕ) (cs : List ℕ)
    → All IsScalar cs
    → length (utf8 cs) ≤ fuel
    → decode fuel (utf8 cs) ≡ some cs
unfolding utf8
decode-utf8 zero [] h enough = unfold decode in refl
decode-utf8 (suc fuel) [] h enough = unfold decode in refl
decode-utf8 zero (c ∷ cs) h enough =
    let (b, bs, e) = encode_cons c in
    absurd (omega (arith, length-append (encode_utf8 c) (utf8 cs), ap (λ (x : List ℕ). length x) e))
decode-utf8 (suc fuel) (c ∷ cs) h enough =
    let (b, bs, e) = encode_cons c in
    let first : next_char (b ∷ (bs ++ utf8 cs)) ≡ some (c, utf8 cs) =
      ap (λ (x : List ℕ). next_char (x ++ utf8 cs)) (sym e)
      ∙ next_char-encode_utf8 c (utf8 cs) h.0 in
    let enough' : length (utf8 cs) ≤ fuel =
      omega (arith, length-append (encode_utf8 c) (utf8 cs), ap (λ (x : List ℕ). length x) e) in
    ap (λ (x : List ℕ). decode (suc fuel) (x ++ utf8 cs)) e
    ∙ decode_step fuel c b (bs ++ utf8 cs) (utf8 cs) first
    ∙ rw (decode-utf8 fuel cs h.1 enough')

nonempty_lem : (bytes : List ℕ) (b : ℕ) (bs : List ℕ) → bytes ≡ b ∷ bs → nonempty bytes ≡ some bytes
nonempty_lem [] b bs e = cc
nonempty_lem (x ∷ xs) b bs e = refl

nonempty-utf8 :
    (cs : List ℕ) → All IsScalar cs → option_bind (nonempty (utf8 cs)) from_utf8 ≡ nonempty cs
unfolding utf8
nonempty-utf8 [] h = refl
nonempty-utf8 (c ∷ cs) h =
    let (b, bs, e) = encode_cons c in
    let bytes = utf8 (c ∷ cs) in
    let some_bytes : nonempty bytes ≡ some bytes =
      nonempty_lem bytes b (bs ++ utf8 cs) (ap (λ (x : List ℕ). x ++ utf8 cs) e) in
    ap (λ (o : Option (List ℕ)). option_bind o from_utf8) some_bytes
    ∙ unfold from_utf8 in decode-utf8 (length bytes) (c ∷ cs) h (omega arith)

-- The text that is read from `k`-byte code points, `limit` at most, into a buffer of `cap` bytes:
-- those of them that are characters, as far as their UTF-8 fits into the buffer; no text if none is left
-- or the data cannot be read.
pub read_ucs-fitting :
    (slice : ℕ → ℕ → Option (List ℕ)) (k limit cap addr n : ℕ)
    → read_ucs slice k limit cap addr n
      ≡ option_bind
          (slice addr (min n limit * k))
          λ raw. nonempty (fitting cap (chars_of (units k (min n limit) raw)))
unfolding read_ucs
read_ucs-fitting slice k limit cap addr n = elim (Option-cases (slice addr (min n limit * k))) [
  | inl fault ↦ rw fault refl
  | inr (raw, there) ↦
      let cps = units k (min n limit) raw in
      let text = fitting cap (chars_of cps) in
      let whole : cap - 0 ≡ cap = omega arith in
      rw (there, encode_all-fitting cap cps [] (omega arith), whole)
        (nonempty-utf8 text (fitting-All cap (chars_of cps) (chars_of-All cps)))
]
