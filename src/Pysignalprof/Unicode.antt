-- ===== src/Pysignalprof/Unicode.antt =====
-- kit/pysignalprof/src/lib.rs: the names of code objects, read out of the interpreter's memory, with
-- `kindasafe::str` of kit/kindasafe/src/lib.rs. The argument `slice` stands for `kindasafe::slice`: that
-- many bytes from an address, or a fault. A `&str` is the list of its characters as numbers.
use pyroscope_rs.Base.{
  ℕ, zero, suc, ◌+◌, ◌-◌, ◌*◌, ◌/◌, ◌%◌, ◌^◌, Bool, true, false, not, List, [], ◌∷◌, ◌++◌, Option,
  none, some, length, take, drop, ltb, eqb, if◌then◌else◌, option_bind, min, unwrap_or,
}
use pyroscope_rs.Base.Bytes.{from_le_bytes}
use pyroscope_rs.PythonOffsetsTypes.Py314.{DebugOffsets, UnicodeObject}

-- `char::from_u32`: the surrogates and what lies above the last plane are no characters
unfoldable pub from_u32 : ℕ → Option ℕ
from_u32 c =
    if ltb c 0xD800
    then some c
    else if ltb c 0xE000
    then none
    else if ltb c 0x110000
    then some c
    else none

-- `char::encode_utf8`
unfoldable pub encode_utf8 : ℕ → List ℕ
encode_utf8 c =
    if ltb c 0x80
    then c ∷ []
    else if ltb c 0x800
    then (0xC0 + c / 64) ∷ (0x80 + c % 64) ∷ []
    else if ltb c 0x10000
    then (0xE0 + c / 4096) ∷ (0x80 + c / 64 % 64) ∷ (0x80 + c % 64) ∷ []
    else (0xF0 + c / 262144) ∷ (0x80 + c / 4096 % 64) ∷ (0x80 + c / 64 % 64) ∷ (0x80 + c % 64) ∷ []

-- `char::len_utf8`
unfoldable pub len_utf8 : ℕ → ℕ
len_utf8 c = if ltb c 0x80 then 1 else if ltb c 0x800 then 2 else if ltb c 0x10000 then 3 else 4

-- continuation bytes of a character, and the bytes behind it
abbrev pub continued : ℕ → ℕ → List ℕ → Option (ℕ × List ℕ)
continued zero acc bytes = some (acc, bytes)
continued (suc n) acc [] = none
continued (suc n) acc (b ∷ bytes) =
    let rest = continued n (acc * 64 + (b - 0x80)) bytes in
    if ltb b 0x80 then none else if ltb b 0xC0 then rest else none

-- a character that needs as many bytes as it takes
abbrev pub at_least : ℕ → Option (ℕ × List ℕ) → Option (ℕ × List ℕ)
at_least low none = none
at_least low (some (c, bytes)) =
    if ltb c low then none else option_bind (from_u32 c) λ c'. some (c', bytes)

-- the first character of a text in UTF-8
unfoldable pub next_char : List ℕ → Option (ℕ × List ℕ)
unfolding from_u32
next_char [] = none
next_char (b ∷ bytes) =
    if ltb b 0x80
    then some (b, bytes)
    else if ltb b 0xC0
    then none
    else if ltb b 0xE0
    then at_least 0x80 (continued 1 (b - 0xC0) bytes)
    else if ltb b 0xF0
    then at_least 0x800 (continued 2 (b - 0xE0) bytes)
    else if ltb b 0xF8
    then at_least 0x10000 (continued 3 (b - 0xF0) bytes)
    else none

unfoldable pub decode : ℕ → List ℕ → Option (List ℕ)
decode fuel [] = some []
decode zero (b ∷ bytes) = none
decode (suc fuel) (b ∷ bytes) = elim (next_char (b ∷ bytes)) [
  | none ↦ none
  | some (c, rest) ↦ option_bind (decode fuel rest) λ cs. some (c ∷ cs)
]

-- `core::str::from_utf8`; a character takes a byte at least, so the length is fuel enough
unfoldable pub from_utf8 : List ℕ → Option (List ℕ)
unfolding decode next_char
from_utf8 bytes = decode (length bytes) bytes

-- the numbers of `k` bytes in a row, little-endian
unfoldable pub units : ℕ → ℕ → List ℕ → List ℕ
units k zero raw = []
units k (suc n) raw = from_le_bytes (take k raw) ∷ units k n (drop k raw)

-- the loop over the code points; `out` is what of the buffer, of `cap` bytes, is written
unfoldable pub encode_all : ℕ → List ℕ → List ℕ → List ℕ
encode_all cap [] out = out
encode_all cap (cp ∷ cps) out = elim (from_u32 cp) [
  | none ↦ encode_all cap cps out
  | some c ↦ elim (ltb cap (length out + len_utf8 c)) [
    | true ↦ out
    | false ↦ encode_all cap cps (out ++ encode_utf8 c)
  ]
]

abbrev pub nonempty : List ℕ → Option (List ℕ)
nonempty [] = none
nonempty (x ∷ xs) = some (x ∷ xs)

module _ (slice : ℕ → ℕ → Option (List ℕ)) where
  -- the code points of `k` bytes each, `limit` at most, encoded into a buffer of `cap` bytes
  unfoldable pub read_ucs : ℕ → ℕ → ℕ → ℕ → ℕ → Option (List ℕ)
  read_ucs k limit cap data_addr length =
      let max_read = min length limit in
      option_bind (slice data_addr (max_read * k)) λ raw.
        option_bind (nonempty (encode_all cap (units k max_read raw) [])) λ out. from_utf8 out

  unfoldable pub read_ucs1_to_utf8 : ℕ → ℕ → ℕ → Option (List ℕ)
  unfolding read_ucs
  read_ucs1_to_utf8 = read_ucs 1 128

  unfoldable pub read_ucs2_to_utf8 : ℕ → ℕ → ℕ → Option (List ℕ)
  unfolding read_ucs
  read_ucs2_to_utf8 = read_ucs 2 128

  unfoldable pub read_ucs4_to_utf8 : ℕ → ℕ → ℕ → Option (List ℕ)
  unfolding read_ucs
  read_ucs4_to_utf8 = read_ucs 4 64

  -- the bytes ahead of the first 0
  abbrev pub until_nul : List ℕ → Option (List ℕ)
  until_nul [] = none
  until_nul (b ∷ bytes) =
      let rest = until_nul bytes in
      if eqb b 0 then some [] else option_bind rest λ before. some (b ∷ before)

  -- `kindasafe::str` with a buffer of `cap` bytes
  unfoldable pub read_str : ℕ → ℕ → Option (List ℕ)
  unfolding from_utf8
  read_str cap at =
      if eqb at 0
      then some []
      else option_bind (slice at cap) λ bytes. option_bind (until_nul bytes) from_utf8

  module _ (read : ℕ → Option ℕ) where
    abbrev sum : ℕ → ℕ → ℕ
    sum a b = (a + b) % 2 ^ 64

    -- the two fields of the state, by the layout of the build
    unfoldable pub state_bits : Bool → ℕ → Bool × ℕ
    state_bits true state = (not (eqb (state / 2 ^ 12 % 2) 0), state / 2 ^ 8 % 8)
    state_bits false state = (not (eqb (state / 2 ^ 6 % 2) 0), state / 2 ^ 2 % 8)

    -- from the length on
    unfoldable pub read_raw : ℕ → ℕ → UnicodeObject → ℕ → Option (List ℕ)
    unfolding read_ucs1_to_utf8 read_ucs2_to_utf8 read_ucs4_to_utf8
    read_raw cap obj_ptr offsets kind = option_bind (read (sum obj_ptr offsets.length)) λ length.
        let data_addr = sum (sum obj_ptr offsets.asciiobject_size) 16 in
        if eqb length 0
        then none
        else if eqb kind 1
        then read_ucs1_to_utf8 cap data_addr length
        else if eqb kind 2
        then read_ucs2_to_utf8 cap data_addr length
        else if eqb kind 4
        then read_ucs4_to_utf8 cap data_addr length
        else none

    unfoldable pub read_pyunicode : ℕ → ℕ → UnicodeObject → Bool → Option (List ℕ)
    unfolding state_bits read_raw read_str
    read_pyunicode cap obj_ptr offsets free_threaded =
        if eqb obj_ptr 0
        then none
        else option_bind (read (sum obj_ptr offsets.state)) λ state.
          let (ascii, kind) = state_bits free_threaded (state % 2 ^ 32) in
          let utf8_ptr = unwrap_or (read (sum (sum obj_ptr offsets.asciiobject_size) 8)) 0 in
          if ascii
          then option_bind (read_str cap (sum obj_ptr offsets.asciiobject_size)) nonempty
          else if eqb utf8_ptr 0
          then read_raw cap obj_ptr offsets kind
          else option_bind (read_str cap utf8_ptr) nonempty

    abbrev pub name_buf_len : ℕ
    name_buf_len = 256

    -- one of the two attempts of `resolve_function_name`
    unfoldable pub name_at : DebugOffsets → ℕ → Option (List ℕ)
    unfolding read_pyunicode
    name_at offsets addr = option_bind (read addr) λ name_ptr.
        read_pyunicode name_buf_len name_ptr offsets.unicode_object
          (not (eqb offsets.free_threaded 0))

    -- `none` is "<unknown>"
    unfoldable pub resolve_function_name : ℕ → DebugOffsets → Option (List ℕ)
    unfolding name_at
    resolve_function_name code_object offsets =
        elim (name_at offsets (sum code_object offsets.code_object.qualname)) [
          | some name ↦ some name
          | none ↦ name_at offsets (sum code_object offsets.code_object.name)
        ]
