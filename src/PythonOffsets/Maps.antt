-- ===== src/PythonOffsets/Maps.antt =====
-- /proc/self/maps (kit/python_offsets/src/lib.rs). A line is a list of bytes, with the newline that ends
-- it. `lossy` stands for `String::from_utf8_lossy`.
use pyroscope_rs.Base.{
  ℕ, zero, suc, ◌+◌, ◌-◌, ◌*◌, ◌^◌, String, Bool, true, false, not, ◌&&◌, ◌||◌, List, [], ◌∷◌,
  Option, none, some, length, eqb, leb, ltb, if◌then◌else◌, is_some, option_bind,
}
use pyroscope_rs.Base.Equality.{nat_eq}
use pyroscope_rs.PythonOffsets.{python_not_found, Result, ok, err}

pub record PythonBinary : Type 0 where
  pub base : ℕ
  pub path : String

-- the tuple of `parse_maps_line`
pub record MapsLineFields : Type 0 where
  pub start : ℕ
  pub end : ℕ
  pub flags : ℕ
  pub offset : ℕ
  pub dev_major : ℕ
  pub dev_minor : ℕ
  pub inode : ℕ
  pub path : List ℕ

-- the list before the first `b` and the one after it
unfoldable pub split_at : ℕ → List ℕ → Option (List ℕ × List ℕ)
split_at b [] = none
split_at b (c ∷ cs) =
    let rest = split_at b cs in
    if eqb c b then some ([], cs) else option_bind rest λ (before, after). some (c ∷ before, after)

-- `splitn(n, …)` as the list of its items
unfoldable pub splitn : ℕ → ℕ → List ℕ → List (List ℕ)
splitn zero b cs = []
splitn (suc n) b cs = elim n [
  | zero ↦ cs ∷ []
  | suc _ ↦ elim (split_at b cs) [
    | none ↦ cs ∷ []
    | some (before, after) ↦ before ∷ splitn n b after
  ]
]

unfoldable pub digit : ℕ → ℕ → Option ℕ
digit radix c =
    let value =
      if leb 48 c && leb c 57
      then c - 48
      else if leb 97 c && leb c 122
      then c - 97 + 10
      else if leb 65 c && leb c 90
      then c - 65 + 10
      else radix in
    if ltb value radix then some value else none

-- the digits of `from_str_radix`, below `2 ^ width`
unfoldable pub digits : ℕ → ℕ → ℕ → List ℕ → Option ℕ
unfolding digit
digits width radix acc [] = some acc
digits width radix acc (c ∷ cs) =
    option_bind (digit radix c) λ d.
      if ltb (acc * radix + d) (2 ^ width) then digits width radix (acc * radix + d) cs else none

-- `from_str_radix` of an unsigned type: no digits are an error, one leading `+` is not
unfoldable pub from_str_radix : ℕ → ℕ → List ℕ → Option ℕ
unfolding digits
from_str_radix width radix [] = none
from_str_radix width radix (c ∷ cs) =
    if eqb c 43
    then elim cs [ [] ↦ none | d ∷ ds ↦ digits width radix 0 (d ∷ ds) ]
    else digits width radix 0 (c ∷ cs)

unfoldable pub strip_prefix : List ℕ → List ℕ → Option (List ℕ)
strip_prefix [] cs = some cs
strip_prefix (p ∷ ps) [] = none
strip_prefix (p ∷ ps) (c ∷ cs) = let rest = strip_prefix ps cs in if eqb p c then rest else none

abbrev pub strip_any : List (List ℕ) → List ℕ → Option (List ℕ)
strip_any [] cs = none
strip_any (p ∷ ps) cs =
    let rest = strip_any ps cs in elim (strip_prefix p cs) [ none ↦ rest | some cs' ↦ some cs' ]

-- at most `fuel` spaces are stripped; the length of the list is enough
unfoldable pub trim_start : ℕ → List (List ℕ) → List ℕ → List ℕ
unfolding strip_prefix
trim_start zero spaces cs = cs
trim_start (suc fuel) spaces cs = elim (strip_any spaces cs) [
  | none ↦ cs
  | some cs' ↦ trim_start fuel spaces cs'
]

abbrev pub reverse : List ℕ → List ℕ → List ℕ
reverse [] done = done
reverse (c ∷ cs) done = reverse cs (c ∷ done)

abbrev pub reversed : List (List ℕ) → List (List ℕ)
reversed [] = []
reversed (s ∷ ss) = reverse s [] ∷ reversed ss

unfoldable pub trim_with : List (List ℕ) → List ℕ → List ℕ
unfolding trim_start
trim_with spaces cs =
    let front = trim_start (length cs) spaces cs in
    reverse (trim_start (length front) (reversed spaces) (reverse front [])) []

-- the ASCII whitespace of `trim_ascii`
abbrev pub ascii_spaces : List (List ℕ)
ascii_spaces = (9 ∷ []) ∷ (10 ∷ []) ∷ (12 ∷ []) ∷ (13 ∷ []) ∷ (32 ∷ []) ∷ []

-- the UTF-8 of the white space of `str::trim`
abbrev pub spaces : List (List ℕ)
spaces =
    (9 ∷ [])
    ∷ (10 ∷ [])
    ∷ (11 ∷ [])
    ∷ (12 ∷ [])
    ∷ (13 ∷ [])
    ∷ (32 ∷ [])
    ∷ (0xc2 ∷ 0x85 ∷ [])
    ∷ (0xc2 ∷ 0xa0 ∷ [])
    ∷ (0xe1 ∷ 0x9a ∷ 0x80 ∷ [])
    ∷ (0xe2 ∷ 0x80 ∷ 0x80 ∷ [])
    ∷ (0xe2 ∷ 0x80 ∷ 0x81 ∷ [])
    ∷ (0xe2 ∷ 0x80 ∷ 0x82 ∷ [])
    ∷ (0xe2 ∷ 0x80 ∷ 0x83 ∷ [])
    ∷ (0xe2 ∷ 0x80 ∷ 0x84 ∷ [])
    ∷ (0xe2 ∷ 0x80 ∷ 0x85 ∷ [])
    ∷ (0xe2 ∷ 0x80 ∷ 0x86 ∷ [])
    ∷ (0xe2 ∷ 0x80 ∷ 0x87 ∷ [])
    ∷ (0xe2 ∷ 0x80 ∷ 0x88 ∷ [])
    ∷ (0xe2 ∷ 0x80 ∷ 0x89 ∷ [])
    ∷ (0xe2 ∷ 0x80 ∷ 0x8a ∷ [])
    ∷ (0xe2 ∷ 0x80 ∷ 0xa8 ∷ [])
    ∷ (0xe2 ∷ 0x80 ∷ 0xa9 ∷ [])
    ∷ (0xe2 ∷ 0x80 ∷ 0xaf ∷ [])
    ∷ (0xe2 ∷ 0x81 ∷ 0x9f ∷ [])
    ∷ (0xe3 ∷ 0x80 ∷ 0x80 ∷ [])
    ∷ []

-- the flags of a permission field of at least four bytes
abbrev pub flags_of : ℕ → ℕ → ℕ → ℕ → ℕ
flags_of r w x s =
    (if eqb r 114 then 1 else 0)
    + (if eqb w 119 then 2 else 0)
    + (if eqb x 120 then 4 else 0)
    + (if eqb s 115 then 8 else 0)

unfoldable pub parse_perms : List ℕ → Option ℕ
parse_perms (r ∷ w ∷ x ∷ s ∷ _) = some (flags_of r w x s)
parse_perms _ = none

-- two numbers in base 16 around a separator
unfoldable pub parse_pair : ℕ → ℕ → List ℕ → Option (ℕ × ℕ)
unfolding split_at from_str_radix
parse_pair width separator field = option_bind (split_at separator field) λ (before, after).
    option_bind (from_str_radix width 16 before)
      λ a. option_bind (from_str_radix width 16 after) λ b. some (a, b)

-- the fields that `splitn` gives, taken in turn
unfoldable pub parse_fields : List (List ℕ) → Option MapsLineFields
unfolding parse_pair parse_perms from_str_radix trim_with
parse_fields (address ∷ perms ∷ offset ∷ dev ∷ inode ∷ rest) =
    option_bind (parse_pair 64 45 address) λ (start, end). option_bind (parse_perms perms) λ flags.
      option_bind (from_str_radix 64 16 offset) λ offset.
        option_bind (parse_pair 32 58 dev) λ (major, minor).
          option_bind (from_str_radix 64 10 (trim_with spaces inode)) λ inode. some (record {
            start = start;
            end = end;
            flags = flags;
            offset = offset;
            dev_major = major;
            dev_minor = minor;
            inode = inode;
            path = path_of rest;
          })
  where
    path_of : List (List ℕ) → List ℕ
    path_of [] = []
    path_of (path ∷ _) = trim_with ascii_spaces path
parse_fields _ = none

unfoldable pub parse_maps_line : List ℕ → Option MapsLineFields
unfolding splitn parse_fields
parse_maps_line line = parse_fields (splitn 6 32 line)

-- `haystack.windows(needle.len()).any(|w| w == needle)`
unfoldable pub any_window : List ℕ → List ℕ → Bool
unfolding strip_prefix
any_window needle [] = is_some (strip_prefix needle [])
any_window needle (c ∷ cs) =
    let rest = any_window needle cs in if is_some (strip_prefix needle (c ∷ cs)) then true else rest

unfoldable pub path_contains : List ℕ → List ℕ → Bool
unfolding any_window
path_contains haystack needle =
    if eqb (length needle) 0 || ltb (length haystack) (length needle)
    then false
    else any_window needle haystack

-- "libpython3", "python3" and "_asyncio.cpython-3"
abbrev pub python3_bytes : List ℕ
python3_bytes = 112 ∷ 121 ∷ 116 ∷ 104 ∷ 111 ∷ 110 ∷ 51 ∷ []

abbrev pub libpython3_bytes : List ℕ
libpython3_bytes = 108 ∷ 105 ∷ 98 ∷ python3_bytes

abbrev pub asyncio_bytes : List ℕ
asyncio_bytes =
    95 ∷ 97 ∷ 115 ∷ 121 ∷ 110 ∷ 99 ∷ 105 ∷ 111 ∷ 46 ∷ 99 ∷ 112 ∷ 121 ∷ 116 ∷ 104 ∷ 111 ∷ 110 ∷ 45
    ∷ 51 ∷ []

-- how the lines of a reader end: at the end of the file, or with an error
pub data Reader : Type 0 where
  eof : Reader
  fails : Reader
  line : List ℕ → Reader → Reader

abbrev pub binary : (List ℕ → String) → MapsLineFields → PythonBinary
binary lossy f = record { base = f.start; path = lossy f.path }

abbrev pub or_not_found : Option PythonBinary → Result PythonBinary
or_not_found none = err python_not_found
or_not_found (some b) = ok b

-- `find_python_in_maps_reader` with the candidate `python3`; a `libpython3` line ends the loop
unfoldable pub find_python : (List ℕ → String) → Option PythonBinary → Reader → Result PythonBinary
find_python lossy python3 eof = or_not_found python3
find_python lossy python3 fails = err python_not_found
find_python lossy python3 (line bytes reader) = elim (parse_maps_line bytes) [
  | none ↦ find_python lossy python3 reader
  | some f ↦
      let rest =
        find_python lossy
          (if not (is_some python3) && path_contains f.path python3_bytes
            then some (binary lossy f)
            else python3)
          reader in
      if path_contains f.path libpython3_bytes then ok (binary lossy f) else rest
]

unfoldable pub find_asyncio : (List ℕ → String) → Reader → Result PythonBinary
find_asyncio lossy eof = err python_not_found
find_asyncio lossy fails = err python_not_found
find_asyncio lossy (line bytes reader) =
    let rest = find_asyncio lossy reader in
    elim (parse_maps_line bytes) [
      | none ↦ rest
      | some f ↦ if path_contains f.path asyncio_bytes then ok (binary lossy f) else rest
    ]
