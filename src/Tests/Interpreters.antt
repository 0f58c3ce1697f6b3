-- ===== src/Tests/Interpreters.antt =====
-- Versions, headers and mappings of kit/python_offsets/src/lib.rs.
use pyroscope_rs.Base.{
  inl, inr, ℕ, ◌+◌, ◌*◌, ◌^◌, true, ◌≡◌, ◌≢◌, ◌↔◌, refl, String, List, [], ◌∷◌, ◌++◌, Option, none,
  some, arith, take, length, eqb, if◌then◌else◌,
}
use pyroscope_rs.Base.Bytes.{from_le_bytes, to_le_bytes}
use pyroscope_rs.PythonOffsets.{
  ok, err, unsupported_version, PythonVersion, detect_version, read_version_hex, read_debug_offsets,
}
use pyroscope_rs.PythonOffsets.Versions.{
  version_hex, detect_version-version_hex, HasHeader, read_debug_offsets_iff,
}
use pyroscope_rs.PythonOffsets.Maps.{
  split_at, splitn, digit, digits, from_str_radix, strip_prefix, trim_start, trim_with, parse_perms,
  parse_pair, parse_fields, parse_maps_line, python3_bytes, libpython3_bytes, asyncio_bytes, eof,
  line, find_python, find_asyncio, path_contains,
}
use pyroscope_rs.Base.Equality.{String-discrete}
use pyroscope_rs.PythonOffsets.Symbols.{address_of, resolve_elf_symbols}
use pyroscope_rs.PythonOffsets.Lookup.{
  HasDistinctNames, IsLowest, loaded, named, resolve_elf_symbols-loaded,
}
use pyroscope_rs.PythonOffsets.Search.{
  mappings, ends_badly, first_with, expected_binary, find_python-expected_binary, binary_of,
  find_asyncio-first_with, IsInfix, path_contains_iff,
}

program : Unit {0}
unfolding from_le_bytes to_le_bytes split_at splitn digit digits from_str_radix strip_prefix
    trim_start trim_with parse_perms parse_pair parse_fields parse_maps_line
program = tt

abbrev python_3_14_2 : PythonVersion
python_3_14_2 = record { major = 3; minor = 14; micro = 2 }

abbrev version_word : ℕ → Option ℕ
version_word addr = some (9 * 2 ^ 32 + version_hex python_3_14_2 240)

detect_version-version_hex_example :
    (detect_version version_word 4096
      ≡ (if eqb 14 14 then ok python_3_14_2 else err unsupported_version))
    × (read_version_hex version_word 4096 ≡ ok (version_hex python_3_14_2 240))
detect_version-version_hex_example =
    detect_version-version_hex version_word 4096 9 240 python_3_14_2 (omega arith) (omega arith)
      (omega arith) (omega arith) refl

-- 24 bytes: the cookie, the version, and a zero
abbrev header : List ℕ
header =
    120 ∷ 100 ∷ 101 ∷ 98 ∷ 117 ∷ 103 ∷ 112 ∷ 121 ∷ 240 ∷ 2 ∷ 14 ∷ 3 ∷ 0 ∷ 0 ∷ 0 ∷ 0 ∷ 0 ∷ 0 ∷ 0 ∷ 0
    ∷ 0 ∷ 0 ∷ 0 ∷ 0 ∷ []

abbrev give_header : ℕ → ℕ → Option (List ℕ)
give_header size addr = some header

read_debug_offsets_iff_example :
    (read_debug_offsets 24 length give_header 4096 python_3_14_2 0x030e_02f0 ≡ ok 24) ↔ (
      (buf : List ℕ) × (python_3_14_2.minor ≡ 14)
      × (give_header 24 4096 ≡ some buf)
      × HasHeader 24 buf 0x030e_02f0
      × (length (take 24 buf) ≡ 24))
read_debug_offsets_iff_example =
    read_debug_offsets_iff 24 length give_header 4096 python_3_14_2 0x030e_02f0 24

header-HasHeader : HasHeader 24 header 0x030e_02f0
unfolding program
header-HasHeader = record {
  long = omega arith;
  has_cookie = refl;
  has_version = refl;
  with_gil = refl;
}

-- "7f-8f r-xp 20 08:01 12 /python3\n"
abbrev python_line : List ℕ
python_line =
    55
    ∷ 102
    ∷ 45
    ∷ 56
    ∷ 102
    ∷ 32
    ∷ 114
    ∷ 45
    ∷ 120
    ∷ 112
    ∷ 32
    ∷ 50
    ∷ 48
    ∷ 32
    ∷ 48
    ∷ 56
    ∷ 58
    ∷ 48
    ∷ 49
    ∷ 32
    ∷ 49
    ∷ 50
    ∷ 32
    ∷ 47
    ∷ (python3_bytes ++ 10 ∷ [])

line_fields :
    parse_maps_line python_line
    ≡ some (record {
      start = 127;
      end = 143;
      flags = 5;
      offset = 32;
      dev_major = 8;
      dev_minor = 1;
      inode = 12;
      path = 47 ∷ python3_bytes;
    })
unfolding program
line_fields = refl

path_contains_iff_example :
    (path_contains (47 ∷ libpython3_bytes) python3_bytes ≡ true)
    ↔ ((python3_bytes ≢ []) × IsInfix python3_bytes (47 ∷ libpython3_bytes))
path_contains_iff_example = path_contains_iff (47 ∷ libpython3_bytes) python3_bytes

abbrev spelled : List ℕ → String
spelled bytes = "path"

find_python-expected_binary_example :
    find_python spelled none (line (1 ∷ []) (line python_line eof))
    ≡ expected_binary spelled none
        (first_with libpython3_bytes (mappings (line (1 ∷ []) (line python_line eof))))
        (first_with python3_bytes (mappings (line (1 ∷ []) (line python_line eof))))
        (ends_badly (line (1 ∷ []) (line python_line eof)))
find_python-expected_binary_example =
    find_python-expected_binary spelled (line (1 ∷ []) (line python_line eof))

find_asyncio-first_with_example :
    find_asyncio spelled (line python_line eof)
    ≡ binary_of spelled (first_with asyncio_bytes (mappings (line python_line eof)))
find_asyncio-first_with_example = find_asyncio-first_with spelled (line python_line eof)

abbrev symbols : List (Option String × ℕ)
symbols =
    (none, 0)
    ∷ (some "PyCode_Type", 300)
    ∷ (some "_PyThreadState_GetCurrent", 400)
    ∷ (some "_PyRuntime", 100)
    ∷ (some "Py_Version", 200)
    ∷ (some "PyList_Type", 500)
    ∷ []

symbols-HasDistinctNames : HasDistinctNames symbols
unfolding String-discrete
symbols-HasDistinctNames = (refl, (refl, (refl, (refl, (refl, tt)))))

abbrev segments : List ℕ
segments = 8192 ∷ 4096 ∷ []

segments-IsLowest : IsLowest 4096 segments
segments-IsLowest = (inr (inl refl), (omega arith, (omega arith, tt)))

resolve_elf_symbols-loaded_example :
    resolve_elf_symbols segments symbols 0x7f00_0000
    ≡ named
        (loaded 4096 0x7f00_0000 (address_of "_PyRuntime" symbols))
        (loaded 4096 0x7f00_0000 (address_of "Py_Version" symbols))
        (loaded 4096 0x7f00_0000 (address_of "PyCode_Type" symbols))
        (loaded 4096 0x7f00_0000 (address_of "_PyThreadState_GetCurrent" symbols))
resolve_elf_symbols-loaded_example =
    resolve_elf_symbols-loaded 4096 segments symbols 0x7f00_0000 segments-IsLowest (omega arith)
      symbols-HasDistinctNames
