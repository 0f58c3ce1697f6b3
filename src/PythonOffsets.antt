-- ===== src/PythonOffsets.antt =====
-- kit/python_offsets/src/lib.rs: where CPython is loaded, which version it is, and its debug offsets.
-- The argument `read` stands for `kindasafe::u64`.
pub mod Maps
pub mod Symbols
pub mod Versions
pub mod Search
pub mod Lookup
use pyroscope_rs.Base.{
  ℕ, ◌+◌, ◌*◌, ◌/◌, ◌%◌, ◌^◌, String, Bool, true, false, not, ◌||◌, List, [], ◌∷◌, Option, none,
  some, length, take, drop, eqb, ltb, if◌then◌else◌,
}
use pyroscope_rs.Base.Bytes.{from_le_bytes}

pub data InitError : Type 0 where
  kindasafe_init_failed : InitError
  python_not_found : InitError
  symbol_not_found : String → InitError
  debug_offsets_mismatch : InitError
  unsupported_version : InitError
  elf_parse : InitError
  io : InitError

-- `Result<T, InitError>`
pub data Result (A : Type 0) : Type 0 where
  ok : A → Result A
  err : InitError → Result A

abbrev pub cookie : ℕ
cookie = 0x7970_6775_6265_6478

pub record PythonVersion : Type 0 where
  pub major : ℕ
  pub minor : ℕ
  pub micro : ℕ

-- shifts and masks as division and remainder
unfoldable pub parse_version : ℕ → PythonVersion
parse_version version_hex = record {
  major = version_hex / 2 ^ 24 % 256;
  minor = version_hex / 2 ^ 16 % 256;
  micro = version_hex / 2 ^ 8 % 256;
}

unfoldable pub check_version : PythonVersion → Result PythonVersion
check_version version =
    if not (eqb version.major 3) || not (eqb version.minor 14)
    then err unsupported_version
    else ok version

unfoldable pub detect_version : (ℕ → Option ℕ) → ℕ → Result PythonVersion
unfolding parse_version check_version
detect_version read addr = elim (read addr) [
  | none ↦ err unsupported_version
  | some raw ↦ check_version (parse_version (raw % 2 ^ 32))
]

unfoldable pub read_version_hex : (ℕ → Option ℕ) → ℕ → Result ℕ
read_version_hex read addr = elim (read addr) [
  | none ↦ err unsupported_version
  | some raw ↦ ok (raw % 2 ^ 32)
]

-- `parse_repr_c::<T>`: `size` is `size_of::<T>()`, and `layout` reads a `T` from its bytes
unfoldable pub parse_repr_c : {T : Type 0} → ℕ → (List ℕ → T) → List ℕ → ℕ → Result T
parse_repr_c size layout buf expected_version =
    if ltb (length buf) size
    then err debug_offsets_mismatch
    else if not (eqb (from_le_bytes (take 8 buf)) cookie)
    then err debug_offsets_mismatch
    else if not (eqb (from_le_bytes (take 8 (drop 8 buf))) expected_version)
    then err debug_offsets_mismatch
    else if not (eqb (from_le_bytes (take 8 (drop 16 buf))) 0)
    then err debug_offsets_mismatch
    else ok (layout (take size buf))

-- `slice` stands for `kindasafe::slice`: that many bytes from an address, or a fault
unfoldable pub read_debug_offsets :
    {T : Type 0} → ℕ → (List ℕ → T) → (ℕ → ℕ → Option (List ℕ)) → ℕ → PythonVersion → ℕ → Result T
unfolding parse_repr_c
read_debug_offsets size layout slice py_runtime_addr version version_hex =
    if eqb version.minor 14
    then elim (slice size py_runtime_addr) [
      | none ↦ err debug_offsets_mismatch
      | some buf ↦ parse_repr_c size layout buf version_hex
    ]
    else err unsupported_version
