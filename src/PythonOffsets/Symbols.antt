-- ===== src/PythonOffsets/Symbols.antt =====
-- The symbols of the ELF file (kit/python_offsets/src/lib.rs). The `object` crate gives the addresses of
-- the segments and, for each dynamic symbol, its name where it has a readable one, and its address.
use pyroscope_rs.Base.{
  ℕ, ◌+◌, ◌-◌, ◌%◌, ◌^◌, String, Bool, ◌&&◌, List, [], ◌∷◌, Option, none, some, ◌==◌, ltb,
  if◌then◌else◌, is_some,
}
use pyroscope_rs.Base.Equality.{string_eq}
use pyroscope_rs.PythonOffsets.{symbol_not_found, Result, ok, err}

pub record ElfSymbols : Type 0 where
  pub py_runtime_addr : ℕ
  pub py_version_addr : ℕ
  pub py_code_type_addr : ℕ
  pub get_tstate_addr : ℕ

-- the variables of the loop
pub record Found : Type 0 where
  pub py_runtime : Option ℕ
  pub py_version : Option ℕ
  pub py_code_type : Option ℕ
  pub get_tstate : Option ℕ

-- `.min().unwrap_or(0)`
unfoldable pub elf_base : List ℕ → ℕ
elf_base [] = 0
elf_base (a ∷ rest) = go a rest
  where
    go : ℕ → List ℕ → ℕ
    go m [] = m
    go m (b ∷ bs) = go (if ltb b m then b else m) bs

-- `mapped_base.wrapping_sub(elf_base)`
unfoldable pub load_bias : ℕ → ℕ → ℕ
load_bias mapped_base base = (mapped_base + (2 ^ 64 - base)) % 2 ^ 64

unfoldable pub absolute : ℕ → ℕ → ℕ
absolute bias address = (address + bias) % 2 ^ 64

abbrev pub complete : Found → Bool
complete f =
    is_some f.py_runtime && is_some f.py_version && is_some f.py_code_type && is_some f.get_tstate

-- the `match` of the loop
unfoldable pub note : ℕ → Option String × ℕ → Found → Found
unfolding absolute
note bias (none, address) f = f
note bias (some name, address) f =
    if name == "_PyRuntime"
    then record f { py_runtime = some (absolute bias address) }
    else if name == "Py_Version"
    then record f { py_version = some (absolute bias address) }
    else if name == "PyCode_Type"
    then record f { py_code_type = some (absolute bias address) }
    else if name == "_PyThreadState_GetCurrent"
    then record f { get_tstate = some (absolute bias address) }
    else f

unfoldable pub scan : ℕ → List (Option String × ℕ) → Found → Found
unfolding note
scan bias [] f = f
scan bias (s ∷ symbols) f =
    let f' = note bias s f in let rest = scan bias symbols f' in if complete f' then f' else rest

-- the chain of `ok_or`
unfoldable pub all_found : Found → Result ElfSymbols
all_found f = elim f.py_runtime [
  | none ↦ err (symbol_not_found "_PyRuntime")
  | some runtime ↦ elim f.py_version [
    | none ↦ err (symbol_not_found "Py_Version")
    | some version ↦ elim f.py_code_type [
      | none ↦ err (symbol_not_found "PyCode_Type")
      | some code_type ↦ elim f.get_tstate [
        | none ↦ err (symbol_not_found "_PyThreadState_GetCurrent")
        | some tstate ↦ ok (record {
          py_runtime_addr = runtime;
          py_version_addr = version;
          py_code_type_addr = code_type;
          get_tstate_addr = tstate;
        })
      ]
    ]
  ]
]

-- the part of `resolve_elf_symbols_from_bytes` after the parse of the file
unfoldable pub resolve_elf_symbols : List ℕ → List (Option String × ℕ) → ℕ → Result ElfSymbols
unfolding elf_base load_bias scan all_found
resolve_elf_symbols segments symbols mapped_base = all_found (
    scan (load_bias mapped_base (elf_base segments)) symbols
      (record { py_runtime = none; py_version = none; py_code_type = none; get_tstate = none }))

-- the loops that look for one name
abbrev pub address_of : String → List (Option String × ℕ) → Option ℕ
address_of name [] = none
address_of name ((none, address) ∷ symbols) = address_of name symbols
address_of name ((some other, address) ∷ symbols) =
    let rest = address_of name symbols in if other == name then some address else rest

-- the part of `resolve_asyncio_debug_symbol_from_bytes` after the parse of the file
unfoldable pub resolve_asyncio_debug_symbol :
    List ℕ
    → List (Option String × ℕ)
    → List (Option String × ℕ)
    → List (Option String × ℕ)
    → ℕ
    → Result ℕ
unfolding elf_base load_bias absolute
resolve_asyncio_debug_symbol segments dynamic_symbols symbols sections mapped_base =
    let bias = load_bias mapped_base (elf_base segments) in
    elim (address_of "_AsyncioDebug" dynamic_symbols) [
      | some address ↦ ok (absolute bias address)
      | none ↦ elim (address_of "_AsyncioDebug" symbols) [
        | some address ↦ ok (absolute bias address)
        | none ↦ elim (address_of ".AsyncioDebug" sections) [
          | some address ↦ ok (absolute bias address)
          | none ↦ err (symbol_not_found "_AsyncioDebug")
        ]
      ]
    ]
