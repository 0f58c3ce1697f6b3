-- ===== src/PythonOffsets/Lookup.antt =====
-- What the loop over the dynamic symbols finds (kit/python_offsets/src/lib.rs).
use pyroscope_rs.Base.{
  ℕ, ◌⊎◌, ◌+◌, ◌-◌, ◌%◌, ◌^◌, ◌≤◌, ◌<◌, All, ltb, ltb→lt, ltb→le, ◌≡◌, refl, sym, ap, ◌∙◌, String,
  true, false, List, [], ◌∷◌, Option, none, some, ◌==◌, ==_iff, arith, is_some, Bool-cases, inl,
  inr,
}
use pyroscope_rs.Base.Equality.{string_eq, String-discrete}
use pyroscope_rs.PythonOffsets.{Result, ok, err, symbol_not_found}
use pyroscope_rs.PythonOffsets.Symbols.{
  ElfSymbols, Found, elf_base, load_bias, absolute, complete, note, scan, all_found,
  resolve_elf_symbols, address_of,
}

-- No name stands twice.
abbrev pub HasDistinctNames : List (Option String × ℕ) → Type 0
HasDistinctNames [] = Unit
HasDistinctNames ((none, address) ∷ symbols) = HasDistinctNames symbols
HasDistinctNames ((some name, address) ∷ symbols) =
    (address_of name symbols ≡ none) × HasDistinctNames symbols

abbrev pub or_at : ℕ → Option ℕ → Option ℕ → Option ℕ
or_at bias (some a) later = some a
or_at bias none none = none
or_at bias none (some address) = some (absolute bias address)

-- what is known, completed from the symbols
abbrev merged : ℕ → List (Option String × ℕ) → Found → Found
merged bias symbols f = record {
  py_runtime = or_at bias f.py_runtime (address_of "_PyRuntime" symbols);
  py_version = or_at bias f.py_version (address_of "Py_Version" symbols);
  py_code_type = or_at bias f.py_code_type (address_of "PyCode_Type" symbols);
  get_tstate = or_at bias f.get_tstate (address_of "_PyThreadState_GetCurrent" symbols);
}

-- What is known does not stand in the symbols to come.
record IsAhead (f : Found) (symbols : List (Option String × ℕ)) : Type 0 where
  runtime : is_some f.py_runtime ≡ true → address_of "_PyRuntime" symbols ≡ none
  version : is_some f.py_version ≡ true → address_of "Py_Version" symbols ≡ none
  code_type : is_some f.py_code_type ≡ true → address_of "PyCode_Type" symbols ≡ none
  tstate : is_some f.get_tstate ≡ true → address_of "_PyThreadState_GetCurrent" symbols ≡ none

Found_path :
    {f g : Found}
    → f.py_runtime ≡ g.py_runtime
    → f.py_version ≡ g.py_version
    → f.py_code_type ≡ g.py_code_type
    → f.get_tstate ≡ g.get_tstate
    → f ≡ g
Found_path p q r t =
    λ i. record { py_runtime = p i; py_version = q i; py_code_type = r i; get_tstate = t i }

or_at_known : (bias : ℕ) (a later : Option ℕ) → is_some a ≡ true → or_at bias a later ≡ a
or_at_known bias none later h = absurd (ground (arith, h))
or_at_known bias (some a) later h = refl

merged_complete :
    (bias : ℕ) (symbols : List (Option String × ℕ)) (f : Found)
    → complete f ≡ true
    → merged bias symbols f ≡ f
merged_complete bias symbols f h =
    Found_path (or_at_known bias f.py_runtime _ (ground (arith, h)))
      (or_at_known bias f.py_version _ (ground (arith, h)))
      (or_at_known bias f.py_code_type _ (ground (arith, h)))
      (or_at_known bias f.get_tstate _ (ground (arith, h)))

-- a name is one of two different ones at most
only_one : (name p q : String) → (p == q) ≡ false → (name == p) ≡ true → (name == q) ≡ false
only_one name p q apart here = rw ((==_iff name p).0 here) apart

note-merged :
    (bias a : ℕ) (name : String) (symbols : List (Option String × ℕ)) (f : Found)
    → IsAhead f ((some name, a) ∷ symbols)
    → merged bias symbols (note bias (some name, a) f) ≡ merged bias ((some name, a) ∷ symbols) f
unfolding note String-discrete
note-merged bias a name symbols f ahead = elim (Bool-cases (name == "_PyRuntime")) [
  | inl r ↦
      let v = only_one name "_PyRuntime" "Py_Version" refl r in
      let c = only_one name "_PyRuntime" "PyCode_Type" refl r in
      let t = only_one name "_PyRuntime" "_PyThreadState_GetCurrent" refl r in
      rw (r, v, c, t) (Found_path (hit "_PyRuntime" f.py_runtime ahead.runtime r) refl refl refl)
  | inr nr ↦ elim (Bool-cases (name == "Py_Version")) [
    | inl v ↦
        let c = only_one name "Py_Version" "PyCode_Type" refl v in
        let t = only_one name "Py_Version" "_PyThreadState_GetCurrent" refl v in
        rw (nr, v, c, t) (Found_path refl (hit "Py_Version" f.py_version ahead.version v) refl refl)
    | inr nv ↦ elim (Bool-cases (name == "PyCode_Type")) [
      | inl c ↦
          let t = only_one name "PyCode_Type" "_PyThreadState_GetCurrent" refl c in
          rw (nr, nv, c, t)
            (Found_path refl refl (hit "PyCode_Type" f.py_code_type ahead.code_type c) refl)
      | inr nc ↦ elim (Bool-cases (name == "_PyThreadState_GetCurrent")) [
        | inl t ↦
            rw (nr, nv, nc, t)
              (Found_path refl refl refl
                (hit "_PyThreadState_GetCurrent" f.get_tstate ahead.tstate t))
        | inr nt ↦ rw (nr, nv, nc, nt)
      ]
    ]
  ]
]
  where
    hit :
        (key : String) (known : Option ℕ)
        → (is_some known ≡ true → address_of key ((some name, a) ∷ symbols) ≡ none)
        → (name == key) ≡ true
        → some (absolute bias a) ≡ or_at bias known (some a)
    hit key none ahead here = refl
    hit key (some k) ahead here = absurd (ground (arith, here, ahead refl))

-- after a symbol is noted, what is known still does not come again
note-IsAhead :
    (bias a : ℕ) (name : String) (symbols : List (Option String × ℕ)) (f : Found)
    → address_of name symbols ≡ none
    → IsAhead f ((some name, a) ∷ symbols)
    → IsAhead (note bias (some name, a) f) symbols
unfolding note String-discrete
note-IsAhead bias a name symbols f fresh ahead = record {
  runtime = λ h. ground (arith, h, gone "_PyRuntime", ahead.runtime);
  version = λ h. ground (arith, h, gone "Py_Version", ahead.version);
  code_type = λ h. ground (arith, h, gone "PyCode_Type", ahead.code_type);
  tstate = λ h. ground (arith, h, gone "_PyThreadState_GetCurrent", ahead.tstate);
}
  where
    gone : (key : String) → (name == key) ≡ true → address_of key symbols ≡ none
    gone key here = rw (← (==_iff name key).0 here) fresh

or_at-none : (bias : ℕ) (a : Option ℕ) → a ≡ or_at bias a none
or_at-none bias none = refl
or_at-none bias (some a) = refl

scan-merged :
    (bias : ℕ) (symbols : List (Option String × ℕ)) (f : Found)
    → HasDistinctNames symbols
    → IsAhead f symbols
    → scan bias symbols f ≡ merged bias symbols f
unfolding scan
scan-merged bias [] f distinct ahead =
    Found_path (or_at-none bias f.py_runtime) (or_at-none bias f.py_version)
      (or_at-none bias f.py_code_type) (or_at-none bias f.get_tstate)
scan-merged bias ((none, a) ∷ symbols) f distinct ahead =
    let later : IsAhead f symbols = record {
      runtime = ahead.runtime;
      version = ahead.version;
      code_type = ahead.code_type;
      tstate = ahead.tstate;
    } in
    elim (Bool-cases (complete f)) [
      | inl done ↦ rw done (sym (merged_complete bias symbols f done))
      | inr more ↦ rw more (scan-merged bias symbols f distinct later)
    ]
scan-merged bias ((some name, a) ∷ symbols) f (fresh, distinct) ahead =
    let f' = note bias (some name, a) f in
    let rest =
      scan-merged bias symbols f' distinct (note-IsAhead bias a name symbols f fresh ahead) in
    let e = note-merged bias a name symbols f ahead in
    elim (Bool-cases (complete f')) [
      | inl done ↦ rw done (sym (merged_complete bias symbols f' done) ∙ e)
      | inr more ↦ rw more (rest ∙ e)
    ]

-- One of some addresses.
abbrev pub IsAmong : ℕ → List ℕ → Type 0
IsAmong base [] = ⊥
IsAmong base (a ∷ rest) = (base ≡ a) ⊎ IsAmong base rest

-- The lowest of some addresses, or 0 if there is none.
abbrev pub IsLowest : ℕ → List ℕ → Type 0
IsLowest base [] = base ≡ 0
IsLowest base (a ∷ rest) = IsAmong base (a ∷ rest) × All (λ b. base ≤ b) (a ∷ rest)

-- the address of a symbol in memory, where the file's lowest segment is mapped at `mapped_base`
abbrev pub loaded : ℕ → ℕ → Option ℕ → Option ℕ
loaded base mapped_base none = none
loaded base mapped_base (some address) = some ((address + mapped_base + (2 ^ 64 - base)) % 2 ^ 64)

-- The addresses of the four symbols in the order in which they are asked for, or the first that is missing.
abbrev pub named : Option ℕ → Option ℕ → Option ℕ → Option ℕ → Result ElfSymbols
named none version code_type tstate = err (symbol_not_found "_PyRuntime")
named (some runtime) none code_type tstate = err (symbol_not_found "Py_Version")
named (some runtime) (some version) none tstate = err (symbol_not_found "PyCode_Type")
named (some runtime) (some version) (some code_type) none =
    err (symbol_not_found "_PyThreadState_GetCurrent")
named (some runtime) (some version) (some code_type) (some tstate) = ok (record {
  py_runtime_addr = runtime;
  py_version_addr = version;
  py_code_type_addr = code_type;
  get_tstate_addr = tstate;
})

all_found-named :
    (runtime version code_type tstate : Option ℕ)
    → all_found (record {
      py_runtime = runtime;
      py_version = version;
      py_code_type = code_type;
      get_tstate = tstate;
    })
      ≡ named runtime version code_type tstate
unfolding all_found
all_found-named none version code_type tstate = refl
all_found-named (some r) none code_type tstate = refl
all_found-named (some r) (some v) none tstate = refl
all_found-named (some r) (some v) (some c) none = refl
all_found-named (some r) (some v) (some c) (some t) = refl

elf_base-lowest :
    (base a : ℕ) (rest : List ℕ)
    → IsAmong base (a ∷ rest)
    → All (λ b. base ≤ b) (a ∷ rest)
    → elf_base (a ∷ rest) ≡ base
unfolding elf_base
elf_base-lowest base a [] (inl here) low = sym here
elf_base-lowest base a [] (inr there) low = absurd there
elf_base-lowest base a (b ∷ rest) among low = elim (Bool-cases (ltb b a)) [
  | inl less ↦ rw less (elf_base-lowest base b rest (second (ltb→lt b a less) among) low.1)
  | inr more ↦
      rw more (elf_base-lowest base a rest (first (ltb→le b a more) among) (low.0, low.1.1))
]
  where
    second : b < a → IsAmong base (a ∷ b ∷ rest) → IsAmong base (b ∷ rest)
    second less (inl here) = absurd (omega (arith, low.1.0, here, less))
    second less (inr there) = there

    first : a ≤ b → IsAmong base (a ∷ b ∷ rest) → IsAmong base (a ∷ rest)
    first more (inl here) = inl here
    first more (inr (inl here)) = inl (omega (arith, low.0, here, more))
    first more (inr (inr there)) = inr there

elf_base-IsLowest :
    (base : ℕ) (segments : List ℕ) → IsLowest base segments → elf_base segments ≡ base
unfolding elf_base
elf_base-IsLowest base [] low = sym low
elf_base-IsLowest base (a ∷ rest) (among, low) = elf_base-lowest base a rest among low

or_at-loaded :
    (base mapped_base : ℕ) (address : Option ℕ)
    → base < 2 ^ 64
    → or_at (load_bias mapped_base base) none address ≡ loaded base mapped_base address
unfolding load_bias absolute
or_at-loaded base mapped_base none small = refl
or_at-loaded base mapped_base (some address) small = ap some (omega arith)

-- In a table of dynamic symbols where no name stands twice, the order of the symbols and the early end of
-- the loop do not matter. With the lowest address of a segment, or 0 if there is none: the address of
-- each of the four symbols is its address in the file plus the address that the file is mapped at minus that
-- lowest address, modulo 2 ^ 64; the first of _PyRuntime, Py_Version, PyCode_Type and
-- _PyThreadState_GetCurrent that is missing is the error. Addresses of segments have 64 bits.
pub resolve_elf_symbols-loaded :
    (base : ℕ) (segments : List ℕ) (symbols : List (Option String × ℕ)) (mapped_base : ℕ)
    → IsLowest base segments
    → base < 2 ^ 64
    → HasDistinctNames symbols
    → resolve_elf_symbols segments symbols mapped_base
      ≡ named
          (loaded base mapped_base (address_of "_PyRuntime" symbols))
          (loaded base mapped_base (address_of "Py_Version" symbols))
          (loaded base mapped_base (address_of "PyCode_Type" symbols))
          (loaded base mapped_base (address_of "_PyThreadState_GetCurrent" symbols))
unfolding resolve_elf_symbols
resolve_elf_symbols-loaded base segments symbols mapped_base low small distinct =
    let nothing : Found = record {
      py_runtime = none;
      py_version = none;
      py_code_type = none;
      get_tstate = none;
    } in
    let at : (name : String)
        → or_at (load_bias mapped_base base) none (address_of name symbols)
          ≡ loaded base mapped_base (address_of name symbols) =
      λ name. or_at-loaded base mapped_base (address_of name symbols) small in
    ap (λ x. all_found (scan (load_bias mapped_base x) symbols nothing))
      (elf_base-IsLowest base segments low)
    ∙ ap all_found (
        scan-merged (load_bias mapped_base base) symbols nothing distinct (record {
          runtime = λ h. absurd (ground (arith, h));
          version = λ h. absurd (ground (arith, h));
          code_type = λ h. absurd (ground (arith, h));
          tstate = λ h. absurd (ground (arith, h));
        }))
    ∙ ap all_found (
        Found_path (at "_PyRuntime") (at "Py_Version") (at "PyCode_Type")
          (at "_PyThreadState_GetCurrent"))
    ∙ all_found-named (loaded base mapped_base (address_of "_PyRuntime" symbols))
        (loaded base mapped_base (address_of "Py_Version" symbols))
        (loaded base mapped_base (address_of "PyCode_Type" symbols))
        (loaded base mapped_base (address_of "_PyThreadState_GetCurrent" symbols))
