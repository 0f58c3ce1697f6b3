-- ===== src/PythonOffsets/Search.antt =====
-- The search of /proc/self/maps for the interpreter (kit/python_offsets/src/lib.rs).
use pyroscope_rs.Base.{
  ℕ, ◌≡◌, ◌≢◌, ◌↔◌, refl, ap, ◌∙◌, String, Bool, true, false, not, ◌&&◌, List, [], ◌∷◌, ◌++◌,
  Option, none, some, arith, length, if◌then◌else◌, is_some, Bool-cases, Option-cases, inl, inr,
  length-append,
}
use pyroscope_rs.PythonOffsets.{python_not_found, Result, ok, err}
use pyroscope_rs.PythonOffsets.Maps.{
  PythonBinary, MapsLineFields, parse_maps_line, strip_prefix, any_window, path_contains,
  libpython3_bytes, python3_bytes, asyncio_bytes, Reader, eof, fails, line, binary, find_python,
  find_asyncio,
}

-- the needle stands somewhere in the haystack
abbrev pub IsInfix : List ℕ → List ℕ → Type 0
IsInfix needle haystack =
    (before : List ℕ) × (behind : List ℕ) × (haystack ≡ before ++ (needle ++ behind))

strip_prefix-some : (ps cs behind : List ℕ) → strip_prefix ps cs ≡ some behind → cs ≡ ps ++ behind
unfolding strip_prefix
strip_prefix-some [] cs behind h = ground (arith, h)
strip_prefix-some (p ∷ ps) [] behind h = cc
strip_prefix-some (p ∷ ps) (c ∷ cs) behind h = ground (arith, h, strip_prefix-some ps cs behind)

strip_prefix-append : (ps behind : List ℕ) → strip_prefix ps (ps ++ behind) ≡ some behind
unfolding strip_prefix
strip_prefix-append [] behind = refl
strip_prefix-append (p ∷ ps) behind = ground (arith, strip_prefix-append ps behind)

any_window-here :
    (needle cs : List ℕ) → is_some (strip_prefix needle cs) ≡ true → any_window needle cs ≡ true
unfolding any_window
any_window-here needle [] h = h
any_window-here needle (c ∷ cs) h = rw h

here-IsInfix : (needle cs : List ℕ) → is_some (strip_prefix needle cs) ≡ true → IsInfix needle cs
here-IsInfix needle cs h = elim (Option-cases (strip_prefix needle cs)) [
  | inl e ↦ absurd (ground (arith, rw e at h))
  | inr (behind, e) ↦ ([], behind, strip_prefix-some needle cs behind e)
]

any_window-IsInfix :
    (needle haystack : List ℕ) → any_window needle haystack ≡ true → IsInfix needle haystack
unfolding any_window
any_window-IsInfix needle [] h = here-IsInfix needle [] h
any_window-IsInfix needle (c ∷ cs) h = elim (Bool-cases (is_some (strip_prefix needle (c ∷ cs)))) [
  | inl here ↦ here-IsInfix needle (c ∷ cs) here
  | inr there ↦
      let (before, behind, e) = any_window-IsInfix needle cs (ground (arith, there, h)) in
      (c ∷ before, behind, ap (◌∷◌ c) e)
]

any_window-append :
    (needle before behind : List ℕ) → any_window needle (before ++ (needle ++ behind)) ≡ true
unfolding any_window
any_window-append needle [] behind =
    any_window-here needle (needle ++ behind) (ap is_some (strip_prefix-append needle behind))
any_window-append needle (c ∷ before) behind =
    ground (arith, any_window-append needle before behind)

-- `path_contains` tells whether a needle that is not empty stands somewhere in the haystack.
pub path_contains_iff :
    (haystack needle : List ℕ)
    → (path_contains haystack needle ≡ true) ↔ ((needle ≢ []) × IsInfix needle haystack)
unfolding path_contains
path_contains_iff haystack needle = (
  λ h. (λ e. ground (arith, rw e at h), any_window-IsInfix needle haystack (ground (arith, h))),
  λ (nonempty, (before, behind, e)).
      let long : length needle ≢ 0 = λ z. nonempty (empty_of needle z) in
      rw e (
        ground (
          arith,
          long,
          any_window-append needle before behind,
          length-append before (needle ++ behind),
          length-append needle behind,
        )),
)
  where
    empty_of : (xs : List ℕ) → length xs ≡ 0 → xs ≡ []
    empty_of [] z = refl
    empty_of (x ∷ xs) z = absurd (omega arith)

-- the mappings that the lines of a reader describe, up to its end
unfoldable pub mappings : Reader → List MapsLineFields
mappings eof = []
mappings fails = []
mappings (line bytes reader) = elim (parse_maps_line bytes) [
  | none ↦ mappings reader
  | some f ↦ f ∷ mappings reader
]

abbrev pub ends_badly : Reader → Bool
ends_badly eof = false
ends_badly fails = true
ends_badly (line bytes reader) = ends_badly reader

abbrev pub first_with : List ℕ → List MapsLineFields → Option MapsLineFields
first_with needle [] = none
first_with needle (f ∷ fs) =
    let rest = first_with needle fs in if path_contains f.path needle then some f else rest

-- The interpreter among some mappings: the first `libpython3`; without one, and if the lines could be
-- read to the end, the candidate or the first `python3`.
abbrev pub expected_binary :
    (List ℕ → String)
    → Option PythonBinary
    → Option MapsLineFields
    → Option MapsLineFields
    → Bool
    → Result PythonBinary
expected_binary lossy candidate (some lib) python3 bad = ok (binary lossy lib)
expected_binary lossy candidate none python3 true = err python_not_found
expected_binary lossy (some c) none python3 false = ok c
expected_binary lossy none none none false = err python_not_found
expected_binary lossy none none (some f) false = ok (binary lossy f)

ignores_python3 :
    (lossy : List ℕ → String) (c : PythonBinary) (lib p q : Option MapsLineFields) (bad : Bool)
    → expected_binary lossy (some c) lib p bad ≡ expected_binary lossy (some c) lib q bad
ignores_python3 lossy c (some l) p q bad = refl
ignores_python3 lossy c none p q true = refl
ignores_python3 lossy c none p q false = refl

takes_python3 :
    (lossy : List ℕ → String) (f : MapsLineFields) (lib p : Option MapsLineFields) (bad : Bool)
    → expected_binary lossy (some (binary lossy f)) lib p bad
      ≡ expected_binary lossy none lib (some f) bad
takes_python3 lossy f (some l) p bad = refl
takes_python3 lossy f none p true = refl
takes_python3 lossy f none p false = refl

-- a mapping that is no `libpython3`
python3_step :
    (lossy : List ℕ → String) (reader : Reader) (candidate : Option PythonBinary)
    (f : MapsLineFields)
    → ((c : Option PythonBinary)
        → find_python lossy c reader
          ≡ expected_binary lossy c
              (first_with libpython3_bytes (mappings reader))
              (first_with python3_bytes (mappings reader))
              (ends_badly reader))
    → find_python lossy
        (if not (is_some candidate) && path_contains f.path python3_bytes
          then some (binary lossy f)
          else candidate)
        reader
      ≡ expected_binary lossy candidate
          (first_with libpython3_bytes (mappings reader))
          (if path_contains f.path python3_bytes
            then some f
            else first_with python3_bytes (mappings reader))
          (ends_badly reader)
python3_step lossy reader (some c) f rest = rest (some c) ∙ ignores_python3 lossy c _ _ _ _
python3_step lossy reader none f rest = elim (Bool-cases (path_contains f.path python3_bytes)) [
  | inl python ↦ rw python (rest (some (binary lossy f)) ∙ takes_python3 lossy f _ _ _)
  | inr other ↦ rw other (rest none)
]

find_python-candidate :
    (lossy : List ℕ → String) (candidate : Option PythonBinary) (reader : Reader)
    → find_python lossy candidate reader
      ≡ expected_binary lossy candidate
          (first_with libpython3_bytes (mappings reader))
          (first_with python3_bytes (mappings reader))
          (ends_badly reader)
unfolding find_python mappings
find_python-candidate lossy none eof = refl
find_python-candidate lossy (some c) eof = refl
find_python-candidate lossy none fails = refl
find_python-candidate lossy (some c) fails = refl
find_python-candidate lossy candidate (line bytes reader) =
    elim (Option-cases (parse_maps_line bytes)) [
      | inl e ↦ rw (e, find_python, mappings) (find_python-candidate lossy candidate reader)
      | inr (f, e) ↦
          rw (e, find_python, mappings)
            (elim (Bool-cases (path_contains f.path libpython3_bytes)) [
              | inl lib ↦ rw lib
              | inr other ↦ rw other (
                  python3_step lossy reader candidate f (λ c. find_python-candidate lossy c reader))
            ])
    ]

-- The first `libpython3` mapping is the interpreter, even behind a `python3`; without one, and if the
-- lines could be read to the end, the first `python3` is; otherwise none is found.
pub find_python-expected_binary :
    (lossy : List ℕ → String) (reader : Reader)
    → find_python lossy none reader
      ≡ expected_binary lossy none
          (first_with libpython3_bytes (mappings reader))
          (first_with python3_bytes (mappings reader))
          (ends_badly reader)
find_python-expected_binary lossy reader = find_python-candidate lossy none reader

abbrev pub binary_of : (List ℕ → String) → Option MapsLineFields → Result PythonBinary
binary_of lossy none = err python_not_found
binary_of lossy (some f) = ok (binary lossy f)

-- `find_asyncio` gives the first mapping of the `_asyncio` module among those read, or an error.
pub find_asyncio-first_with :
    (lossy : List ℕ → String) (reader : Reader)
    → find_asyncio lossy reader ≡ binary_of lossy (first_with asyncio_bytes (mappings reader))
unfolding find_asyncio mappings
find_asyncio-first_with lossy eof = refl
find_asyncio-first_with lossy fails = refl
find_asyncio-first_with lossy (line bytes reader) = elim (Option-cases (parse_maps_line bytes)) [
  | inl e ↦ rw (e, find_asyncio, mappings) (find_asyncio-first_with lossy reader)
  | inr (f, e) ↦
      rw (e, find_asyncio, mappings)
        (elim (Bool-cases (path_contains f.path asyncio_bytes)) [
          | inl here ↦ rw here
          | inr there ↦ rw there (find_asyncio-first_with lossy reader)
        ])
]
