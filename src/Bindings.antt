-- ===== src/Bindings.antt =====
-- pyroscope_ffi/python/rust/src/lib.rs: the tags that the Python package passes as one text. A text is the
-- list of its characters as numbers, and `none` is a panic.
pub mod Joined
use pyroscope_rs.Base.{ℕ, List, [], ◌∷◌, Option, none, some, eqb, if◌then◌else◌, option_bind}

abbrev pub comma : ℕ
comma = 44

abbrev pub equals : ℕ
equals = 61

-- a character ahead of the first part
abbrev pub put : ℕ → List (List ℕ) → List (List ℕ)
put c [] = (c ∷ []) ∷ []
put c (part ∷ parts) = (c ∷ part) ∷ parts

-- `str::split` at a character
unfoldable pub split : ℕ → List ℕ → List (List ℕ)
split sep [] = [] ∷ []
split sep (c ∷ cs) = let rest = split sep cs in if eqb c sep then [] ∷ rest else put c rest

-- the first two parts
abbrev pub first_two : List (List ℕ) → Option (List ℕ × List ℕ)
first_two [] = none
first_two (key ∷ []) = none
first_two (key ∷ value ∷ _) = some (key, value)

unfoldable pub push_tags : List (List ℕ) → Option (List (List ℕ × List ℕ))
unfolding split
push_tags [] = some []
push_tags (tag ∷ tags) =
    option_bind (first_two (split equals tag))
      λ pair. option_bind (push_tags tags) λ rest. some (pair ∷ rest)

unfoldable pub string_to_tags : List ℕ → Option (List (List ℕ × List ℕ))
unfolding push_tags split
string_to_tags [] = some []
string_to_tags (c ∷ cs) = push_tags (split comma (c ∷ cs))
