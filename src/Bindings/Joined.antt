-- ===== src/Bindings/Joined.antt =====
-- The tags of a text by its parts (pyroscope_ffi/python/rust/src/lib.rs).
use pyroscope_rs.Base.{
  ℕ, ◌≡◌, ◌≢◌, refl, ap, ◌∙◌, List, [], ◌∷◌, ◌++◌, Option, none, some, option_bind, All, map, arith,
}
use pyroscope_rs.Bindings.{comma, equals, split, push_tags, string_to_tags}

-- The parts with a character between them; there is one part at least.
abbrev pub join : ℕ → List ℕ → List (List ℕ) → List ℕ
join sep part [] = part
join sep part (next ∷ parts) = part ++ sep ∷ join sep next parts

abbrev pub IsFreeOf : ℕ → List ℕ → Type 0
IsFreeOf sep = All (λ c. c ≢ sep)

split-append :
    (sep : ℕ) (part rest : List ℕ)
    → IsFreeOf sep part
    → split sep (part ++ sep ∷ rest) ≡ part ∷ split sep rest
unfolding split
split-append sep [] rest free = ground arith
split-append sep (c ∷ part) rest free = ground (arith, split-append sep part rest)

split_whole : (sep : ℕ) (part : List ℕ) → IsFreeOf sep part → split sep part ≡ part ∷ []
unfolding split
split_whole sep [] free = refl
split_whole sep (c ∷ part) free = ground (arith, split_whole sep part)

split-join :
    (sep : ℕ) (part : List ℕ) (parts : List (List ℕ))
    → IsFreeOf sep part
    → All (IsFreeOf sep) parts
    → split sep (join sep part parts) ≡ part ∷ parts
split-join sep part [] free all = split_whole sep part free
split-join sep part (next ∷ parts) free all =
    split-append sep part (join sep next parts) free
    ∙ ap (λ xs. part ∷ xs) (split-join sep next parts all.0 all.1)

-- A tag by the parts of its text: the key, and what follows it at each equals sign.
abbrev pub Parts : Type 0
Parts = List ℕ × List (List ℕ)

abbrev pub text_of : Parts → List ℕ
text_of p = join equals p.0 p.1

-- The parts hold neither of the two separators.
abbrev pub IsPlain : Parts → Type 0
IsPlain p =
    IsFreeOf equals p.0 × All (IsFreeOf equals) p.1 × IsFreeOf comma p.0 × All (IsFreeOf comma) p.1

-- The tags of the parts: a tag needs a value, and what follows a second equals sign is dropped.
abbrev pub tags_of : List Parts → Option (List (List ℕ × List ℕ))
tags_of [] = some []
tags_of ((key, []) ∷ rest) = none
tags_of ((key, value ∷ _) ∷ rest) = option_bind (tags_of rest) λ tags. some ((key, value) ∷ tags)

join-IsFreeOf :
    (part : List ℕ) (parts : List (List ℕ))
    → IsFreeOf comma part
    → All (IsFreeOf comma) parts
    → IsFreeOf comma (join equals part parts)
join-IsFreeOf part [] free all = free
join-IsFreeOf [] (next ∷ parts) free all =
    (λ e. absurd (omega (arith, e)), join-IsFreeOf next parts all.0 all.1)
join-IsFreeOf (c ∷ part) (next ∷ parts) free all =
    (free.0, join-IsFreeOf part (next ∷ parts) free.1 all)

texts-IsFreeOf : (ps : List Parts) → All IsPlain ps → All (IsFreeOf comma) (map text_of ps)
texts-IsFreeOf [] h = tt
texts-IsFreeOf ((key, parts) ∷ ps) h = (join-IsFreeOf key parts h.0.2 h.0.3, texts-IsFreeOf ps h.1)

push_tags-texts : (ps : List Parts) → All IsPlain ps → push_tags (map text_of ps) ≡ tags_of ps
unfolding push_tags
push_tags-texts [] h = refl
push_tags-texts ((key, []) ∷ ps) h = rw (split-join equals key [] h.0.0 tt) refl
push_tags-texts ((key, value ∷ parts) ∷ ps) h =
    rw (split-join equals key (value ∷ parts) h.0.0 h.0.1, push_tags-texts ps h.1) refl

string_to_tags_some :
    (text : List ℕ) → text ≢ [] → string_to_tags text ≡ push_tags (split comma text)
unfolding string_to_tags
string_to_tags_some [] h = absurd (h refl)
string_to_tags_some (c ∷ cs) h = refl

-- The text of some tags, each of which is a key and the parts behind it, with an equals sign ahead of each
-- part and a comma between two tags; keys and parts hold neither of the two, and the text is not empty.
-- It gives the pairs of the keys and their first parts, and it panics if a tag has a key only: what stands behind
-- a second equals sign is dropped.
pub string_to_tags-tags_of :
    (p : Parts) (ps : List Parts)
    → All IsPlain (p ∷ ps)
    → join comma (text_of p) (map text_of ps) ≢ []
    → string_to_tags (join comma (text_of p) (map text_of ps)) ≡ tags_of (p ∷ ps)
string_to_tags-tags_of p ps h filled =
    let free = texts-IsFreeOf (p ∷ ps) h in
    string_to_tags_some (join comma (text_of p) (map text_of ps)) filled
    ∙ ap push_tags (split-join comma (text_of p) (map text_of ps) free.0 free.1)
    ∙ push_tags-texts (p ∷ ps) h
