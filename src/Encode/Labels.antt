-- ===== src/Encode/Labels.antt =====
-- The labels of a sample (src/encode/pprof.rs): the tags of the trace, and those of the report over them.
use pyroscope_rs.Base.{
  ℕ, ◌≡◌, refl, sym, ap, ◌∙◌, String, List, [], ◌∷◌, Option, some, map, arith, inl, inr, get_elem?,
  Extends, option_bind, option_bind-eq_some, Bool-cases, true, false, ◌==◌, ==_iff,
}
use pyroscope_rs.Base.Equality.{string_eq, nat_eq}
use pyroscope_rs.Base.Map
use pyroscope_rs.Base.Map.{Map}
use pyroscope_rs.Base.Index.{IsIndex-injective}
use pyroscope_rs.Backend.{Tag}
use pyroscope_rs.Encode.{Label, PProfBuilder, add_labels, label_of}
use pyroscope_rs.Encode.Tables.{IsBuilder, Step, Step-refl, Step-trans, add_string-Step}

-- the labels as texts
unfoldable pub labels_at : List String → List Label → Option (Map String String)
labels_at strings [] = some []
labels_at strings (l ∷ ls) = option_bind (get_elem? strings l.key) λ k.
    option_bind (get_elem? strings l.str)
      λ v. option_bind (labels_at strings ls) λ rest. some ((k, v) ∷ rest)

-- tags put over labels
unfoldable pub with_tags : Map String String → List Tag → Map String String
with_tags labels [] = labels
with_tags labels (t ∷ tags) = with_tags (Map.insert t.key t.value labels) tags

pub labels_at-Extends :
    (ss ts : List String) (ls : List Label) {m : Map String String}
    → Extends ss ts
    → labels_at ss ls ≡ some m
    → labels_at ts ls ≡ some m
unfolding labels_at
labels_at-Extends ss ts [] ext h = h
labels_at-Extends ss ts (l ∷ ls) ext h =
    let (k, at_k, h₁) = option_bind-eq_some (get_elem? ss l.key) _ h in
    let (v, at_v, h₂) = option_bind-eq_some (get_elem? ss l.str) _ h₁ in
    let (rest, at_rest, h₃) = option_bind-eq_some (labels_at ss ls) _ h₂ in
    rw (ext l.key k at_k, ext l.str v at_v, labels_at-Extends ss ts ls ext at_rest) h₃

keys_differ :
    (b : PProfBuilder) (k j : ℕ) (key js : String)
    → IsBuilder b
    → get_elem? b.profile.string_table k ≡ some key
    → get_elem? b.profile.string_table j ≡ some js
    → (k == j) ≡ false
    → (key == js) ≡ false
keys_differ b k j key js valid at_k at_j other = elim (Bool-cases (key == js)) [
  | inr differ ↦ differ
  | inl same ↦
      let p : k ≡ j =
        IsIndex-injective {V = String} (λ s. s) 0 valid.strings.valid k j key js at_k at_j
          ((==_iff key js).0 same) in
      absurd (ground (arith, other, (==_iff k j).1 p))
]

-- A label for a key replaces the one that is there, by the number of the key as by its text.
labels_at-insert :
    (b : PProfBuilder) (k v : ℕ) (key value : String) (labels : Map ℕ ℕ) {m : Map String String}
    → IsBuilder b
    → get_elem? b.profile.string_table k ≡ some key
    → get_elem? b.profile.string_table v ≡ some value
    → labels_at b.profile.string_table (map label_of labels) ≡ some m
    → labels_at b.profile.string_table (map label_of (Map.insert k v labels))
      ≡ some (Map.insert key value m)
unfolding labels_at Map.insert
labels_at-insert b k v key value [] {m} valid at_k at_v h =
    let e : [] ≡ m = ground (arith, h) in rw (at_k, at_v, ← e)
labels_at-insert b k v key value ((j, w) ∷ labels) {m} valid at_k at_v h =
    let strings = b.profile.string_table in
    let (js, at_j, h₁) = option_bind-eq_some (get_elem? strings j) _ h in
    let (ws, at_w, h₂) = option_bind-eq_some (get_elem? strings w) _ h₁ in
    let (rest, at_rest, h₃) = option_bind-eq_some (labels_at strings (map label_of labels)) _ h₂ in
    let e : (js, ws) ∷ rest ≡ m = ground (arith, h₃) in
    rw (← e) (elim (Bool-cases (k == j)) [
      | inl same ↦
          let p : k ≡ j = (==_iff k j).0 same in
          let q : some key ≡ some js = sym at_k ∙ ap (get_elem? strings) p ∙ at_j in
          let r : (key == js) ≡ true = (==_iff key js).1 (ground (arith, q)) in
          rw (same, r, at_j, at_v, at_rest)
      | inr other ↦
          let r : (key == js) ≡ false = keys_differ b k j key js valid at_k at_j other in
          rw (other, r, at_j, at_w, labels_at-insert b k v key value labels valid at_k at_v at_rest)
    ])

pub add_labels-Step :
    (b : PProfBuilder) (labels : Map ℕ ℕ) (tags : List Tag) (m : Map String String)
    → IsBuilder b
    → labels_at b.profile.string_table (map label_of labels) ≡ some m
    → (labels' : Map ℕ ℕ) × (b' : PProfBuilder) × (add_labels b labels tags ≡ some (labels', b'))
      × Step b b'
      × (labels_at b'.profile.string_table (map label_of labels') ≡ some (with_tags m tags))
unfolding add_labels with_tags
add_labels-Step b labels [] m v h = (labels, b, refl, Step-refl b v, h)
add_labels-Step b labels (t ∷ tags) m v h =
    let (k, b₁, run₁, s₁, at_k) = add_string-Step b t.key v in
    let (w, b₂, run₂, s₂, at_w) = add_string-Step b₁ t.value s₁.valid in
    let s = Step-trans s₁ s₂ in
    let inserted =
      labels_at-insert b₂ k w t.key t.value labels s₂.valid (s₂.grows.strings k t.key at_k) at_w (
        labels_at-Extends b.profile.string_table b₂.profile.string_table (map label_of labels)
          s.grows.strings h) in
    let (all, b₃, run₃, s₃, done) =
      add_labels-Step b₂ (Map.insert k w labels) tags (Map.insert t.key t.value m) s₂.valid
        inserted in
    (all, b₃, rw (run₁, run₂) run₃, Step-trans s s₃, done)
