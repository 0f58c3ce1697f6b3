-- ===== src/Backend/TagRules.antt =====
-- The tags that the rules of a thread add (src/backend/ruleset.rs).
use Prim.Native.Nat.{Ordering}
use Prim.Native.String.{compare}
use text.Mathlib.TextEquality.{path_by_compare}
use pyroscope_rs.Base.{
  ℕ, ◌≡◌, refl, sym, ap, ◌∙◌, Bool, true, false, ◌||◌, List, [], ◌∷◌, ◌++◌, Option, none, some,
  arith, ◌==◌, ==_iff, if◌then◌else◌, Bool-cases, inl, inr, ◌⊎◌, ◌≢◌, not, ◌&&◌, ==_refl,
}
use pyroscope_rs.Base.Equality.{nat_eq}
use pyroscope_rs.Backend.{
  Tag, tag_eq, Metadata, StackTrace, compare_tags, insert_tag, add_tag, ThreadTag, thread_tag_eq,
  Rules, contains, add, without, remove, apply_rules, add_tag_rules,
}

Ordering-cases : (o : Ordering) → (o ≡ Ordering.lt) ⊎ ((o ≡ Ordering.eq) ⊎ (o ≡ Ordering.gt))
Ordering-cases Ordering.lt = inl refl
Ordering-cases Ordering.eq = inr (inl refl)
Ordering-cases Ordering.gt = inr (inr refl)

Tag_path : {a b : Tag} → a.key ≡ b.key → a.value ≡ b.value → a ≡ b
Tag_path p q = λ i. record { key = p i; value = q i }

compare_tags-eq : (a b : Tag) → compare_tags a b ≡ Ordering.eq → a ≡ b
unfolding compare_tags
compare_tags-eq a b h = elim (Ordering-cases (compare a.key b.key)) [
  | inl less ↦ ground (arith, rw (less, compare_tags) at h)
  | inr (inl same) ↦
      Tag_path (path_by_compare a.key b.key same)
        (path_by_compare a.value b.value (rw (same, compare_tags) at h))
  | inr (inr more) ↦ ground (arith, rw (more, compare_tags) at h)
]

contains-insert_tag :
    (g t : Tag) (us : List Tag)
    → contains g (insert_tag t us) ≡ (if g == t then true else contains g us)
unfolding insert_tag
contains-insert_tag g t [] = refl
contains-insert_tag g t (u ∷ us) = elim (Ordering-cases (compare_tags t u)) [
  | inl less ↦ rw (less, insert_tag)
  | inr (inl same) ↦
      let e : t ≡ u = compare_tags-eq t u same in rw (same, insert_tag) (rw e (ground arith))
  | inr (inr more) ↦ rw (more, insert_tag) (ground (arith, contains-insert_tag g t us))
]

abbrev pub has_rule : Option ℕ → Tag → Rules → Bool
has_rule none g rules = false
has_rule (some tid) g rules = contains (record { tid = tid; tag = g }) rules

rule_eq :
    (tid : ℕ) (g : Tag) (r : ThreadTag)
    → (record { tid = tid; tag = g } == r) ≡ ((r.tid == tid) && (g == r.tag))
rule_eq tid g r = elim (Bool-cases (record { tid = tid; tag = g } == r)) [
  | inl same ↦
      let e : record { tid = tid; tag = g } ≡ r = (==_iff _ r).0 same in
      let p : (r.tid == tid) ≡ true =
        (==_iff r.tid tid).1 (ap (λ (q : ThreadTag). q.tid) (sym e)) in
      let q : (g == r.tag) ≡ true = (==_iff g r.tag).1 (ap (λ (q : ThreadTag). q.tag) e) in
      ground (arith, same, p, q)
  | inr other ↦
      let apart : (tid ≡ r.tid) × (g ≡ r.tag) → ⊥ = λ both. ground (
        arith,
        other,
        (==_iff (record { tid = tid; tag = g }) r).1
            (λ i. record { tid = both.0 i; tag = both.1 i }),
      ) in
      ground (arith, other, apart, ==_iff r.tid tid, ==_iff g r.tag)
]

apply_rules-contains :
    (thread_id : Option ℕ) (g : Tag) (rules : Rules) (m : Metadata)
    → contains g (apply_rules thread_id rules m).tags
      ≡ (contains g m.tags || has_rule thread_id g rules)
unfolding apply_rules add_tag
apply_rules-contains none g [] m = ground arith
apply_rules-contains none g (r ∷ rules) m = apply_rules-contains none g rules m
apply_rules-contains (some tid) g [] m = ground arith
apply_rules-contains (some tid) g (r ∷ rules) m =
    apply_rules-contains (some tid) g rules (if r.tid == tid then add_tag m r.tag else m)
    ∙ elim (Bool-cases (r.tid == tid)) [
      | inl here ↦ rw here (ground (arith, rule_eq tid g r, contains-insert_tag g r.tag m.tags))
      | inr there ↦ rw there (ground (arith, rule_eq tid g r))
    ]

contains-append :
    (x y : ThreadTag) (rules : Rules)
    → contains x (rules ++ y ∷ []) ≡ (contains x rules || (x == y))
contains-append x y [] = ground arith
contains-append x y (r ∷ rules) = ground (arith, contains-append x y rules)

contains-add :
    (x y : ThreadTag) (rules : Rules) → contains x (add rules y).1 ≡ (contains x rules || (x == y))
unfolding add
contains-add x y rules = elim (Bool-cases (contains y rules)) [
  | inl old ↦ rw old (elim (Bool-cases (x == y)) [
    | inl same ↦ rw ((==_iff x y).0 same) (ground (arith, old))
    | inr other ↦ ground (arith, other)
  ])
  | inr new ↦ rw new (contains-append x y rules)
]

-- No rule stands in the list twice.
abbrev pub HasNoDuplicates : Rules → Type 0
HasNoDuplicates [] = Unit
HasNoDuplicates (r ∷ rules) = (contains r rules ≡ false) × HasNoDuplicates rules

contains-without :
    (x y : ThreadTag) (rules : Rules)
    → HasNoDuplicates rules
    → contains x (without y rules) ≡ (contains x rules && not (x == y))
contains-without x y [] h = refl
contains-without x y (r ∷ rules) (fresh, h) = elim (Bool-cases (y == r)) [
  | inl same ↦ rw same (
      rw ((==_iff y r).0 same) (elim (Bool-cases (x == r)) [
        | inl both ↦ rw both (rw ((==_iff x r).0 both) fresh)
        | inr other ↦ ground (arith, other)
      ]))
  | inr other ↦
      let rest = contains-without x y rules h in
      rw other (elim (Bool-cases (x == r)) [
        | inl both ↦ ground (arith, both, rest, other, ==_iff x y, ==_iff x r, ==_iff y r)
        | inr neither ↦ ground (arith, neither, rest)
      ])
]

HasNoDuplicates-append :
    (y : ThreadTag) (rules : Rules)
    → contains y rules ≡ false
    → HasNoDuplicates rules
    → HasNoDuplicates (rules ++ y ∷ [])
HasNoDuplicates-append y [] new h = (refl, tt)
HasNoDuplicates-append y (r ∷ rules) new (fresh, h) = (
  ground (arith, contains-append r y rules, ==_iff y r, ==_iff r y),
  HasNoDuplicates-append y rules (ground arith) h,
)

add-HasNoDuplicates :
    (rules : Rules) (y : ThreadTag) → HasNoDuplicates rules → HasNoDuplicates (add rules y).1
unfolding add
add-HasNoDuplicates rules y h = elim (Bool-cases (contains y rules)) [
  | inl old ↦ rw old h
  | inr new ↦ rw new (HasNoDuplicates-append y rules new h)
]

-- The tags of a stack trace after the rules are applied are its own and those of the rules for its
-- thread; a trace without a thread gets none.
pub add_tag_rules-contains :
    (t : StackTrace) (rules : Rules) (g : Tag)
    → contains g (add_tag_rules t rules).metadata.tags
      ≡ (contains g t.metadata.tags || has_rule t.thread_id g rules)
unfolding add_tag_rules
add_tag_rules-contains t rules g = apply_rules-contains t.thread_id g rules t.metadata

-- After a rule for a thread is added, a stack trace of that thread gets the tag of the rule; after the
-- rule is removed again, the trace has that tag only if it was its own.
pub add_tag_rules-remove :
    (t : StackTrace) (tid : ℕ) (rules : Rules) (g : Tag)
    → HasNoDuplicates rules
    → t.thread_id ≡ some tid
    → (contains g (add_tag_rules t (add rules (record { tid = tid; tag = g })).1).metadata.tags
        ≡ true)
      × (contains g
            (add_tag_rules t
              (remove
                (add rules (record { tid = tid; tag = g })).1
                (record { tid = tid; tag = g })).1).metadata.tags
          ≡ contains g t.metadata.tags)
unfolding remove
add_tag_rules-remove t tid rules g h thread =
    let rule : ThreadTag = record { tid = tid; tag = g } in
    let added = (add rules rule).1 in
    let clean = add-HasNoDuplicates rules rule h in
    (
      ground (
        arith,
        add_tag_rules-contains t added g,
        rw thread at (add_tag_rules-contains t added g),
        contains-add rule rule rules,
        ==_refl rule,
      ),
      ground (
        arith,
        rw thread at (add_tag_rules-contains t (without rule added) g),
        contains-without rule rule added clean,
        ==_refl rule,
      ),
    )

has_rule-other :
    (thread_id : Option ℕ) (rules : Rules) (rule : ThreadTag) (g : Tag)
    → HasNoDuplicates rules
    → thread_id ≢ some rule.tid
    → (has_rule thread_id g (add rules rule).1 ≡ has_rule thread_id g rules)
      × (has_rule thread_id g (without rule rules) ≡ has_rule thread_id g rules)
has_rule-other none rules rule g h apart = (refl, refl)
has_rule-other (some tid) rules rule g h apart =
    let x : ThreadTag = record { tid = tid; tag = g } in
    let differs : (x == rule) ≡ false = elim (Bool-cases (x == rule)) [
      | inl same ↦ absurd (apart (ap (λ (r : ThreadTag). some r.tid) ((==_iff x rule).0 same)))
      | inr other ↦ other
    ] in
    (
      ground (arith, contains-add x rule rules, differs),
      ground (arith, contains-without x rule rules h, differs),
    )

-- Adding or removing a rule for one thread leaves the tags of the stack traces of every other thread, and
-- of those without a thread, as they are.
pub add_tag_rules-other :
    (t : StackTrace) (rules : Rules) (rule : ThreadTag) (g : Tag)
    → HasNoDuplicates rules
    → t.thread_id ≢ some rule.tid
    → (contains g (add_tag_rules t (add rules rule).1).metadata.tags
        ≡ contains g (add_tag_rules t rules).metadata.tags)
      × (contains g (add_tag_rules t (remove rules rule).1).metadata.tags
          ≡ contains g (add_tag_rules t rules).metadata.tags)
unfolding remove
add_tag_rules-other t rules rule g h apart =
    let (added, removed) = has_rule-other t.thread_id rules rule g h apart in
    (
      ground (
        arith,
        add_tag_rules-contains t (add rules rule).1 g,
        add_tag_rules-contains t rules g,
        added,
      ),
      ground (
        arith,
        add_tag_rules-contains t (without rule rules) g,
        add_tag_rules-contains t rules g,
        removed,
      ),
    )
