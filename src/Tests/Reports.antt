-- ===== src/Tests/Reports.antt =====
-- Buffers, reports and thread tags of src/backend on two threads of one program.
use native.Mathlib.Decide.{ℕ_discrete}
use pyroscope_rs.Base.{
  ℕ, ◌≡◌, refl, sym, ◌∙◌, true, ◌||◌, [], ◌∷◌, Option, none, some, ◌⊎◌, inl, inr, length, arith,
  All,
}
use pyroscope_rs.Base.Equality.{string_eq}
use pyroscope_rs.Backend.{
  Tag, tag_eq, Metadata, StackFrame, StackTrace, trace_eq, StackBuffer, ThreadTag, thread_tag_eq,
  Rules, compare_tags, insert_tag, add_tag, to_reports, contains, add, remove, apply_rules,
  add_tag_rules,
}
use pyroscope_rs.Backend.Conservation.{count_of, reports_count, to_reports-count}
use pyroscope_rs.Backend.Grouping.{IsUniform, AreApart, IsInjectiveOn, to_reports-IsUniform}
use pyroscope_rs.Backend.TagRules.{
  has_rule, HasNoDuplicates, add_tag_rules-contains, add_tag_rules-remove,
}

abbrev work : StackFrame
work = record {
  module_name = none;
  name = some "work";
  filename = some "job.py";
  relative_path = none;
  absolute_path = none;
  line = some 3;
}

abbrev web : Tag
web = record { key = "service"; value = "web" }

abbrev plain : Metadata
plain = record { tags = [] }

abbrev tagged : Metadata
tagged = record { tags = web ∷ [] }

abbrev trace_of : Option ℕ → Metadata → StackTrace
trace_of thread_id metadata = record {
  pid = some 1;
  thread_id = thread_id;
  thread_name = none;
  frames = work ∷ [];
  metadata = metadata;
}

-- by the number of tags: `plain` and `tagged` do not collide
abbrev by_size : Metadata → ℕ
by_size m = length m.tags

abbrev busy : StackBuffer
busy = record {
  counts =
      (trace_of (some 7) plain, 2) ∷ (trace_of (some 8) tagged, 5) ∷ (trace_of none plain, 1) ∷ [];
}

to_reports-count_example :
    reports_count (trace_of (some 7) plain) (to_reports by_size busy)
    ≡ count_of (trace_of (some 7) plain) busy.counts
to_reports-count_example = to_reports-count by_size (trace_of (some 7) plain) busy

abbrev IsKnown : Metadata → Type 0
IsKnown m = (m ≡ plain) ⊎ (m ≡ tagged)

by_size-IsInjectiveOn : IsInjectiveOn by_size IsKnown
by_size-IsInjectiveOn m n (inl p) (inl q) same = p ∙ sym q
by_size-IsInjectiveOn m n (inr p) (inr q) same = p ∙ sym q
by_size-IsInjectiveOn m n (inl p) (inr q) same = absurd (ground (arith, rw (p, q) at same))
by_size-IsInjectiveOn m n (inr p) (inl q) same = absurd (ground (arith, rw (p, q) at same))

to_reports-IsUniform_example :
    All IsUniform (to_reports by_size busy) × AreApart (to_reports by_size busy)
to_reports-IsUniform_example =
    to_reports-IsUniform by_size IsKnown busy by_size-IsInjectiveOn
      (inl refl, (inr refl, (inl refl, tt)))

abbrev rule : ThreadTag
rule = record { tid = 7; tag = web }

abbrev other_rule : ThreadTag
other_rule = record { tid = 8; tag = web }

abbrev one_rule : Rules
one_rule = rule ∷ []

one_rule-HasNoDuplicates : HasNoDuplicates one_rule
one_rule-HasNoDuplicates = (refl, tt)

add_tag_rules-contains_example :
    contains web (add_tag_rules (trace_of (some 7) plain) one_rule).metadata.tags
    ≡ (contains web (trace_of (some 7) plain).metadata.tags || has_rule (some 7) web one_rule)
add_tag_rules-contains_example = add_tag_rules-contains (trace_of (some 7) plain) one_rule web

add_tag_rules-remove_example :
    (contains web
        (add_tag_rules (trace_of (some 8) plain) (add one_rule other_rule).1).metadata.tags
      ≡ true)
    × (contains web
          (add_tag_rules
            (trace_of (some 8) plain)
            (remove (add one_rule other_rule).1 other_rule).1).metadata.tags
        ≡ contains web (trace_of (some 8) plain).metadata.tags)
add_tag_rules-remove_example =
    add_tag_rules-remove (trace_of (some 8) plain) 8 one_rule web one_rule-HasNoDuplicates refl

-- the tag of the thread is inserted in its place
tags_in_order :
    (add_tag_rules
      (trace_of (some 7) (record { tags = record { key = "pid"; value = "1" } ∷ [] }))
      one_rule).metadata.tags
    ≡ record { key = "pid"; value = "1" } ∷ web ∷ []
unfolding add_tag_rules apply_rules add_tag insert_tag compare_tags ℕ_discrete
tags_in_order = refl
