-- ===== src/Backend.antt =====
-- src/backend/types.rs and src/backend/ruleset.rs: tags, stack traces, the buffer that counts them,
-- the reports made from it, and the tags that threads carry. A usize count is a number below 2 ^ 64.
-- `hash` stands for the hasher of the standard library, which `Metadata::get_id` uses.
pub mod Conservation
pub mod Grouping
pub mod TagRules
use Prim.Native.Nat.{Ordering}
use Prim.Native.String.{compare}
use native.Mathlib.Decide.{ℕ_discrete}
use pyroscope_rs.Base.{
  ℕ, ◌+◌, ◌%◌, ◌^◌, String, Bool, true, false, List, [], ◌∷◌, ◌++◌, Option, none, some, map, Eq,
  ◌==◌, if◌then◌else◌,
}
use pyroscope_rs.Base.Equality.{String-discrete, nat_eq}
use pyroscope_rs.Base.Map
use pyroscope_rs.Base.Map.{Map}

pub record Tag : Type 0 where
  pub key : String
  pub value : String

-- `BTreeSet<Tag>` as the list of its elements in ascending order
pub record Metadata : Type 0 where
  pub tags : List Tag

pub record StackFrame : Type 0 where
  pub module_name : Option String
  pub name : Option String
  pub filename : Option String
  pub relative_path : Option String
  pub absolute_path : Option String
  pub line : Option ℕ

pub record StackTrace : Type 0 where
  pub pid : Option ℕ
  pub thread_id : Option ℕ
  pub thread_name : Option String
  pub frames : List StackFrame
  pub metadata : Metadata

unfoldable pub StackTrace-discrete : Discrete StackTrace
StackTrace-discrete = hlevel (String-discrete, ℕ_discrete)

unfoldable pub Tag-discrete : Discrete Tag
Tag-discrete = hlevel String-discrete

instance abbrev pub trace_eq : Eq StackTrace
trace_eq = record { dec = StackTrace-discrete }

instance abbrev pub tag_eq : Eq Tag
tag_eq = record { dec = Tag-discrete }

pub record BackendConfig : Type 0 where
  pub report_thread_id : Bool
  pub report_thread_name : Bool
  pub report_pid : Bool

pub record StackBuffer : Type 0 where
  pub counts : Map StackTrace ℕ

pub record Report : Type 0 where
  pub counts : Map StackTrace ℕ
  pub metadata : Metadata

-- the derived order of tags: by key, then by value
unfoldable pub compare_tags : Tag → Tag → Ordering
compare_tags a b = elim (compare a.key b.key) [
  | Ordering.eq ↦ compare a.value b.value
  | other ↦ other
]

-- `BTreeSet::insert`
unfoldable pub insert_tag : Tag → List Tag → List Tag
insert_tag t [] = t ∷ []
insert_tag t (u ∷ us) =
    let rest = insert_tag t us in
    elim (compare_tags t u) [
      | Ordering.lt ↦ t ∷ u ∷ us
      | Ordering.eq ↦ u ∷ us
      | Ordering.gt ↦ u ∷ rest
    ]

unfoldable pub add_tag : Metadata → Tag → Metadata
unfolding insert_tag
add_tag m tag = record { tags = insert_tag tag m.tags }

-- `*data.entry(trace).or_insert(0) += count`, wrapping
unfoldable pub add_count : StackTrace → ℕ → Map StackTrace ℕ → Map StackTrace ℕ
add_count t count [] = (t, (0 + count) % 2 ^ 64) ∷ []
add_count t count ((u, n) ∷ rest) =
    if t == u then (u, (n + count) % 2 ^ 64) ∷ rest else (u, n) ∷ add_count t count rest

-- `StackBuffer::record_with_count`
unfoldable pub record_with_count : StackBuffer → StackTrace → ℕ → StackBuffer
unfolding add_count
record_with_count b t count = record { counts = add_count t count b.counts }

-- `StackBuffer::record`
unfoldable pub record_trace : StackBuffer → StackTrace → StackBuffer
unfolding add_count
record_trace b t = record { counts = add_count t 1 b.counts }

unfoldable pub clear : StackBuffer → StackBuffer
clear b = record { counts = [] }

-- `StackTrace::new`; `show` stands for the decimal of a number
unfoldable pub new_trace :
    (ℕ → String)
    → BackendConfig
    → Option ℕ
    → Option ℕ
    → Option String
    → List StackFrame
    → StackTrace
unfolding add_tag
new_trace show config pid thread_id thread_name frames =
    let add : Bool → String → Option String → Metadata → Metadata = λ wanted key value m.
      elim value [
        | none ↦ m
        | some v ↦ if wanted then add_tag m (record { key = key; value = v }) else m
      ] in
    record {
      pid = pid;
      thread_id = thread_id;
      thread_name = thread_name;
      frames = frames;
      metadata = add config.report_thread_name "thread_name" thread_name (
          add config.report_thread_id "thread_id" (shown thread_id)
            (add config.report_pid "pid" (shown pid) (record { tags = [] })));
    }
  where
    shown : Option ℕ → Option String
    shown none = none
    shown (some n) = some (show n)

-- `Report::record_with_count`
unfoldable pub report_with_count : Report → StackTrace → ℕ → Report
unfolding add_count
report_with_count r t count = record r { counts = add_count t count r.counts }

-- one round of the fold in `impl From<StackBuffer> for Vec<Report>`
unfoldable pub group : (Metadata → ℕ) → Map ℕ Report → StackTrace × ℕ → Map ℕ Report
unfolding report_with_count
group hash acc (t, count) = elim (Map.get (hash t.metadata) acc) [
  | some report ↦ Map.insert (hash t.metadata) (report_with_count report t count) acc
  | none ↦
      Map.insert (hash t.metadata)
        (report_with_count (record { counts = []; metadata = t.metadata }) t count) acc
]

unfoldable pub group_all : (Metadata → ℕ) → Map ℕ Report → Map StackTrace ℕ → Map ℕ Report
group_all hash acc [] = acc
group_all hash acc (e ∷ rest) = group_all hash (group hash acc e) rest

unfoldable pub to_reports : (Metadata → ℕ) → StackBuffer → List Report
unfolding group_all
to_reports hash b = map (λ (e : ℕ × Report). e.1) (group_all hash [] b.counts)

pub record ThreadTag : Type 0 where
  pub tid : ℕ
  pub tag : Tag

unfoldable pub ThreadTag-discrete : Discrete ThreadTag
ThreadTag-discrete = hlevel (String-discrete, ℕ_discrete)

instance abbrev pub thread_tag_eq : Eq ThreadTag
thread_tag_eq = record { dec = ThreadTag-discrete }

-- `HashSet<ThreadTag>` as a list
abbrev pub Rules : Type 0
Rules = List ThreadTag

abbrev pub contains {ℓ} : {A : Type ℓ} ⦃e : Eq A⦄ → A → List A → Bool
contains a [] = false
contains a (b ∷ bs) = if a == b then true else contains a bs

-- `ThreadTagsSet::add`: whether the rule is new, and the set
unfoldable pub add : Rules → ThreadTag → Bool × Rules
add rules rule = if contains rule rules then (false, rules) else (true, rules ++ rule ∷ [])

abbrev pub without : ThreadTag → Rules → Rules
without rule [] = []
without rule (r ∷ rules) = if rule == r then rules else r ∷ without rule rules

-- `ThreadTagsSet::remove`: whether the rule was there, and the set
unfoldable pub remove : Rules → ThreadTag → Bool × Rules
remove rules rule = (contains rule rules, without rule rules)

-- the `for_each` of `add_tag_rules`
unfoldable pub apply_rules : Option ℕ → Rules → Metadata → Metadata
unfolding add_tag
apply_rules thread_id [] m = m
apply_rules none (rule ∷ rules) m = apply_rules none rules m
apply_rules (some tid) (rule ∷ rules) m =
    apply_rules (some tid) rules (if rule.tid == tid then add_tag m rule.tag else m)

unfoldable pub add_tag_rules : StackTrace → Rules → StackTrace
unfolding apply_rules
add_tag_rules t rules = record t { metadata = apply_rules t.thread_id rules t.metadata }
