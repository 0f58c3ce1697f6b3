-- ===== src/PprofEnc/AddSample.antt =====
-- `add_sample` (kit/pprof_enc/src/lib.rs) on a valid builder, as a step of a table from stacks to totals.
use pyroscope_rs.Base.{
  ℕ, ◌+◌, ◌*◌, ◌%◌, ◌^◌, ◌<◌, ◌≡◌, refl, sym, ap, ◌∙◌, List, [], ◌∷◌, ◌++◌, none, some, arith,
  length, get_elem?, set, Option-cases, ◌⊎◌, inl, inr, subst, ◌==◌, if◌then◌else◌, get_elem?-set,
}
use pyroscope_rs.Base.Map
use pyroscope_rs.Base.Map.{Map}
use pyroscope_rs.Base.Index.{IsIndex-push, IsIndex-set, rows-push}
use pyroscope_rs.PprofEnc.{
  Sample, Frame, stack_eq, ids_eq, ProfileBuilder, intern_frames, record_sample, add_sample,
}
use pyroscope_rs.PprofEnc.Tables.{resolve, IsTables, Grows}
use pyroscope_rs.PprofEnc.Intern.{Keeps}
use pyroscope_rs.PprofEnc.Locations.{resolve_all, resolve_all-Grows, intern_frames-LocatesAll}
use pyroscope_rs.PprofEnc.Samples.{
  IsSample, IsValid, total, total_of-push, total_of-set, total_of-resolves,
}

-- The builder after a sample with value `v` was added for the stack `frames`.
pub record Adds (b : ProfileBuilder) (frames : List Frame) (v : ℕ) (b' : ProfileBuilder)
    : Type 0 where
  pub valid : IsValid b'
  pub period : b'.period ≡ b.period
  pub totals :
      (fs : List Frame)
      → total b' fs ≡ (if frames == fs then (total b fs + v) % 2 ^ 64 else total b fs)

IsSample-Grows :
    (b b' : ProfileBuilder) (s : Sample)
    → Grows b b'
    → IsSample (resolve b) s
    → IsSample (resolve b') s
IsSample-Grows b b' s g x = record {
  frames = x.frames;
  value = x.value;
  resolves = resolve_all-Grows g s.location_id x.frames x.resolves;
  one_value = x.one_value;
  fits = x.fits;
}

-- Interning keeps every total.
interned :
    (b b' : ProfileBuilder)
    → IsValid b
    → IsTables b'
    → Grows b b'
    → Keeps b b'
    → IsValid b' × ((fs : List Frame) → total b' fs ≡ total b fs)
unfolding total
interned b b' v t g k = (
  record {
    tables = t;
    sampled = rw (k.samples, k.sample_index) v.sampled;
    samples = λ i s h.
        IsSample-Grows b b' s g
          (v.samples i s (ap (λ (ss : List Sample). get_elem? ss i) (sym k.samples) ∙ h));
  },
  λ fs. rw k.samples (
      total_of-resolves (resolve b) (resolve b') b.samples fs λ i s h.
        let x = v.samples i s h in
        resolve_all-Grows g s.location_id x.frames x.resolves ∙ sym x.resolves),
)

-- The tables do not depend on the samples.
IsTables-samples :
    (b : ProfileBuilder) (ss : List Sample) (index : Map (List ℕ) ℕ)
    → IsTables b
    → IsTables (record b { samples = ss; sample_index = index })
IsTables-samples b ss index t = record {
  empty_first = t.empty_first;
  strings = t.strings;
  functions = t.functions;
  named = t.named;
  function_ids = t.function_ids;
  locations = t.locations;
  placed = t.placed;
  location_ids = t.location_ids;
}

module _ (b : ProfileBuilder) (valid : IsValid b) (ids : List ℕ) (frames : List Frame) (v : ℕ)
    (stack : resolve_all (resolve b) ids ≡ some frames) (small : v < 2 ^ 64) where
  push_sample :
      Map.get ids b.sample_index ≡ none
      → Adds b frames v (record b {
        samples = b.samples ++ record { location_id = ids; value = v ∷ [] } ∷ [];
        sample_index = Map.insert ids (length b.samples) b.sample_index;
      })
  unfolding total
  push_sample fresh = record {
    valid = record {
      tables = IsTables-samples b _ _ valid.tables;
      sampled =
          IsIndex-push _ 0 valid.sampled (record { location_id = ids; value = v ∷ [] })
            (length b.samples) (omega arith) fresh;
      samples =
          rows-push (λ _ s. IsSample (resolve b) s) b.samples _ valid.samples
            (record {
              frames = frames;
              value = v;
              resolves = stack;
              one_value = refl;
              fits = small;
            });
    };
    period = refl;
    totals = λ fs. total_of-push (resolve b) b.samples ids v frames fs stack;
  }

  merge_sample :
      (i : ℕ) (s : Sample)
      → get_elem? b.samples i ≡ some s
      → s.location_id ≡ ids
      → (x : IsSample (resolve b) s)
      → Adds b frames v (record b {
        samples = set b.samples i (record s { value = ((x.value + v) % 2 ^ 64) ∷ [] });
      })
  unfolding total
  merge_sample i s at_i same x = record {
    valid = record {
      tables = IsTables-samples b _ b.sample_index valid.tables;
      sampled = IsIndex-set _ 0 valid.sampled i s _ at_i refl;
      samples = λ j t h. merged j t (get_elem?-set b.samples i j _ h);
    };
    period = refl;
    totals = λ fs.
        total_of-set (resolve b) b.samples i s x.value v frames fs at_i x.one_value
          (ap (resolve_all (resolve b)) same ∙ stack);
  }
    where
      t' : Sample
      t' = record s { value = ((x.value + v) % 2 ^ 64) ∷ [] }

      new : IsSample (resolve b) t'
      new = record {
        frames = x.frames;
        value = (x.value + v) % 2 ^ 64;
        resolves = x.resolves;
        one_value = refl;
        fits = omega arith;
      }

      merged :
          (j : ℕ) (t : Sample)
          → ((j ≡ i) × (t ≡ t')) ⊎ (get_elem? b.samples j ≡ some t)
          → IsSample (resolve b) t
      merged j t (inl (_, e)) = subst (IsSample (resolve b)) (sym e) new
      merged j t (inr old) = valid.samples j t old

  record_sample-Adds :
      (b' : ProfileBuilder) × (record_sample b ids v ≡ some b') × Adds b frames v b'
  unfolding record_sample
  record_sample-Adds = elim (Option-cases (Map.get ids b.sample_index)) [
    | inl fresh ↦ (_, rw (fresh, record_sample), push_sample fresh)
    | inr (n, hit) ↦
        let (i, s, number, at_i, same) = valid.sampled.sound ids n hit in
        let x = valid.samples i s at_i in
        let e : n ≡ i = omega arith in
        (_, rw (hit, record_sample, e, at_i, x.one_value), merge_sample i s at_i same x)
  ]

-- On a valid builder `add_sample` does not panic and leaves a valid builder; the total of the stack
-- given grows by `count * period`, wrapping at 64 bits, and every other stack keeps its total.
pub add_sample-Adds :
    (b : ProfileBuilder) (frames : List Frame) (count : ℕ)
    → IsValid b
    → (b' : ProfileBuilder) × (add_sample b frames count ≡ some b')
      × Adds b frames (count * b.period % 2 ^ 64) b'
unfolding add_sample
add_sample-Adds b frames count valid =
    let r = intern_frames-LocatesAll b frames valid.tables in
    let (ids, b₁) = intern_frames b frames in
    let (valid₁, kept) = interned b b₁ valid r.tables r.grows r.keeps in
    let (b', run, adds) =
      record_sample-Adds b₁ valid₁ ids frames (count * b₁.period % 2 ^ 64) r.resolves
        (omega arith) in
    (
      b',
      run,
      record {
        valid = adds.valid;
        period = adds.period ∙ r.keeps.period;
        totals = λ fs. adds.totals fs ∙ rw (kept fs, r.keeps.period);
      },
    )
