-- ===== src/Pysignalprof/Window.antt =====
-- The profile of a window, from the records in the shards to the message (kit/pysignalprof/src/lib.rs).
use pyroscope_rs.Base.{
  ℕ, All, ◌<◌, ◌≡◌, refl, String, List, [], ◌∷◌, ◌++◌, some, map, length, option_bind-eq_some,
  arith, length-append, length-set, get_elem?, get_elem?-lt, Option-cases, inl, inr,
}
use pyroscope_rs.Base.Equality.{nat_eq}
use pyroscope_rs.Base.Map
use pyroscope_rs.Base.Map.{Map}
use pyroscope_rs.PprofEnc
use pyroscope_rs.PprofEnc.{
  Frame, Profile, ProfileBuilder, ids_eq, add_sample, record_sample, merge, bump, intern_frames,
}
use pyroscope_rs.PprofEnc.Encode.{add_samples}
use pyroscope_rs.Pysignalprof.{Shard}
use pyroscope_rs.Pysignalprof.Drained.{IsCache, AllStacks, bytes_of, sample_of, drain_queue-written}
use pyroscope_rs.Pysignalprof.Reader.{ReaderState, drain_shards}
use pyroscope_rs.Unwind.{RawFrame}

-- The first samples of a window lead to a builder on which the others go on.
pub add_samples-append :
    (b c : ProfileBuilder) (xs ys : List (List Frame × ℕ))
    → add_samples b (xs ++ ys) ≡ some c
    → (m : ProfileBuilder) × (add_samples b xs ≡ some m) × (add_samples m ys ≡ some c)
unfolding add_samples
add_samples-append b c [] ys h = (b, refl, h)
add_samples-append b c ((fs, n) ∷ xs) ys h =
    let (b', first, later) = option_bind-eq_some (add_sample b fs n) _ h in
    let (m, run, rest) = add_samples-append b' c xs ys later in (m, rw first run, rest)

-- A builder that a sample was added to holds one.
merge-holds :
    (ss ss' : List PprofEnc.Sample) (idx v : ℕ) → merge ss idx v ≡ some ss' → 0 < length ss'
unfolding merge
merge-holds ss ss' idx v h =
    let (s, there, more) = option_bind-eq_some (get_elem? ss idx) _ h in
    let (vs, bumped, made) = option_bind-eq_some (bump v s.value) _ more in
    let changed = record s { value = vs } in
    ground (arith, made, get_elem?-lt ss idx there, length-set ss idx changed)

record_sample-holds :
    (b b' : ProfileBuilder) (ids : List ℕ) (v : ℕ)
    → record_sample b ids v ≡ some b'
    → 0 < length b'.samples
unfolding record_sample
record_sample-holds b b' ids v h = elim (Option-cases (Map.get ids b.sample_index)) [
  | inl fresh ↦
      let made = rw (fresh, record_sample) at h in
      let new : PprofEnc.Sample = record { location_id = ids; value = v ∷ [] } in
      ground (arith, made, length-append b.samples (new ∷ []))
  | inr (idx, known) ↦
      let (ss, merged, made) =
        option_bind-eq_some (merge b.samples idx v) _ (rw (known, record_sample) at h) in
      ground (arith, made, merge-holds b.samples ss idx v merged)
]

add_sample-holds :
    (b b' : ProfileBuilder) (fs : List Frame) (n : ℕ)
    → add_sample b fs n ≡ some b'
    → 0 < length b'.samples
unfolding add_sample
add_sample-holds b b' fs n h = record_sample-holds _ b' _ _ h

pub add_samples-holds :
    (b c : ProfileBuilder) (x : List Frame × ℕ) (xs : List (List Frame × ℕ))
    → add_samples b (x ∷ xs) ≡ some c
    → 0 < length c.samples
unfolding add_samples
add_samples-holds b c (fs, n) [] h =
    let (b', first, later) = option_bind-eq_some (add_sample b fs n) _ h in
    let e : b' ≡ c = ground (arith, later) in rw (← e) (add_sample-holds b b' fs n first)
add_samples-holds b c (fs, n) (y ∷ ys) h =
    let (b', first, later) = option_bind-eq_some (add_sample b fs n) _ h in
    add_samples-holds b' c y ys later

-- The shards hold the records of walks, a list of them for each shard.
abbrev pub Holds : List Shard → List (List (ℕ × List RawFrame)) → Type 0
Holds [] [] = Unit
Holds [] (_ ∷ _) = ⊥
Holds (_ ∷ _) [] = ⊥
Holds (shard ∷ shards) (stacks ∷ rest) = (shard.queue ≡ map bytes_of stacks) × Holds shards rest

module _ (resolve : ℕ → String) where
  -- What a window is to hold of them, in the order of the shards.
  abbrev pub window_of : List (List (ℕ × List RawFrame)) → List (List Frame × ℕ)
  window_of [] = []
  window_of (stacks ∷ rest) = map (sample_of resolve) stacks ++ window_of rest

  -- The reader in a window that began with a new builder and had these samples so far.
  pub record IsWithin (t d p : ℕ) (window : List (List Frame × ℕ)) (s : ReaderState) : Type 0 where
    pub added : add_samples (PprofEnc.new t d p) window ≡ some s.builder
    pub cached : IsCache resolve s.symbol_cache

  pub drain_shards-written :
      (s : ReaderState) (shards : List Shard) (stackss : List (List (ℕ × List RawFrame)))
      (b : ProfileBuilder)
      → Holds shards stackss
      → All AllStacks stackss
      → IsCache resolve s.symbol_cache
      → add_samples s.builder (window_of stackss) ≡ some b
      → (cache : Map ℕ String) × (shards' : List Shard) × (drain_shards resolve s shards
          ≡ some (record { builder = b; symbol_cache = cache }, shards'))
        × IsCache resolve cache
        × All (λ (shard : Shard). shard.queue ≡ []) shards'
  unfolding drain_shards
  drain_shards-written s [] [] b holds all valid added =
      (s.symbol_cache, [], unfold add_samples in ground (arith, added), valid, tt)
  drain_shards-written s [] (_ ∷ _) b holds all valid added = absurd holds
  drain_shards-written s (_ ∷ _) [] b holds all valid added = absurd holds
  drain_shards-written s (shard ∷ shards) (stacks ∷ rest) b holds all valid added =
      let (m, first, later) =
        add_samples-append s.builder b (map (sample_of resolve) stacks) (window_of rest) added in
      let (cache, run, cached) = drain_queue-written resolve s stacks m all.0 valid first in
      let (cache', shards', runs, cached', empty) =
        drain_shards-written (record { builder = m; symbol_cache = cache }) shards rest b holds.1
          all.1 cached later in
      (
        cache',
        record shard { queue = [] } ∷ shards',
        rw (holds.0, run, runs),
        cached',
        (refl, empty),
      )
