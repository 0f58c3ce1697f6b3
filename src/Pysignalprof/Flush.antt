-- ===== src/Pysignalprof/Flush.antt =====
-- The flush of the reader (kit/pysignalprof/src/lib.rs).
use pyroscope_rs.Base.{
  ℕ, All, ◌%◌, ◌^◌, ◌≤◌, ◌<◌, ◌≡◌, refl, sym, ap, ◌∙◌, String, true, false, List, [], ◌∷◌, ◌++◌,
  none, some, length, option_bind-eq_some, arith, le→ltb, lt→ltb,
}
use pyroscope_rs.Base.Equality.{nat_eq, string_eq}
use pyroscope_rs.Base.Map
use pyroscope_rs.Base.Map.{Map}
use pyroscope_rs.PprofEnc
use pyroscope_rs.PprofEnc.{
  Frame, Profile, ProfileBuilder, ids_eq, function_key_eq, FunctionKey, insert_function,
  intern_function, intern_location, intern_frame, intern_frames, record_sample, add_sample,
  is_empty,
}
use pyroscope_rs.PprofEnc.Encode.{
  add_samples, expected, IsProfile, profile_frame, window-expected, reset-eq-new,
}
use pyroscope_rs.PprofEnc.Samples.{total_of}
use pyroscope_rs.Pysignalprof.{Shard, HandlerState}
use pyroscope_rs.Pysignalprof.Drained.{AllStacks, IsCache}
use pyroscope_rs.Pysignalprof.Reader.{
  ReaderState, drain_shards, flush_pprof, reader_round, sent_window, flush_interval_nanos,
}
use pyroscope_rs.Pysignalprof.Window.{
  Holds, window_of, IsWithin, drain_shards-written, add_samples-append, add_samples-holds,
}
use pyroscope_rs.Unwind.{RawFrame}

-- What samples leave alone.
record Keeps (b b' : ProfileBuilder) : Type 0 where
  time_nanos : b'.time_nanos ≡ b.time_nanos
  period : b'.period ≡ b.period

Keeps-trans : (a b c : ProfileBuilder) → Keeps a b → Keeps b c → Keeps a c
Keeps-trans a b c h k = record {
  time_nanos = k.time_nanos ∙ h.time_nanos;
  period = k.period ∙ h.period;
}

insert_function-Keeps : (b : ProfileBuilder) (k : FunctionKey) → Keeps b (insert_function b k).1
unfolding insert_function
insert_function-Keeps b (name, filename, start_line) = ground arith

intern_function-Keeps : (b : ProfileBuilder) (f : Frame) → Keeps b (intern_function b f).1
unfolding intern_function
intern_function-Keeps b f = ground arith

intern_location-Keeps : (b : ProfileBuilder) (id line : ℕ) → Keeps b (intern_location b id line).1
unfolding intern_location
intern_location-Keeps b id line = ground arith

intern_frame-Keeps : (b : ProfileBuilder) (f : Frame) → Keeps b (intern_frame b f).1
unfolding intern_frame
intern_frame-Keeps b f =
    let (id, b') = intern_function b f in
    Keeps-trans b (intern_function b f).1 _ (intern_function-Keeps b f)
      (intern_location-Keeps (intern_function b f).1 (intern_function b f).0 f.first_line)

intern_frames-Keeps : (b : ProfileBuilder) (fs : List Frame) → Keeps b (intern_frames b fs).1
unfolding intern_frames
intern_frames-Keeps b [] = record { time_nanos = refl; period = refl }
intern_frames-Keeps b (f ∷ fs) =
    Keeps-trans b (intern_frame b f).1 _ (intern_frame-Keeps b f)
      (intern_frames-Keeps (intern_frame b f).1 fs)

record_sample-Keeps :
    (b b' : ProfileBuilder) (ids : List ℕ) (v : ℕ) → record_sample b ids v ≡ some b' → Keeps b b'
unfolding record_sample
record_sample-Keeps b b' ids v h = ground (arith, h)

add_sample-Keeps :
    (b b' : ProfileBuilder) (fs : List Frame) (n : ℕ) → add_sample b fs n ≡ some b' → Keeps b b'
unfolding add_sample
add_sample-Keeps b b' fs n h =
    let c = (intern_frames b fs).1 in
    Keeps-trans b c b' (intern_frames-Keeps b fs) (record_sample-Keeps c b' _ _ h)

add_samples-Keeps :
    (b c : ProfileBuilder) (xs : List (List Frame × ℕ)) → add_samples b xs ≡ some c → Keeps b c
unfolding add_samples
add_samples-Keeps b c [] h =
    let e : b ≡ c = ground (arith, h) in rw e (record { time_nanos = refl; period = refl })
add_samples-Keeps b c ((fs, n) ∷ xs) h =
    let (b', first, later) = option_bind-eq_some (add_sample b fs n) _ h in
    Keeps-trans b b' c (add_sample-Keeps b b' fs n first) (add_samples-Keeps b' c xs later)

-- After an encode the reset gives a new builder.
fresh :
    (b : ProfileBuilder) (n d p : ℕ)
    → b.period ≡ p
    → PprofEnc.reset (PprofEnc.encode b).1 n d ≡ PprofEnc.new n d p
fresh b n d p e =
    reset-eq-new (PprofEnc.encode b).1 n d ∙ ap (PprofEnc.new n d) (unfold PprofEnc.encode in e)

module _ (resolve : ℕ → String) where
  -- What a round sees: the records of walks in the shards, a reader within a window.
  pub record Sees (t d p : ℕ) (window : List (List Frame × ℕ)) (state : HandlerState)
      (s : ReaderState) (stackss : List (List (ℕ × List RawFrame))) : Type 0 where
    pub within : IsWithin resolve t d p window s
    pub holds : Holds state.shards stackss
    pub stacks : All AllStacks stackss

  -- The samples of a window and of the shards, drained.
  drained :
      (t d p : ℕ) (window : List (List Frame × ℕ)) (state : HandlerState) (s : ReaderState)
      (stackss : List (List (ℕ × List RawFrame))) (b : ProfileBuilder)
      → Sees t d p window state s stackss
      → add_samples (PprofEnc.new t d p) (window ++ window_of resolve stackss) ≡ some b
      → (cache : Map ℕ String) × (shards : List Shard) × (drain_shards resolve s state.shards
          ≡ some (record { builder = b; symbol_cache = cache }, shards))
        × IsCache resolve cache
        × All (λ (shard : Shard). shard.queue ≡ []) shards
  drained t d p window state s stackss b sees run =
      let (m, first, later) =
        add_samples-append (PprofEnc.new t d p) b window (window_of resolve stackss) run in
      let same : m ≡ s.builder = ground (arith, first, sees.within.added) in
      drain_shards-written resolve s state.shards stackss b sees.holds sees.stacks
        sees.within.cached (rw same at later)

  holds_none : (b : ProfileBuilder) → 0 < length b.samples → is_empty b ≡ false
  unfolding is_empty
  holds_none b h = ground arith

  -- The reader has the samples of a window, whose builder was made with a time, and the shards hold records of
  -- walks. A round in which the window ends and something was sampled: no record makes it panic, the shards are
  -- emptied, and the profile that is encoded is well formed, gives every stack the sum over the samples
  -- of the window and of the shards (a walk counts as one sample of the names of its frames), and has
  -- the time of the window; the next window begins with a new builder that has the clock's time, and
  -- an empty cache.
  pub reader_round-flushes :
      (t d p elapsed now_secs now_nanos : ℕ) (window : List (List Frame × ℕ)) (state : HandlerState)
      (s : ReaderState) (stackss : List (List (ℕ × List RawFrame))) (x : List Frame × ℕ)
      (xs : List (List Frame × ℕ)) (frames : List Frame)
      → Sees t d p window state s stackss
      → flush_interval_nanos ≤ elapsed
      → window ++ window_of resolve stackss ≡ x ∷ xs
      → (profile : Profile) × (shards : List Shard) × (reader_round resolve state elapsed now_secs
            now_nanos s
          ≡ some (
            some (profile, sent_window resolve state.server_url now_secs),
            record {
              builder = PprofEnc.new (now_nanos % 2 ^ 64) flush_interval_nanos p;
              symbol_cache = [];
            },
            shards,
          ))
        × IsProfile profile
        × (total_of (profile_frame profile) profile.sample frames
            ≡ expected p 0 (window ++ window_of resolve stackss) frames)
        × (profile.time_nanos ≡ t)
        × All (λ (shard : Shard). shard.queue ≡ []) shards
  unfolding reader_round flush_pprof
  reader_round-flushes t d p elapsed now_secs now_nanos window state s stackss x xs frames sees late
        some_ =
      let whole = window ++ window_of resolve stackss in
      let (b, run, message, totals) = window-expected t d p whole frames in
      let (cache, shards, drains, cached, empty) =
        drained t d p window state s stackss b sees run in
      let keeps = add_samples-Keeps (PprofEnc.new t d p) b whole run in
      let full : is_empty b ≡ false = holds_none b (
        add_samples-holds (PprofEnc.new t d p) b x xs
          (ap (add_samples (PprofEnc.new t d p)) (sym some_) ∙ run)) in
      (
        (PprofEnc.encode b).0,
        shards,
        rw (
          drains,
          le→ltb elapsed flush_interval_nanos late,
          full,
          fresh b (now_nanos % 2 ^ 64) flush_interval_nanos p
              (keeps.period ∙ unfold PprofEnc.new in refl),
        ),
        message,
        totals,
        unfold PprofEnc.encode PprofEnc.new in keeps.time_nanos,
        empty,
      )

  -- A round before the window ends adds the samples of the shards to the window; it does not panic,
  -- empties the shards and encodes nothing.
  pub reader_round-IsWithin :
      (t d p elapsed now_secs now_nanos : ℕ) (window : List (List Frame × ℕ)) (state : HandlerState)
      (s : ReaderState) (stackss : List (List (ℕ × List RawFrame)))
      → Sees t d p window state s stackss
      → elapsed < flush_interval_nanos
      → (s' : ReaderState) × (shards : List Shard) × (reader_round resolve state elapsed now_secs
            now_nanos s
          ≡ some (none, s', shards))
        × IsWithin resolve t d p (window ++ window_of resolve stackss) s'
        × All (λ (shard : Shard). shard.queue ≡ []) shards
  unfolding reader_round
  reader_round-IsWithin t d p elapsed now_secs now_nanos window state s stackss sees early =
      let whole = window ++ window_of resolve stackss in
      let (b, run, message, totals) = window-expected t d p whole [] in
      let (cache, shards, drains, cached, empty) =
        drained t d p window state s stackss b sees run in
      (
        record { builder = b; symbol_cache = cache },
        shards,
        rw (drains, lt→ltb elapsed flush_interval_nanos early),
        record { added = run; cached = cached },
        empty,
      )

  -- The reader has no samples, and the shards hold no record. A round in which the window ends encodes nothing and leaves the window as it
  -- was: its time stays that of the last reset, whatever the clock shows.
  pub reader_round_idle :
      (t d p elapsed now_secs now_nanos : ℕ) (state : HandlerState) (s : ReaderState)
      (stackss : List (List (ℕ × List RawFrame)))
      → Sees t d p [] state s stackss
      → flush_interval_nanos ≤ elapsed
      → window_of resolve stackss ≡ []
      → (s' : ReaderState) × (shards : List Shard) × (reader_round resolve state elapsed now_secs
            now_nanos s
          ≡ some (none, s', shards))
        × IsWithin resolve t d p [] s'
        × (s'.builder ≡ PprofEnc.new t d p)
  unfolding reader_round flush_pprof
  reader_round_idle t d p elapsed now_secs now_nanos state s stackss sees late idle =
      let b = PprofEnc.new t d p in
      let nothing : add_samples b (window_of resolve stackss) ≡ some b =
        ap (add_samples b) idle ∙ unfold add_samples in refl in
      let (cache, shards, drains, cached, empty) =
        drained t d p [] state s stackss b sees nothing in
      let none_held : is_empty b ≡ true = unfold is_empty PprofEnc.new in refl in
      (
        record { builder = b; symbol_cache = [] },
        shards,
        rw (drains, le→ltb elapsed flush_interval_nanos late, none_held),
        record { added = unfold add_samples in refl; cached = λ c s' h. unfold Map.get in cc h },
        refl,
      )
