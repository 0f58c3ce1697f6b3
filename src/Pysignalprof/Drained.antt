-- ===== src/Pysignalprof/Drained.antt =====
-- What the reader makes of the records that the handler wrote (kit/pysignalprof/src/lib.rs).
use pyroscope_rs.Base.{
  ℕ, suc, All, ◌+◌, ◌^◌, ◌<◌, ◌≡◌, refl, ap, ◌∙◌, String, List, [], ◌∷◌, none, some, map, length,
  get_elem?, get_elem?-lt, option_bind-eq_some, arith, ==_iff, Option-cases, inl, inr,
}
use pyroscope_rs.Base.Equality.{nat_eq}
use pyroscope_rs.Base.Map
use pyroscope_rs.Base.Map.{Map, get-insert}
use pyroscope_rs.PprofEnc.{Frame, ProfileBuilder, add_sample}
use pyroscope_rs.PprofEnc.Encode.{add_samples}
use pyroscope_rs.Pysignalprof.Reader.{
  ReaderState, cache_symbol, cache_frames, name_frames, drain_record, drain_queue,
}
use pyroscope_rs.SigRing.{RecordView, frame, parse_record}
use pyroscope_rs.SigRing.Layout.{record_bytes}
use pyroscope_rs.SigRing.RoundTrip.{IsWord, parse_record-bytes, frame-bytes}
use pyroscope_rs.Unwind.{RawFrame}

-- A walk of a thread that fits its types.
pub record IsStack (tid : ℕ) (frames : List RawFrame) : Type 0 where
  pub tid_fits : tid < 2 ^ 32
  pub short : length frames < 2 ^ 32
  pub words : (i : ℕ) (f : RawFrame) → get_elem? frames i ≡ some f → IsWord f

abbrev pub AllStacks : List (ℕ × List RawFrame) → Type 0
AllStacks = All (λ (w : ℕ × List RawFrame). IsStack w.0 w.1)

-- The record of a walk.
abbrev pub bytes_of : ℕ × List RawFrame → List ℕ
bytes_of (tid, frames) = record_bytes tid (length frames) frames

-- The frames of a view from `i` on.
abbrev Reads : RecordView → ℕ → List RawFrame → Type 0
Reads view i [] = Unit
Reads view i (f ∷ fs) = (frame view i ≡ some f) × Reads view (suc i) fs

Reads-from :
    (view : RecordView) (i : ℕ) (fs : List RawFrame)
    → ((j : ℕ) (f : RawFrame) → get_elem? fs j ≡ some f → frame view (i + j) ≡ some f)
    → Reads view i fs
Reads-from view i [] h = tt
Reads-from view i (f ∷ fs) h =
    let e : i + 0 ≡ i = omega arith in
    (
      rw e at (h 0 f refl),
      Reads-from view (suc i) fs
          (λ j g at. let e : i + suc j ≡ suc i + j = omega arith in rw e at (h (suc j) g at)),
    )

record-Reads :
    (tid : ℕ) (frames : List RawFrame)
    → IsStack tid frames
    → Reads
        (record { tid = tid; depth = length frames; buf = record_bytes tid (length frames) frames })
        0
        frames
record-Reads tid frames stack = Reads-from _ 0 frames λ j f at.
    let e : 0 + j ≡ j = omega arith in
    rw e (
      frame-bytes tid (length frames) frames stack.tid_fits stack.short (omega arith) j f
        (get_elem?-lt frames j at) at (stack.words j f at))

module _ (resolve : ℕ → String) where
  -- A cache gives what `resolve` gives.
  abbrev pub IsCache : Map ℕ String → Type 0
  IsCache cache = (c : ℕ) (s : String) → Map.get c cache ≡ some s → s ≡ resolve c

  abbrev Knows : Map ℕ String → ℕ → Type 0
  Knows cache c = Map.get c cache ≡ some (resolve c)

  record Caches (cache cache' : Map ℕ String) : Type 0 where
    valid : IsCache cache'
    kept : (c : ℕ) → Knows cache c → Knows cache' c

  -- the frame of the profile for a frame of the walk
  abbrev pub named : RawFrame → Frame
  named f = record { function_name = resolve f.code_object; filename = ""; first_line = 0 }

  cache_symbol_hit :
      (cache : Map ℕ String) (code : ℕ) (s : String)
      → Map.get code cache ≡ some s
      → cache_symbol resolve cache code ≡ cache
  unfolding cache_symbol
  cache_symbol_hit cache code s h = rw (h, cache_symbol)

  cache_symbol_new :
      (cache : Map ℕ String) (code : ℕ)
      → Map.get code cache ≡ none
      → cache_symbol resolve cache code ≡ Map.insert code (resolve code) cache
  unfolding cache_symbol
  cache_symbol_new cache code h = rw (h, cache_symbol)

  insert-Caches :
      (cache : Map ℕ String) (code : ℕ)
      → IsCache cache
      → Caches cache (Map.insert code (resolve code) cache)
        × Knows (Map.insert code (resolve code) cache) code
  insert-Caches cache code valid = (
    record {
      valid =
          λ c s h. ground (arith, get-insert code c (resolve code) cache, ==_iff c code, valid c s);
      kept = λ c h. ground (arith, get-insert code c (resolve code) cache, ==_iff c code);
    },
    ground (arith, get-insert code code (resolve code) cache, ==_iff code code),
  )

  cache_symbol-Caches :
      (cache : Map ℕ String) (code : ℕ)
      → IsCache cache
      → Caches cache (cache_symbol resolve cache code)
        × Knows (cache_symbol resolve cache code) code
  cache_symbol-Caches cache code valid = elim (Option-cases (Map.get code cache)) [
    | inr (s, hit) ↦
        rw (cache_symbol_hit cache code s hit)
          (record { valid = valid; kept = λ c h. h }, hit ∙ ap some (valid code s hit))
    | inl fresh ↦ rw (cache_symbol_new cache code fresh) (insert-Caches cache code valid)
  ]

  abbrev KnowsAll : Map ℕ String → List RawFrame → Type 0
  KnowsAll cache = All (λ (f : RawFrame). Knows cache f.code_object)

  KnowsAll-kept :
      (cache cache' : Map ℕ String) (fs : List RawFrame)
      → Caches cache cache'
      → KnowsAll cache fs
      → KnowsAll cache' fs
  KnowsAll-kept cache cache' [] c h = tt
  KnowsAll-kept cache cache' (f ∷ fs) c h =
      (c.kept f.code_object h.0, KnowsAll-kept cache cache' fs c h.1)

  cache_frames-Caches :
      (view : RecordView) (i : ℕ) (fs : List RawFrame) (cache : Map ℕ String)
      → Reads view i fs
      → IsCache cache
      → (cache' : Map ℕ String) × (cache_frames resolve view i (length fs) cache ≡ some cache')
        × Caches cache cache'
        × KnowsAll cache' fs
  unfolding cache_frames
  cache_frames-Caches view i [] cache reads valid =
      (cache, refl, record { valid = valid; kept = λ c h. h }, tt)
  cache_frames-Caches view i (f ∷ fs) cache reads valid =
      let code = f.code_object in
      let (first, known) = cache_symbol-Caches cache code valid in
      let (cache', run, rest, all) =
        cache_frames-Caches view (suc i) fs (cache_symbol resolve cache code) reads.1 first.valid in
      (
        cache',
        rw reads.0 run,
        record { valid = rest.valid; kept = λ c h. rest.kept c (first.kept c h) },
        (rest.kept code known, all),
      )

  name_frames-named :
      (view : RecordView) (i : ℕ) (fs : List RawFrame) (cache : Map ℕ String)
      → Reads view i fs
      → KnowsAll cache fs
      → name_frames resolve view i (length fs) cache ≡ some (map named fs)
  unfolding name_frames
  name_frames-named view i [] cache reads known = refl
  name_frames-named view i (f ∷ fs) cache reads known =
      rw (reads.0, known.0, name_frames-named view (suc i) fs cache reads.1 known.1)

  -- what the reader is to make of a walk
  abbrev pub sample_of : ℕ × List RawFrame → List Frame × ℕ
  sample_of (tid, frames) = (map named frames, 1)

  drain_record_lem :
      (s : ReaderState) (grant : List ℕ) (view : RecordView) (cache : Map ℕ String)
      (fs : List Frame) (b : ProfileBuilder)
      → parse_record grant ≡ some view
      → cache_frames resolve view 0 view.depth s.symbol_cache ≡ some cache
      → name_frames resolve view 0 view.depth cache ≡ some fs
      → add_sample s.builder fs 1 ≡ some b
      → drain_record resolve s grant ≡ some (record { builder = b; symbol_cache = cache })
  unfolding drain_record
  drain_record_lem s grant view cache fs b parsed cached named_ added =
      rw (parsed, drain_record, cached, named_, added)

  -- A record of a walk is drained into the sample of its names.
  drain_record-written :
      (s : ReaderState) (tid : ℕ) (frames : List RawFrame) (b : ProfileBuilder)
      → IsStack tid frames
      → IsCache s.symbol_cache
      → add_sample s.builder (map named frames) 1 ≡ some b
      → (cache : Map ℕ String) × (drain_record resolve s (bytes_of (tid, frames))
          ≡ some (record { builder = b; symbol_cache = cache }))
        × IsCache cache
  drain_record-written s tid frames b stack valid added =
      let view : RecordView = record {
        tid = tid;
        depth = length frames;
        buf = record_bytes tid (length frames) frames;
      } in
      let reads = record-Reads tid frames stack in
      let (cache, run, c, known) = cache_frames-Caches view 0 frames s.symbol_cache reads valid in
      (
        cache,
        drain_record_lem s (bytes_of (tid, frames)) view cache (map named frames) b
            (parse_record-bytes tid (length frames) frames stack.tid_fits stack.short (omega arith))
            run (name_frames-named view 0 frames cache reads known) added,
        c.valid,
      )

  pub drain_queue-written :
      (s : ReaderState) (stacks : List (ℕ × List RawFrame)) (b : ProfileBuilder)
      → AllStacks stacks
      → IsCache s.symbol_cache
      → add_samples s.builder (map sample_of stacks) ≡ some b
      → (cache : Map ℕ String) × (drain_queue resolve s (map bytes_of stacks)
          ≡ some (record { builder = b; symbol_cache = cache }))
        × IsCache cache
  unfolding drain_queue add_samples
  drain_queue-written s [] b all valid added = (s.symbol_cache, ground (arith, added), valid)
  drain_queue-written s ((tid, frames) ∷ stacks) b all valid added =
      let (b₁, first, later) =
        option_bind-eq_some (add_sample s.builder (map named frames) 1) _ added in
      let (cache₁, run, valid₁) = drain_record-written s tid frames b₁ all.0 valid first in
      let (cache₂, runs, valid₂) =
        drain_queue-written (record { builder = b₁; symbol_cache = cache₁ }) stacks b all.1 valid₁
          later in
      (cache₂, rw run runs, valid₂)
