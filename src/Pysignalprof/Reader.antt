-- ===== src/Pysignalprof/Reader.antt =====
-- kit/pysignalprof/src/lib.rs: the reader thread takes the records of the shards, names their frames and
-- adds them to the profile, which is encoded and sent every 15 seconds. `none` is a panic. `resolve` stands for
-- `resolve_function_name` as a text, on a memory that does not change between two flushes.
use pyroscope_rs.Base.{
  ℕ, zero, suc, ◌-◌, ◌%◌, ◌^◌, String, List, [], ◌∷◌, Option, none, some, option_bind,
  if◌then◌else◌, ltb,
}
use pyroscope_rs.Base.Equality.{nat_eq}
use pyroscope_rs.Base.Map
use pyroscope_rs.Base.Map.{Map}
use pyroscope_rs.PprofEnc
use pyroscope_rs.PprofEnc.{Frame, Profile, ProfileBuilder, add_sample}
use pyroscope_rs.Pysignalprof.{Shard, HandlerState}
use pyroscope_rs.SigRing.{RecordView, frame, parse_record}

-- the variables of the thread that a round of the loop changes
pub record ReaderState : Type 0 where
  pub builder : ProfileBuilder
  pub symbol_cache : Map ℕ String

abbrev pub flush_interval_nanos : ℕ
flush_interval_nanos = 15000000000

abbrev pub period : ℕ
period = 10000000

-- before the loop
unfoldable pub reader_start : ReaderState
reader_start = record { builder = PprofEnc.new 0 flush_interval_nanos period; symbol_cache = [] }

module _ (resolve : ℕ → String) where
  -- `symbol_cache.entry(code_object).or_insert_with(…)`
  unfoldable pub cache_symbol : Map ℕ String → ℕ → Map ℕ String
  cache_symbol cache code = elim (Map.get code cache) [
    | some _ ↦ cache
    | none ↦ Map.insert code (resolve code) cache
  ]

  -- the mutable pass over the frames from `i` on
  unfoldable pub cache_frames : RecordView → ℕ → ℕ → Map ℕ String → Option (Map ℕ String)
  cache_frames view i zero cache = some cache
  cache_frames view i (suc n) cache =
      option_bind (frame view i)
        λ raw. cache_frames view (suc i) n (cache_symbol cache raw.code_object)

  -- the immutable pass
  unfoldable pub name_frames : RecordView → ℕ → ℕ → Map ℕ String → Option (List Frame)
  name_frames view i zero cache = some []
  name_frames view i (suc n) cache = option_bind (frame view i) λ raw.
      option_bind (Map.get raw.code_object cache) λ name.
        option_bind (name_frames view (suc i) n cache)
          λ frames. some (record { function_name = name; filename = ""; first_line = 0 } ∷ frames)

  -- a record of the queue; one that does not parse is released unread
  unfoldable pub drain_record : ReaderState → List ℕ → Option ReaderState
  drain_record s grant = elim (parse_record grant) [
    | none ↦ some s
    | some view ↦ option_bind (cache_frames view 0 view.depth s.symbol_cache) λ cache.
        option_bind (name_frames view 0 view.depth cache) λ frames.
          option_bind (add_sample s.builder frames 1)
            λ builder. some (record { builder = builder; symbol_cache = cache })
  ]

  unfoldable pub drain_queue : ReaderState → List (List ℕ) → Option ReaderState
  drain_queue s [] = some s
  drain_queue s (grant ∷ queue) = option_bind (drain_record s grant) λ s'. drain_queue s' queue

  -- all shards in turn, each emptied
  unfoldable pub drain_shards : ReaderState → List Shard → Option (ReaderState × List Shard)
  drain_shards s [] = some (s, [])
  drain_shards s (shard ∷ shards) = option_bind (drain_queue s shard.queue) λ s'.
      option_bind (drain_shards s' shards)
        λ (s'', emptied). some (s'', record shard { queue = [] } ∷ emptied)

  -- the seconds from which and to which a profile is sent, with `saturating_sub`, if there is a server
  abbrev pub sent_window : Option String → ℕ → Option (ℕ × ℕ)
  sent_window none now_secs = none
  sent_window (some url) now_secs = some (now_secs - 15, now_secs)

  -- `flush_pprof`: the profile that is encoded, and from which second to which it is sent, if it is sent;
  -- `now_secs` and `now_nanos` are the readings of the clock
  unfoldable pub flush_pprof :
      HandlerState → ℕ → ℕ → ProfileBuilder → Option (Profile × Option (ℕ × ℕ)) × ProfileBuilder
  flush_pprof state now_secs now_nanos b =
      let (profile, taken) = PprofEnc.encode b in
      if PprofEnc.is_empty b then (none, b) else (
        some (profile, sent_window state.server_url now_secs),
        PprofEnc.reset taken (now_nanos % 2 ^ 64) flush_interval_nanos,
      )

  -- A round of the loop. The clocks show `elapsed` nanoseconds since the last flush when it is decided.
  unfoldable pub reader_round :
      HandlerState
      → ℕ
      → ℕ
      → ℕ
      → ReaderState
      → Option (Option (Profile × Option (ℕ × ℕ)) × ReaderState × List Shard)
  unfolding drain_shards flush_pprof
  reader_round state elapsed now_secs now_nanos s =
      option_bind (drain_shards s state.shards) λ (s', shards).
        if ltb elapsed flush_interval_nanos
        then some (none, s', shards)
        else let (flushed, builder) = flush_pprof state now_secs now_nanos s'.builder in
          some (flushed, record { builder = builder; symbol_cache = [] }, shards)
