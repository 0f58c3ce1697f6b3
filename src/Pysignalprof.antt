-- ===== src/Pysignalprof.antt =====
-- kit/pysignalprof/src/lib.rs: the state of the signal profiler and its SIGPROF handler. `grant` stands for
-- bbqueue's write grant on a queue with some records in it, and `read` for `kindasafe::u64`. A shard's
-- lock is whether somebody else holds it when the signal comes. `none` is a panic, or a walk that runs
-- out of fuel. Log and debug output is left out.
pub mod Unicode
pub mod Utf8
pub mod Texts
pub mod Reader
pub mod Handled
pub mod Drained
pub mod Window
pub mod Flush
pub mod Sampled
pub mod Start
pub mod Lifecycle
use pyroscope_rs.Base.{
  ℕ, zero, suc, ◌+◌, ◌%◌, ◌^◌, String, Bool, true, false, List, [], ◌∷◌, ◌++◌, Option, none, some,
  length, get_elem?, set, eqb, if◌then◌else◌, option_bind,
}
use pyroscope_rs.PythonOffsetsTypes.Py314.{DebugOffsets}
use pyroscope_rs.SigRing.{Write, refused, committed, panicked, write}
use pyroscope_rs.Unwind.{RawFrame, Walk, unwind}

-- A shard, with the records that its consumer has not read.
pub record Shard : Type 0 where
  pub locked : Bool
  pub frame_buffer : List RawFrame
  pub queue : List (List ℕ)

pub record HandlerState : Type 0 where
  pub debug_offsets : DebugOffsets
  pub code_type : ℕ
  pub shards : List Shard
  pub samples_since_notify : ℕ
  pub num_shards : ℕ
  pub notify_interval : ℕ
  pub app_name : String
  pub server_url : Option String
  pub tags : List (String × String)

-- the attempts to lock a shard: the index of the first one that is free
unfoldable pub try_shards : List Shard → ℕ → ℕ → ℕ → ℕ → Option (Option ℕ)
try_shards shards num_shards base zero attempt = some none
try_shards shards num_shards base (suc left) attempt =
    elim (get_elem? shards ((base + attempt) % num_shards)) [
      | none ↦ none
      | some shard ↦ elim shard.locked [
        | true ↦ try_shards shards num_shards base left (suc attempt)
        | false ↦ some (some ((base + attempt) % num_shards))
      ]
    ]

-- `fetch_add` on the counter, and whether the reader is notified
unfoldable pub notify : HandlerState → Option (HandlerState × Bool)
notify s =
    if eqb s.notify_interval 0
    then none
    else some (
      record s { samples_since_notify = (s.samples_since_notify + 1) % 2 ^ 32 },
      eqb (s.samples_since_notify % s.notify_interval) 0,
    )

module _ (grant : List (List ℕ) → ℕ → Option (List ℕ)) (read : ℕ → Option ℕ) where
  -- what is done with a walk, in the shard of an index
  unfoldable pub record_walk : HandlerState → ℕ → ℕ → Shard → Walk → Option (HandlerState × Bool)
  record_walk s tid idx shard w =
      let unwound = record shard { frame_buffer = w.buf } in
      let s' = record s { shards = set s.shards idx unwound } in
      if eqb w.depth 0
      then some (s', false)
      else elim (write (grant shard.queue) tid w.buf w.depth) [
        | refused ↦ notify s'
        | committed bytes ↦ notify (record s {
          shards = set s.shards idx (record unwound { queue = shard.queue ++ bytes ∷ [] });
        })
        | panicked ↦ none
      ]

  -- from the lock of a shard on
  unfoldable pub sample : HandlerState → ℕ → ℕ → ℕ → ℕ → Option (HandlerState × Bool)
  sample s fuel tstate tid idx = option_bind (get_elem? s.shards idx) λ shard.
      option_bind (unwind read s.debug_offsets s.code_type fuel tstate shard.frame_buffer)
        λ w. record_walk s tid idx shard w

  -- `on_sigprof` with a state that is there
  unfoldable pub handle : HandlerState → ℕ → ℕ → ℕ → Option (HandlerState × Bool)
  handle s fuel tstate tid =
      if eqb tstate 0
      then some (s, false)
      else if eqb s.num_shards 0
      then none
      else option_bind (try_shards s.shards s.num_shards (tid % s.num_shards) 3 0)
          λ locked. elim locked [ none ↦ some (s, false) | some idx ↦ sample s fuel tstate tid idx ]

  unfoldable pub on_sigprof : Option HandlerState → ℕ → ℕ → ℕ → Option (Option HandlerState × Bool)
  on_sigprof none fuel tstate tid = some (none, false)
  on_sigprof (some s) fuel tstate tid =
      option_bind (handle s fuel tstate tid) λ (s', notified). some (some s', notified)
