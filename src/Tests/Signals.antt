-- ===== src/Tests/Signals.antt =====
-- Runs of the signal profiler (kit/pysignalprof/src/lib.rs): the handler on the thread of Tests/Walks.antt,
-- a window of the reader, names in UCS data, and starts.
use pyroscope_rs.Base.{
  ℕ, zero, suc, All, ◌*◌, ◌^◌, ◌<◌, ◌≡◌, refl, Bool, true, false, List, [], ◌∷◌, ◌++◌, Option, none,
  some, length, get_elem?, take, arith, ap, option_bind, min, String,
}
use pyroscope_rs.Base.Bytes.{to_le_bytes, from_le_bytes}
use pyroscope_rs.Base.Map
use pyroscope_rs.PprofEnc
use pyroscope_rs.PprofEnc.{Frame, Profile}
use pyroscope_rs.PprofEnc.Encode.{IsProfile, profile_frame, expected, add_samples}
use pyroscope_rs.PprofEnc.Samples.{total_of}
use pyroscope_rs.Pysignalprof.{Shard, HandlerState, handle}
use pyroscope_rs.Pysignalprof.Drained.{IsStack, AllStacks, bytes_of}
use pyroscope_rs.Pysignalprof.Flush.{reader_round-flushes, reader_round_idle}
use pyroscope_rs.Pysignalprof.Handled.{IsReady}
use pyroscope_rs.Pysignalprof.Lifecycle.{IsNew-IsReady, Settles, start-Settles, starts, start_leaks}
use pyroscope_rs.Pysignalprof.Reader.{ReaderState, reader_round, flush_interval_nanos, sent_window}
use pyroscope_rs.Pysignalprof.Sampled.{Samples, handle-Holds}
use pyroscope_rs.Pysignalprof.Start.{
  Environment, Globals, Config, new_shard, repeated, prepare, splits, start, good,
}
use pyroscope_rs.Pysignalprof.Unicode.{read_ucs, units, nonempty}
use pyroscope_rs.Base.Bytes.{to_le_bytes}
use pyroscope_rs.Pysignalprof.Texts.{read_ucs-points_bytes}
use pyroscope_rs.Pysignalprof.Utf8.{chars_of, fitting, read_ucs-fitting}
use pyroscope_rs.Pysignalprof.Window.{Holds, IsWithin}
use pyroscope_rs.PythonOffsets
use pyroscope_rs.PythonOffsets.Maps.{PythonBinary}
use pyroscope_rs.SigRing.RoundTrip.{IsWord}
use pyroscope_rs.Tests.Offsets.{made_up}
use pyroscope_rs.Tests.Walks.{cells, contents, memory, upper, lower, small_chain}
use pyroscope_rs.Unwind.{RawFrame}
use pyroscope_rs.Unwind.Chains.{chain_length}

abbrev zeros : ℕ → List ℕ
zeros n = repeated n 0

length-zeros : (n : ℕ) → length (zeros n) ≡ n
length-zeros zero = refl
length-zeros (suc n) = ap suc (length-zeros n)

-- a queue that always has room
abbrev roomy : List (List ℕ) → ℕ → Option (List ℕ)
roomy q n = some (zeros n)

roomy-length :
    (q : List (List ℕ)) (n : ℕ) (bytes : List ℕ) → roomy q n ≡ some bytes → length bytes ≡ n
roomy-length q n bytes h =
    let e : zeros n ≡ bytes = ground (arith, h) in
    ground (arith, length-zeros n, ap (λ (x : List ℕ). length x) e)

cells-words :
    (l : List (ℕ × ℕ)) (a v : ℕ)
    → All (λ (e : ℕ × ℕ). e.1 < 2 ^ 64) l
    → cells l a ≡ some v
    → v < 2 ^ 64
cells-words [] a v h e = cc
cells-words ((c, w) ∷ l) a v h e = ground (arith, cells-words l a v h.1, e)

memory-words : (a v : ℕ) → memory a ≡ some v → v < 2 ^ 64
memory-words a v h = cells-words contents a v (omega arith) h

abbrev state : HandlerState
state = record {
  debug_offsets = made_up;
  code_type = 9;
  shards = repeated 2 new_shard;
  samples_since_notify = 0;
  num_shards = 2;
  notify_interval = 32;
  app_name = "app";
  server_url = none;
  tags = [];
}

state-IsReady : IsReady state
state-IsReady =
    IsNew-IsReady 2 state (λ e. absurd (omega arith))
      (record { counted = refl; shards = refl; interval = refl })

handle-Holds_example :
    (s' : HandlerState) × (notified : Bool) × (stackss' : List (List (ℕ × List RawFrame))) × (handle
        roomy memory state 4 1000 77
      ≡ some (s', notified))
    × Holds s'.shards stackss'
    × All AllStacks stackss'
    × Samples roomy 77 (take 128 (upper ∷ lower ∷ [])) state s' notified ([] ∷ [] ∷ []) stackss'
handle-Holds_example =
    handle-Holds roomy memory state 4 1000 77 2000 upper (lower ∷ []) ([] ∷ [] ∷ []) small_chain
      roomy-length memory-words state-IsReady (refl, (refl, tt)) (tt, (tt, tt)) (omega arith)
      (λ e. absurd (omega arith)) refl (unfold chain_length in omega arith)

-- a shard with one record, of one frame
abbrev one_walk : ℕ × List RawFrame
one_walk = (77, upper ∷ [])

one_walk-words : (i : ℕ) (f : RawFrame) → get_elem? (upper ∷ []) i ≡ some f → IsWord f
one_walk-words zero f h = ground (arith, h)
one_walk-words (suc i) f h = cc

one_walk-IsStack : IsStack 77 (upper ∷ [])
one_walk-IsStack = record { tid_fits = omega arith; short = omega arith; words = one_walk-words }

abbrev sampled : HandlerState
sampled = record state { shards = record new_shard { queue = bytes_of one_walk ∷ [] } ∷ [] }

abbrev name_of : ℕ → String
name_of code = "f"

abbrev reader : ReaderState
reader = record { builder = PprofEnc.new 1000 15000000000 10000000; symbol_cache = [] }

nothing-IsWithin : IsWithin name_of 1000 15000000000 10000000 [] reader
nothing-IsWithin = record {
  added = unfold add_samples in refl;
  cached = λ c s h. unfold Map.get in cc h;
}

abbrev named_frame : Frame
named_frame = record { function_name = "f"; filename = ""; first_line = 0 }

reader_round-flushes_example :
    (profile : Profile) × (shards : List Shard) × (reader_round name_of sampled flush_interval_nanos
        50 2000 reader
      ≡ some (
        some (profile, sent_window name_of none 50),
        record { builder = PprofEnc.new 2000 flush_interval_nanos 10000000; symbol_cache = [] },
        shards,
      ))
    × IsProfile profile
    × (total_of (profile_frame profile) profile.sample (named_frame ∷ [])
        ≡ expected 10000000 0 ((named_frame ∷ [], 1) ∷ []) (named_frame ∷ []))
    × (profile.time_nanos ≡ 1000)
    × All (λ (shard : Shard). shard.queue ≡ []) shards
reader_round-flushes_example =
    reader_round-flushes name_of 1000 15000000000 10000000 flush_interval_nanos 50 2000 [] sampled
      reader ((one_walk ∷ []) ∷ []) (named_frame ∷ [], 1) [] (named_frame ∷ [])
      (record {
        within = nothing-IsWithin;
        holds = (refl, tt);
        stacks = ((one_walk-IsStack, tt), tt);
      })
      (omega arith) refl

reader_round_idle_example :
    (s' : ReaderState) × (shards : List Shard) × (reader_round name_of state 20000000000 50 2000
        reader
      ≡ some (none, s', shards))
    × IsWithin name_of 1000 15000000000 10000000 [] s'
    × (s'.builder ≡ PprofEnc.new 1000 15000000000 10000000)
reader_round_idle_example =
    reader_round_idle name_of 1000 15000000000 10000000 20000000000 50 2000 state reader
      ([] ∷ [] ∷ [])
      (record { within = nothing-IsWithin; holds = (refl, (refl, tt)); stacks = (tt, (tt, tt)) })
      (omega arith) refl

-- "é", then a surrogate
abbrev two_units : ℕ → ℕ → Option (List ℕ)
two_units addr n = some (0xE9 ∷ 0 ∷ 0 ∷ 0xD8 ∷ [])

read_ucs-fitting_example :
    read_ucs two_units 2 128 256 4096 2
    ≡ option_bind
        (two_units 4096 (min 2 128 * 2))
        λ raw. nonempty (fitting 256 (chars_of (units 2 (min 2 128) raw)))
read_ucs-fitting_example = read_ucs-fitting two_units 2 128 256 4096 2

read_ucs-points_bytes_example :
    read_ucs two_units 2 128 256 4096 2 ≡ nonempty (fitting 256 (chars_of (0xE9 ∷ 0xD800 ∷ [])))
unfolding to_le_bytes
read_ucs-points_bytes_example =
    read_ucs-points_bytes two_units 2 128 256 4096 2 (0xE9 ∷ 0xD800 ∷ []) refl
      (omega arith, (omega arith, tt)) refl

-- an interpreter that is found, and a sanity check that fails
abbrev version_hex : ℕ
version_hex = 0x030E_00F0

abbrev binary : PythonBinary
binary = record { path = "/usr/bin/python3.14"; base = 4096 }

abbrev insane : Environment
insane = record {
  kindasafe = true;
  binary = PythonOffsets.ok binary;
  symbols = λ b. PythonOffsets.ok (record {
    py_runtime_addr = 8192;
    py_version_addr = 8200;
    py_code_type_addr = 9;
    get_tstate_addr = 8300;
  });
  read = λ a. some version_hex;
  size = 24;
  layout = λ bytes. made_up;
  slice = λ n a. some (to_le_bytes 8 PythonOffsets.cookie ++ to_le_bytes 8 version_hex ++ zeros 8);
  split = λ i. true;
  eventfd = true;
  spawns = true;
  sigaction = true;
  sanity = false;
  timer = true;
}

abbrev idle : Globals
idle = record {
  running = false;
  log_enabled = false;
  handler_state = none;
  readers = [];
  handler_installed = false;
  timer_started = false;
}

abbrev config : Config
config = record {
  app_name = "app";
  server_url = none;
  num_shards = 2;
  log_enabled = false;
  tags = [];
}

prepared : prepare insane config 2 ≡ good state
unfolding prepare splits to_le_bytes from_le_bytes PythonOffsets.detect_version
    PythonOffsets.parse_version PythonOffsets.check_version PythonOffsets.read_version_hex
    PythonOffsets.read_debug_offsets PythonOffsets.parse_repr_c
prepared = refl

start-Settles_example : Settles config idle (start insane config idle)
start-Settles_example = start-Settles insane config idle

start_leaks_example :
    (length (starts 3 insane config idle).readers ≡ 3)
    × ((starts 3 insane config idle).handler_state ≡ some state)
    × ((starts 3 insane config idle).handler_installed ≡ true)
    × ((starts 3 insane config idle).running ≡ false)
start_leaks_example = start_leaks insane config idle state 2 prepared refl refl refl refl
