-- ===== src/Pysignalprof/Start.antt =====
-- kit/pysignalprof/src/lib.rs: the start of the profiler, which can be called again after a failure, and
-- its C interface (kit/pysignalprof_capi/src/lib.rs). The record `Environment` has what the calls of the
-- system and of other parts give. The offsets of asyncio, which nothing reads, and log output are left out.
use pyroscope_rs.Base.{
  ℕ, zero, suc, String, Bool, true, false, List, [], ◌∷◌, ◌++◌, Option, none, some, eqb,
  if◌then◌else◌, ◌==◌,
}
use pyroscope_rs.Base.Equality.{string_eq}
use pyroscope_rs.Pysignalprof.{Shard, HandlerState}
use pyroscope_rs.PythonOffsets
use pyroscope_rs.PythonOffsets.{PythonVersion}
use pyroscope_rs.PythonOffsets.Maps.{PythonBinary}
use pyroscope_rs.PythonOffsets.Symbols.{ElfSymbols}
use pyroscope_rs.PythonOffsetsTypes.Py314.{DebugOffsets}
use pyroscope_rs.Unwind.{RawFrame, max_depth}

pub data InitError : Type 0 where
  kindasafe_init : InitError
  python_not_found : InitError
  symbol_not_found : InitError
  debug_offsets_mismatch : InitError
  unsupported_version : InitError
  alloc_failed : InitError
  signal_handler : InitError
  already_running : InitError
  kindasafe_sanity_check : InitError

-- `code as c_int`
abbrev pub code : InitError → ℕ
code kindasafe_init = 1
code python_not_found = 2
code symbol_not_found = 3
code debug_offsets_mismatch = 4
code unsupported_version = 5
code alloc_failed = 7
code signal_handler = 8
code already_running = 9
code kindasafe_sanity_check = 10

unfoldable pub map_init_error : PythonOffsets.InitError → InitError
map_init_error PythonOffsets.kindasafe_init_failed = kindasafe_init
map_init_error PythonOffsets.python_not_found = python_not_found
map_init_error PythonOffsets.io = python_not_found
map_init_error (PythonOffsets.symbol_not_found _) = symbol_not_found
map_init_error PythonOffsets.elf_parse = symbol_not_found
map_init_error PythonOffsets.debug_offsets_mismatch = debug_offsets_mismatch
map_init_error PythonOffsets.unsupported_version = unsupported_version

-- `Result<T, InitError>`
pub data Checked (A : Type 0) : Type 0 where
  good : A → Checked A
  bad : InitError → Checked A

infixl 5 ◌>>=◌
abbrev pub ◌>>=◌ : {A B : Type 0} → Checked A → (A → Checked B) → Checked B
good a >>= f = f a
bad e >>= f = bad e

abbrev pub mapped : {A : Type 0} → PythonOffsets.Result A → Checked A
mapped (PythonOffsets.ok a) = good a
mapped (PythonOffsets.err e) = bad (map_init_error e)

abbrev pub succeeds : Bool → InitError → Checked (Unit {0})
succeeds true e = good tt
succeeds false e = bad e

pub record Environment : Type 0 where
  pub kindasafe : Bool
  pub binary : PythonOffsets.Result PythonBinary
  pub symbols : PythonBinary → PythonOffsets.Result ElfSymbols
  pub read : ℕ → Option ℕ
  pub size : ℕ
  pub layout : List ℕ → DebugOffsets
  pub slice : ℕ → ℕ → Option (List ℕ)
  pub split : ℕ → Bool
  pub eventfd : Bool
  pub spawns : Bool
  pub sigaction : Bool
  pub sanity : Bool
  pub timer : Bool

-- The globals of the process. `readers` are the reader threads that were spawned; none of them ends.
pub record Globals : Type 0 where
  pub running : Bool
  pub log_enabled : Bool
  pub handler_state : Option HandlerState
  pub readers : List HandlerState
  pub handler_installed : Bool
  pub timer_started : Bool

pub record Config : Type 0 where
  pub app_name : String
  pub server_url : Option String
  pub num_shards : ℕ
  pub log_enabled : Bool
  pub tags : List (String × String)

abbrev pub default_num_shards : ℕ
default_num_shards = 16

abbrev pub default_notify_interval : ℕ
default_notify_interval = 32

-- the queues of the shards from `i` on
unfoldable pub splits : (ℕ → Bool) → ℕ → ℕ → Bool
splits split i zero = true
splits split i (suc n) = let rest = splits split (suc i) n in if split i then rest else false

abbrev pub empty_frame : RawFrame
empty_frame = record { code_object = 0; instr_offset = 0 }

abbrev pub repeated {ℓ} : {A : Type ℓ} → ℕ → A → List A
repeated zero a = []
repeated (suc n) a = a ∷ repeated n a

-- a shard of step 9: not locked, an empty queue
abbrev pub new_shard : Shard
new_shard = record { locked = false; frame_buffer = repeated max_depth empty_frame; queue = [] }

-- `init_sequence` up to step 9: the state that is to be published
unfoldable pub prepare : Environment → Config → ℕ → Checked HandlerState
unfolding splits
prepare env config num_shards = do
  _ ← succeeds env.kindasafe kindasafe_init
  binary ← mapped env.binary
  symbols ← mapped (env.symbols binary)
  version ← mapped (PythonOffsets.detect_version env.read symbols.py_version_addr)
  version_hex ← mapped (PythonOffsets.read_version_hex env.read symbols.py_version_addr)
  debug_offsets ← mapped (
      PythonOffsets.read_debug_offsets env.size env.layout env.slice symbols.py_runtime_addr version
        version_hex)
  _ ← succeeds (splits env.split 0 num_shards) alloc_failed
  _ ← succeeds env.eventfd alloc_failed
  good (record {
    debug_offsets = debug_offsets;
    code_type = symbols.py_code_type_addr;
    shards = repeated num_shards new_shard;
    samples_since_notify = 0;
    num_shards = num_shards;
    notify_interval = default_notify_interval;
    app_name = config.app_name;
    server_url = config.server_url;
    tags = config.tags;
  })

-- steps 10 to 13, each of which changes the process
unfoldable pub publish : Environment → HandlerState → Globals → Checked (Unit {0}) × Globals
publish env state g =
    let published = record g { handler_state = some state } in
    let spawned = record published { readers = g.readers ++ state ∷ [] } in
    let installed = record spawned { handler_installed = true } in
    if env.spawns
    then if env.sigaction
      then if env.sanity
        then if env.timer
          then (good tt, record installed { timer_started = true })
          else (bad signal_handler, installed)
        else (bad kindasafe_sanity_check, installed)
      else (bad signal_handler, spawned)
    else (bad alloc_failed, published)

unfoldable pub init_sequence : Environment → Config → ℕ → Globals → Checked (Unit {0}) × Globals
init_sequence env config num_shards g = elim (prepare env config num_shards) [
  | bad e ↦ (bad e, g)
  | good state ↦ publish env state g
]

abbrev pub shards_or_default : ℕ → ℕ
shards_or_default n = if eqb n 0 then default_num_shards else n

-- the `match` on the result of `init_sequence`
abbrev pub settle : Checked (Unit {0}) × Globals → Checked (Unit {0}) × Globals
settle (good _, g) = (good tt, g)
settle (bad e, g) = (bad e, record g { running = false })

unfoldable pub start : Environment → Config → Globals → Checked (Unit {0}) × Globals
start env config g =
    if g.running
    then (bad already_running, g)
    else settle (
        init_sequence env config (shards_or_default config.num_shards) (record g {
          running = true;
          log_enabled = if config.log_enabled then true else g.log_enabled;
        }))

-- `pyroscope_start`: `none` is a null pointer, and the number of shards is a C integer as a sign and a
-- magnitude
unfoldable pub pyroscope_start :
    Environment → Option String → Option String → Bool × ℕ → Bool → Globals → ℕ × Globals
pyroscope_start env app_name server_url (negative, magnitude) log_enabled g = answer (
    start env
      (record {
        app_name = name app_name;
        server_url = address server_url;
        num_shards = if negative then 0 else magnitude;
        log_enabled = log_enabled;
        tags = [];
      })
      g)
  where
    name : Option String → String
    name none = ""
    name (some s) = s

    address : Option String → Option String
    address none = none
    address (some s) = if s == "" then none else some s

    answer : Checked (Unit {0}) × Globals → ℕ × Globals
    answer (good _, g') = (0, g')
    answer (bad e, g') = (code e, g')
