-- ===== src/Lib.antt =====
-- The profiling client of pyroscope-rs and the kit of its signal-based Python profiler.
--
-- The program samples stacks, counts them, and sends profiles in the pprof format. The agent
-- (src/pyroscope.rs) runs a timer that ticks every ten seconds, a main thread that asks the backend for
-- its reports at each tick, and a session manager that encodes the reports of a window and sends them. A
-- backend fills a buffer of counted stack traces, makes reports from it by the tags of the traces, and
-- tags are added by rules for threads (src/backend). The signal profiler works without the interpreter: a
-- signal handler walks the frames of the interrupted Python thread (python_unwind) with the offsets that
-- CPython publishes (python_offsets_types), writes the walk into a ring as a record (sig_ring), and a
-- reader thread takes the records, names the frames and builds the profile of a window (pprof_enc).
--
-- What is modelled, by file:
--   Agent: src/pyroscope.rs with the threads of src/session.rs and src/timer. A `System` holds the agent,
--     its channels and its threads; `step` lets one of them go on to its next contact with the others,
--     and `run` is a list of such events, an interleaving. `IsFair` of Agent.Schedules counts how many turns
--     the main thread and the manager need: a signal may wait for a place in the channel of ten sessions,
--     so the bound counts the signals and the sessions that wait.
--   Config, Session, Timer, Utils, Errors: src/pyroscope.rs (the configuration), src/session.rs,
--     src/timer/mod.rs and src/timer/epoll.rs, src/utils.rs, src/error.rs. The clock, libc, prost, gzip
--     and the HTTP client are arguments. Times are u64 and wrap.
--   Ffikit: src/ffikit.rs. The mailbox of the bindings and its thread, whose steps stand beside those of
--     the agent in a list of events.
--   Bindings: pyroscope_ffi/python/rust/src/lib.rs, the text of tags.
--   BackendImpl: src/backend/backend.rs, the trait as a record of operations and its holder.
--   Pprof: src/backend/pprof.rs, over a record for the profiler of pprof-rs.
--   Pyspy: pyroscope_ffi/python/rust/src/backend.rs, over the traces that py-spy gives.
--   Pysignalprof: kit/pysignalprof/src/lib.rs. The handler is a function on the shards, whose queues are
--     lists of records; the fuel is that of the walk. `Pysignalprof.Reader` has a round of the reader
--     thread, with the readings of the clocks as arguments; `Pysignalprof.Unicode` reads names out of the
--     interpreter's memory, with `str` of kit/kindasafe/src/lib.rs; `Pysignalprof.Start` is the start on
--     the globals of the process, and kit/pysignalprof_capi/src/lib.rs.
--   PprofEnc: kit/pprof_enc/src/lib.rs. `ProfileBuilder` and its tables are records, the hash maps are
--     association lists, and each method is a function that returns the builder after it. An i64 is
--     kept as its bit pattern, and sums and products wrap at 64 bits as in a release build; `none` is
--     a panic. `encode` yields the message that is handed to prost.
--   Unwind: kit/python_unwind/src/lib.rs. The loop of `unwind` is a recursion on fuel, one unit for a
--     round; `Unwind.Bounds` and `Unwind.Chains` say how much is enough. The process memory is a
--     function that fails or gives eight bytes, and it does not change during one walk.
--   PythonOffsetsTypes: kit/python_offsets_types/src, the layouts of 3.13 and 3.14 and the conversion.
--   SigRing: kit/sig_ring/src/lib.rs. The queue of bbqueue is a function that grants bytes or refuses;
--     the committed bytes are those that the reader gets. Numbers are little-endian with 64-bit usize.
--   Backend: src/backend/types.rs and src/backend/ruleset.rs. The data maps of buffers and reports are
--     association lists (`counts`), the hasher of the standard library is a parameter, and a count is a
--     usize that wraps. Mutexes guard single operations and are not modelled.
--   PythonOffsets: kit/python_offsets/src/lib.rs. The version and the header of the offsets are read
--     through a parameter for kindasafe, lines of /proc/self/maps are lists of bytes, and
--     `PythonOffsets.Symbols` takes the segments and symbols that the object crate lists.
--   Coredump: kit/coredump/src. The object crate's view of the file is the argument: the program headers,
--     and the notes as their iterators give them. An `Outcome` is a result or a panic.
--   Encode: src/encode/pprof.rs. `add_row` is the body that the three interning methods share, the loops
--     of `encode` are functions from the builder to the builder after them, and a failed assertion or
--     a division by a sample rate of 0 is `none`.
--   Base: Booleans, equality, lists and maps that all parts use; Base.Index is the pattern of a table
--     beside a map of its rows by which the builders intern.
--   Tests: runs of the models at concrete inputs.
--
-- Not modelled: the protobuf bytes, HTTP and the timers on kqueue and sleep, which are libraries and
-- system calls; the assembly of kindasafe; the bindings for Python and Ruby but for the py-spy backend,
-- the text of tags and the mailbox; poisoned locks, as a panic under a lock ends the part that it is in;
-- logs and printing.
pub mod Agent
pub mod Backend
pub mod BackendImpl
pub mod Base
pub mod Bindings
pub mod Config
pub mod Coredump
pub mod Encode
pub mod Errors
pub mod Ffikit
pub mod Pprof
pub mod PprofEnc
pub mod Pysignalprof
pub mod Pyspy
pub mod PythonOffsets
pub mod PythonOffsetsTypes
pub mod Session
pub mod SigRing
mod Tests
pub mod Timer
pub mod Unwind
pub mod Utils
