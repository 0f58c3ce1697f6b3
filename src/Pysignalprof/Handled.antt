-- ===== src/Pysignalprof/Handled.antt =====
-- What the SIGPROF handler leaves behind (kit/pysignalprof/src/lib.rs).
use native.Mathlib.Nat.{mod-lt}
use pyroscope_rs.Base.{
  ℕ, zero, suc, ◌+◌, ◌%◌, ◌≤◌, ◌<◌, ◌≡◌, refl, ap, ◌∙◌, ◌≢◌, Bool, false, List, [], ◌∷◌, ◌++◌,
  Option, none, some, inl, inr, length, length-append, get_elem?, get_elem?-some, set, take, drop,
  eqb, eqb_iff, ne→eqb, sym, true, ◌*◌, ◌^◌, arith, Option-cases, Bool-cases, subst,
}
use pyroscope_rs.Base.Slices.{take-append_length, take_all, length-take}
use pyroscope_rs.Pysignalprof.{Shard, HandlerState, try_shards, notify, record_walk, sample, handle}
use pyroscope_rs.Pysignalprof.Drained.{bytes_of}
use pyroscope_rs.PythonOffsetsTypes.Py314.{DebugOffsets}
use pyroscope_rs.SigRing.{record_len, write, refused, committed}
use pyroscope_rs.SigRing.Layout.{record_bytes, write-committed}
use pyroscope_rs.Unwind.{RawFrame, Walk, address, max_of, unwind}
use pyroscope_rs.Unwind.Chains.{Chain, chain_length, Collects, unwind-Collects}

-- As `init_sequence` makes it.
pub record IsReady (s : HandlerState) : Type 0 where
  pub counted : s.num_shards ≡ length s.shards
  pub some_shards : s.num_shards ≢ 0
  pub interval : s.notify_interval ≢ 0
  pub buffers :
      (i : ℕ) (shard : Shard) → get_elem? s.shards i ≡ some shard → length shard.frame_buffer ≡ 128

-- The shard of an attempt is locked.
abbrev pub IsTaken : List Shard → ℕ → ℕ → ℕ → Type 0
IsTaken shards num_shards base j =
    (shard : Shard) × (get_elem? shards ((base + j) % num_shards) ≡ some shard)
    × (shard.locked ≡ true)

-- The first of the three shards from that of a thread on that is not locked.
pub record IsFirstFree (s : HandlerState) (tid attempt idx : ℕ) (shard : Shard) : Type 0 where
  pub early : attempt < 3
  pub place : idx ≡ (tid % s.num_shards + attempt) % s.num_shards
  pub there : get_elem? s.shards idx ≡ some shard
  pub free : shard.locked ≡ false
  pub taken : (j : ℕ) → j < attempt → IsTaken s.shards s.num_shards (tid % s.num_shards) j

-- A sample is counted, and the reader is notified at each `notify_interval` of them.
pub record IsCounted (s s' : HandlerState) (notified : Bool) : Type 0 where
  pub total : s'.samples_since_notify ≡ (s.samples_since_notify + 1) % 2 ^ 32
  pub notifies : notified ≡ eqb (s.samples_since_notify % s.notify_interval) 0

-- What the handler of a thread that stood in `frames` does: nothing, if the three shards that it tries are
-- locked; else in the first that is not locked it fills the frame buffer and, if the queue grants room for
-- eight bytes and sixteen for each frame, appends the record of the frames.
pub data Handles (grant : List (List ℕ) → ℕ → Option (List ℕ)) (tid : ℕ) (frames : List RawFrame)
    (s s' : HandlerState) (notified : Bool) : Type 0 where
  contended :
      ((j : ℕ) → j < 3 → IsTaken s.shards s.num_shards (tid % s.num_shards) j)
      → s' ≡ s
      → notified ≡ false
      → Handles grant tid frames s s' notified
  dropped :
      (attempt idx : ℕ) (shard : Shard) (buf : List RawFrame)
      → IsFirstFree s tid attempt idx shard
      → grant shard.queue (8 + length frames * 16) ≡ none
      → s'.shards ≡ set s.shards idx (record shard { frame_buffer = buf })
      → IsCounted s s' notified
      → Handles grant tid frames s s' notified
  recorded :
      (attempt idx : ℕ) (shard : Shard) (buf : List RawFrame) (bytes : List ℕ)
      → IsFirstFree s tid attempt idx shard
      → grant shard.queue (8 + length frames * 16) ≡ some bytes
      → s'.shards
        ≡ set s.shards idx (record shard {
          frame_buffer = buf;
          queue = shard.queue ++ bytes_of (tid, frames) ∷ [];
        })
      → IsCounted s s' notified
      → Handles grant tid frames s s' notified

-- What `try_shards` finds from an attempt on.
data Finds (shards : List Shard) (num_shards base left attempt : ℕ) : Type 0 where
  nothing :
      ((j : ℕ) → attempt ≤ j → j < attempt + left → IsTaken shards num_shards base j)
      → try_shards shards num_shards base left attempt ≡ some none
      → Finds shards num_shards base left attempt
  lock :
      (k : ℕ) (shard : Shard)
      → attempt ≤ k
      → k < attempt + left
      → ((j : ℕ) → attempt ≤ j → j < k → IsTaken shards num_shards base j)
      → try_shards shards num_shards base left attempt ≡ some (some ((base + k) % num_shards))
      → get_elem? shards ((base + k) % num_shards) ≡ some shard
      → shard.locked ≡ false
      → Finds shards num_shards base left attempt

from_first :
    {P : ℕ → Type 0} (attempt bound : ℕ)
    → P attempt
    → ((j : ℕ) → suc attempt ≤ j → j < bound → P j)
    → (j : ℕ) → attempt ≤ j
    → j < bound
    → P j
from_first {P} attempt bound first later j low high = elim (Bool-cases (eqb j attempt)) [
  | inl same ↦ subst P (sym ((eqb_iff j attempt).0 same)) first
  | inr apart ↦ later j (ground (arith, apart)) high
]

try_shards-Finds :
    (shards : List Shard) (num_shards base left attempt : ℕ)
    → num_shards ≡ length shards
    → num_shards ≢ 0
    → Finds shards num_shards base left attempt
unfolding try_shards
try_shards-Finds shards num_shards base zero attempt counted pos =
    nothing (λ j low high. absurd (omega arith)) refl
try_shards-Finds shards num_shards base (suc left) attempt counted pos =
    let idx = (base + attempt) % num_shards in
    let below = mod-lt (base + attempt) {m = num_shards} (omega (arith, pos)) in
    let (shard, there) = get_elem?-some shards idx (omega (arith, below)) in
    elim (Bool-cases shard.locked) [
      | inr free ↦
          lock attempt shard (omega arith) (omega arith) (λ j low high. absurd (omega arith))
            (rw (there, try_shards, free)) there free
      | inl taken ↦ elim (try_shards-Finds shards num_shards base left (suc attempt) counted pos) [
        | nothing all run ↦
            nothing
              (from_first attempt (attempt + suc left) (shard, there, taken)
                (λ j low high. all j low (omega arith)))
              (rw (there, try_shards, taken) run)
        | lock k free_shard low high before run at free ↦
            lock k free_shard (omega arith) (omega arith)
              (from_first attempt k (shard, there, taken) before)
              (rw (there, try_shards, taken) run) at free
      ]
    ]

notify-some :
    (s : HandlerState)
    → s.notify_interval ≢ 0
    → (s' : HandlerState) × (notified : Bool) × (notify s ≡ some (s', notified))
      × (s'.shards ≡ s.shards)
      × IsCounted s s' notified
unfolding notify
notify-some s h =
    rw (ne→eqb s.notify_interval 0 h) (_, _, refl, refl, record { total = refl; notifies = refl })

-- The record of a walk is that of its first frames.
record_bytes-append :
    (tid depth : ℕ) (frames rest : List RawFrame)
    → depth ≡ length frames
    → record_bytes tid depth (frames ++ rest) ≡ bytes_of (tid, frames)
unfolding record_bytes
record_bytes-append tid depth frames rest e = rw (
  e,
  take-append_length (length frames) frames rest refl,
  take_all (length frames) frames (omega arith),
)

module _ (grant : List (List ℕ) → ℕ → Option (List ℕ)) (read : ℕ → Option ℕ)
    (granted : (q : List (List ℕ)) (n : ℕ) (bytes : List ℕ)
      → grant q n ≡ some bytes
      → length bytes ≡ n) where
  record_walk-refused :
      (s : HandlerState) (tid idx : ℕ) (shard : Shard) (w : Walk)
      → eqb w.depth 0 ≡ false
      → write (grant shard.queue) tid w.buf w.depth ≡ refused
      → record_walk grant read s tid idx shard w
        ≡ notify (record s { shards = set s.shards idx (record shard { frame_buffer = w.buf }) })
  unfolding record_walk
  record_walk-refused s tid idx shard w deep full = rw (deep, full, record_walk)

  record_walk-committed :
      (s : HandlerState) (tid idx : ℕ) (shard : Shard) (w : Walk) (bytes : List ℕ)
      → eqb w.depth 0 ≡ false
      → write (grant shard.queue) tid w.buf w.depth ≡ committed bytes
      → record_walk grant read s tid idx shard w
        ≡ notify (record s {
          shards =
              set s.shards idx
                (record shard { frame_buffer = w.buf; queue = shard.queue ++ bytes ∷ [] });
        })
  unfolding record_walk
  record_walk-committed s tid idx shard w bytes deep done = rw (deep, done, record_walk)

  write-refused :
      (q : List (List ℕ)) (tid depth : ℕ) (frames : List RawFrame)
      → grant q (record_len depth) ≡ none
      → write (grant q) tid frames depth ≡ refused
  unfolding write
  write-refused q tid depth frames full = rw (full, write)

  record_walk-Handles :
      (s : HandlerState) (tid attempt idx : ℕ) (shard : Shard) (w : Walk)
      (frames rest : List RawFrame)
      → IsReady s
      → IsFirstFree s tid attempt idx shard
      → w.depth ≡ length frames
      → w.buf ≡ frames ++ rest
      → 0 < length frames
      → length frames ≤ 128
      → (s' : HandlerState) × (notified : Bool) × (record_walk grant read s tid idx shard w
          ≡ some (s', notified))
        × Handles grant tid frames s s' notified
  record_walk-Handles s tid attempt idx shard w frames rest ready first depth buf pos short =
      let size : record_len w.depth ≡ 8 + length frames * 16 =
        unfold record_len in omega (arith, depth) in
      let some_frames : eqb w.depth 0 ≡ false = ne→eqb w.depth 0 (λ e. omega arith) in
      elim (Option-cases (grant shard.queue (record_len w.depth))) [
        | inl full ↦
            let unwound = record s {
              shards = set s.shards idx (record shard { frame_buffer = w.buf });
            } in
            let (s', notified, done, same, counted) = notify-some unwound ready.interval in
            (
              s',
              notified,
              record_walk-refused s tid idx shard w some_frames
                    (write-refused shard.queue tid w.depth w.buf full)
                  ∙ done,
              dropped attempt idx shard w.buf first (rw size at full) same
                  (record { total = counted.total; notifies = counted.notifies }),
            )
        | inr (bytes, got) ↦
            let after = record s {
              shards = set s.shards idx (record shard {
                frame_buffer = w.buf;
                queue = shard.queue ++ bytes_of (tid, frames) ∷ [];
              });
            } in
            let (s', notified, done, same, counted) = notify-some after ready.interval in
            (
              s',
              notified,
              record_walk-committed s tid idx shard w (bytes_of (tid, frames)) some_frames (
                    write-committed (grant shard.queue) tid w.buf w.depth bytes got
                      (granted shard.queue (record_len w.depth) bytes got) (omega arith)
                      (omega (
                        arith,
                        ap (λ (x : List RawFrame). length x) buf,
                        length-append frames rest,
                      ))
                    ∙ ap committed (
                        ap (record_bytes tid w.depth) buf
                        ∙ record_bytes-append tid w.depth frames rest depth))
                  ∙ done,
              recorded attempt idx shard w.buf bytes first (rw size at got) same
                  (record { total = counted.total; notifies = counted.notifies }),
            )
      ]

  take-pos : (k : ℕ) (f : RawFrame) (fs : List RawFrame) → 0 < k → 0 < length (take k (f ∷ fs))
  take-pos zero f fs h = absurd (omega arith)
  take-pos (suc k) f fs h = omega arith

  -- The walk into a buffer of 128 frames.
  walk_128 :
      (offsets : DebugOffsets) (code_type fuel tstate p : ℕ) (buf frames : List RawFrame)
      (chain : Chain read offsets p frames)
      → length buf ≡ 128
      → read (address tstate offsets.thread_state.current_frame) ≡ some p
      → chain_length read offsets chain < fuel
      → (w : Walk) × (rest : List RawFrame) × (unwind read offsets code_type fuel tstate buf
          ≡ some w)
        × (w.depth ≡ length (take 128 frames))
        × (w.buf ≡ take 128 frames ++ rest)
  walk_128 offsets code_type fuel tstate p buf frames chain size entry enough =
      let (w, run, c) =
        unwind-Collects read offsets code_type fuel tstate p buf frames chain entry enough in
      let max : max_of buf ≡ 128 = rw size refl in
      let c' : Collects read offsets [] buf 128 frames w =
        subst (λ m. Collects read offsets [] buf m frames w) max c in
      (w, drop (length (take 128 frames)) buf, run, omega (arith, c'.depth), c'.buf)

  -- The handler on a ready state, in a thread whose interpreter frames are a chain from `p` with at least
  -- one frame of Python code: it does not panic, and what it leaves behind is the record of the first
  -- 128 frames in a queue, or it drops the sample because the queue is full or all the shards that it
  -- tries are locked. The write grant of the queue has the length asked for, and the fuel is more
  -- than the length of the chain.
  pub handle-Handles :
      (s : HandlerState) (fuel tstate tid p : ℕ) (f : RawFrame) (fs : List RawFrame)
      (chain : Chain read s.debug_offsets p (f ∷ fs))
      → IsReady s
      → tstate ≢ 0
      → read (address tstate s.debug_offsets.thread_state.current_frame) ≡ some p
      → chain_length read s.debug_offsets chain < fuel
      → (s' : HandlerState) × (notified : Bool) × (handle grant read s fuel tstate tid
          ≡ some (s', notified))
        × Handles grant tid (take 128 (f ∷ fs)) s s' notified
  unfolding handle sample
  handle-Handles s fuel tstate tid p f fs chain ready there entry enough =
      let base = tid % s.num_shards in
      elim (try_shards-Finds s.shards s.num_shards base 3 0 ready.counted ready.some_shards) [
        | nothing taken run ↦ (
          s,
          false,
          rw (ne→eqb tstate 0 there, ne→eqb s.num_shards 0 ready.some_shards, run),
          contended (λ j high. taken j (omega arith) high) refl refl,
        )
        | lock attempt shard low high taken found at free ↦
            let idx = (base + attempt) % s.num_shards in
            let first : IsFirstFree s tid attempt idx shard = record {
              early = high;
              place = refl;
              there = at;
              free = free;
              taken = λ j below. taken j (omega arith) below;
            } in
            let (w, rest, run, depth, buf) =
              walk_128 s.debug_offsets s.code_type fuel tstate p shard.frame_buffer (f ∷ fs) chain
                (ready.buffers idx shard at) entry enough in
            let (s', notified, done, handles) =
              record_walk-Handles s tid attempt idx shard w (take 128 (f ∷ fs)) rest ready first
                depth buf (take-pos 128 f fs (omega arith))
                (omega (arith, length-take 128 (f ∷ fs))) in
            (
              s',
              notified,
              rw (ne→eqb tstate 0 there, ne→eqb s.num_shards 0 ready.some_shards, found, at, run)
                  done,
              handles,
            )
      ]
