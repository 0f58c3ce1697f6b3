-- ===== src/Pysignalprof/Sampled.antt =====
-- From the handler to the reader: what is in the shards is what the reader relies on
-- (kit/pysignalprof/src/lib.rs).
use pyroscope_rs.Base.{
  ℕ, zero, suc, All, ◌+◌, ◌*◌, ◌%◌, none, false, ◌^◌, ◌<◌, ◌≡◌, refl, sym, ap, ◌∙◌, ◌≢◌, Bool, List,
  [], ◌∷◌, ◌++◌, Option, some, length, get_elem?, set, take, arith,
}
use mathlib.Core.List.{map-append}
use pyroscope_rs.Base.Slices.{length-take}
use pyroscope_rs.Pysignalprof.{Shard, HandlerState, handle}
use pyroscope_rs.Pysignalprof.Drained.{IsStack, AllStacks, bytes_of}
use pyroscope_rs.Pysignalprof.Handled.{
  IsReady, IsTaken, IsFirstFree, IsCounted, contended, dropped, recorded, handle-Handles,
}
use pyroscope_rs.Pysignalprof.Window.{Holds}
use pyroscope_rs.SigRing.RoundTrip.{IsWord}
use pyroscope_rs.PythonOffsetsTypes.Py314.{DebugOffsets}
use pyroscope_rs.Unwind.{RawFrame, address}
use pyroscope_rs.Unwind.Chains.{Chain, root, shim, python, chain_length}

abbrev Stacks : Type 0
Stacks = List (List (ℕ × List RawFrame))

-- Frames read from memory are words.
Chain-words :
    {read : ℕ → Option ℕ} {offsets : DebugOffsets} {p : ℕ} {frames : List RawFrame}
    (words : (a v : ℕ) → read a ≡ some v → v < 2 ^ 64)
    → Chain read offsets p frames
    → (i : ℕ) (f : RawFrame) → get_elem? frames i ≡ some f
    → IsWord f
Chain-words words (root e) i f at = cc
Chain-words words (shim s apart rest) i f at = Chain-words words rest i f at
Chain-words words (python nonzero x apart rest) zero f at =
    let first = words _ _ x.at_executable in
    let second = words _ _ x.at_instr_ptr in ground (arith, at)
Chain-words words (python nonzero x apart rest) (suc i) f at = Chain-words words rest i f at

get_elem?-take :
    (n : ℕ) (xs : List RawFrame) (i : ℕ) (x : RawFrame)
    → get_elem? (take n xs) i ≡ some x
    → get_elem? xs i ≡ some x
get_elem?-take zero xs i x h = cc
get_elem?-take (suc n) [] i x h = cc
get_elem?-take (suc n) (y ∷ ys) zero x h = h
get_elem?-take (suc n) (y ∷ ys) (suc i) x h = get_elem?-take n ys i x h

-- The walks of the shards with one more behind those of a shard.
abbrev pub append_at : Stacks → ℕ → ℕ × List RawFrame → Stacks
append_at [] idx w = []
append_at (stacks ∷ rest) zero w = (stacks ++ w ∷ []) ∷ rest
append_at (stacks ∷ rest) (suc idx) w = stacks ∷ append_at rest idx w

Holds-set :
    (shards : List Shard) (stackss : Stacks) (idx : ℕ) (shard : Shard) (buf : List RawFrame)
    → Holds shards stackss
    → get_elem? shards idx ≡ some shard
    → Holds (set shards idx (record shard { frame_buffer = buf })) stackss
Holds-set [] stackss idx shard buf holds at = cc
Holds-set (x ∷ shards) [] idx shard buf holds at = absurd holds
Holds-set (x ∷ shards) (stacks ∷ rest) zero shard buf holds at =
    ground (arith, at, holds.0, holds.1)
Holds-set (x ∷ shards) (stacks ∷ rest) (suc idx) shard buf holds at =
    (holds.0, Holds-set shards rest idx shard buf holds.1 at)

Holds-append :
    (shards : List Shard) (stackss : Stacks) (idx : ℕ) (shard : Shard) (buf : List RawFrame)
    (w : ℕ × List RawFrame)
    → Holds shards stackss
    → get_elem? shards idx ≡ some shard
    → Holds
        (set shards idx
          (record shard { frame_buffer = buf; queue = shard.queue ++ bytes_of w ∷ [] }))
        (append_at stackss idx w)
Holds-append [] stackss idx shard buf w holds at = cc
Holds-append (x ∷ shards) [] idx shard buf w holds at = absurd holds
Holds-append (x ∷ shards) (stacks ∷ rest) zero shard buf w holds at =
    let same : x ≡ shard = ground (arith, at) in
    (
      ap (λ (y : Shard). y.queue ++ bytes_of w ∷ []) (sym same)
          ∙ ap (λ (q : List (List ℕ)). q ++ bytes_of w ∷ []) holds.0
          ∙ sym (map-append bytes_of stacks (w ∷ [])),
      holds.1,
    )
Holds-append (x ∷ shards) (stacks ∷ rest) (suc idx) shard buf w holds at =
    (holds.0, Holds-append shards rest idx shard buf w holds.1 at)

AllStacks-append :
    (stacks : List (ℕ × List RawFrame)) (w : ℕ × List RawFrame)
    → AllStacks stacks
    → IsStack w.0 w.1
    → AllStacks (stacks ++ w ∷ [])
AllStacks-append [] w all one = (one, tt)
AllStacks-append (x ∷ stacks) w all one = (all.0, AllStacks-append stacks w all.1 one)

append_at-All :
    (stackss : Stacks) (idx : ℕ) (w : ℕ × List RawFrame)
    → All AllStacks stackss
    → IsStack w.0 w.1
    → All AllStacks (append_at stackss idx w)
append_at-All [] idx w all one = tt
append_at-All (stacks ∷ rest) zero w all one = (AllStacks-append stacks w all.0 one, all.1)
append_at-All (stacks ∷ rest) (suc idx) w all one = (all.0, append_at-All rest idx w all.1 one)

-- How a sample of a thread that stood in `frames` changes the walks in the queues: the three shards from
-- that of the thread on are locked, and nothing changes; or the first of them that is not locked takes
-- the sample, which is counted, and whose walk is dropped if the queue grants no room for a record of
-- its length, and stands behind the others of this shard if it does.
pub data Samples (grant : List (List ℕ) → ℕ → Option (List ℕ)) (tid : ℕ) (frames : List RawFrame)
    (s s' : HandlerState) (notified : Bool) (stackss stackss' : Stacks) : Type 0 where
  all_locked :
      ((j : ℕ) → j < 3 → IsTaken s.shards s.num_shards (tid % s.num_shards) j)
      → s' ≡ s
      → notified ≡ false
      → stackss' ≡ stackss
      → Samples grant tid frames s s' notified stackss stackss'
  full :
      (attempt idx : ℕ) (shard : Shard)
      → IsFirstFree s tid attempt idx shard
      → grant shard.queue (8 + length frames * 16) ≡ none
      → IsCounted s s' notified
      → stackss' ≡ stackss
      → Samples grant tid frames s s' notified stackss stackss'
  kept :
      (attempt idx : ℕ) (shard : Shard) (bytes : List ℕ)
      → IsFirstFree s tid attempt idx shard
      → grant shard.queue (8 + length frames * 16) ≡ some bytes
      → IsCounted s s' notified
      → stackss' ≡ append_at stackss idx (tid, frames)
      → Samples grant tid frames s s' notified stackss stackss'

-- A signal in a thread whose interpreter frames are a chain with a frame of Python code, on a ready
-- state whose queues hold records of walks: the handler does not panic, and the queues hold records of
-- walks after it, which are those before it and that of the thread id and its first 128 frames behind
-- those of the first of the three shards from that of the thread on that is not locked. The walk is left
-- out if that queue has no room for it, and then and with it the sample is counted and the reader
-- notified when it is due; if all three shards are locked, nothing changes. Memory gives words of 64 bits,
-- the thread id has 32, the grants have the length asked for, and the fuel is more than the length of
-- the chain.
pub handle-Holds :
    (grant : List (List ℕ) → ℕ → Option (List ℕ)) (read : ℕ → Option ℕ) (s : HandlerState)
    (fuel tstate tid p : ℕ) (f : RawFrame) (fs : List RawFrame) (stackss : Stacks)
    (chain : Chain read s.debug_offsets p (f ∷ fs))
    → ((q : List (List ℕ)) (n : ℕ) (bytes : List ℕ) → grant q n ≡ some bytes → length bytes ≡ n)
    → ((a v : ℕ) → read a ≡ some v → v < 2 ^ 64)
    → IsReady s
    → Holds s.shards stackss
    → All AllStacks stackss
    → tid < 2 ^ 32
    → tstate ≢ 0
    → read (address tstate s.debug_offsets.thread_state.current_frame) ≡ some p
    → chain_length read s.debug_offsets chain < fuel
    → (s' : HandlerState) × (notified : Bool) × (stackss' : Stacks) × (handle grant read s fuel
          tstate tid
        ≡ some (s', notified))
      × Holds s'.shards stackss'
      × All AllStacks stackss'
      × Samples grant tid (take 128 (f ∷ fs)) s s' notified stackss stackss'
handle-Holds grant read s fuel tstate tid p f fs stackss chain granted words ready holds all small
      there entry enough =
    let w : ℕ × List RawFrame = (tid, take 128 (f ∷ fs)) in
    let one : IsStack tid (take 128 (f ∷ fs)) = record {
      tid_fits = small;
      short = omega (arith, length-take 128 (f ∷ fs));
      words = λ i g at. Chain-words words chain i g (get_elem?-take 128 (f ∷ fs) i g at);
    } in
    let (s', notified, run, handles) =
      handle-Handles grant read granted s fuel tstate tid p f fs chain ready there entry enough in
    elim handles [
      | contended taken same quiet ↦
          (s', notified, stackss, run, rw same holds, all, all_locked taken same quiet refl)
      | dropped attempt idx shard buf first none_left same counted ↦ (
        s',
        notified,
        stackss,
        run,
        rw same (Holds-set s.shards stackss idx shard buf holds first.there),
        all,
        full attempt idx shard first none_left counted refl,
      )
      | recorded attempt idx shard buf bytes first room same counted ↦ (
        s',
        notified,
        append_at stackss idx w,
        run,
        rw same (Holds-append s.shards stackss idx shard buf w holds first.there),
        append_at-All stackss idx w all one,
        kept attempt idx shard bytes first room counted refl,
      )
    ]
