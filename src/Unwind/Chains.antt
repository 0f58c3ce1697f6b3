-- ===== src/Unwind/Chains.antt =====
-- The walk over a chain of readable frames (kit/python_unwind/src/lib.rs).
use pyroscope_rs.Base.{
  ℕ, zero, suc, ◌+◌, ◌%◌, ◌≤◌, ◌<◌, ◌≡◌, refl, sym, ◌∙◌, ◌≢◌, true, false, List, [], ◌∷◌, ◌++◌,
  Option, some, ◌⊎◌, inl, inr, length, take, drop, set, arith, subst, take-nil, set-append_length,
  Bool-cases, eqb, eqb_iff, lt→ltb, ne→eqb, length-append,
}
use mathlib.Core.List.{append_assoc}
use pyroscope_rs.PythonOffsetsTypes.Py314.{DebugOffsets}
use pyroscope_rs.Unwind.Cycles.{IsShim, advance-reads, round-IsShim}
use pyroscope_rs.Unwind.{
  RawFrame, Walk, continues, address, max_of, frame_skip_owner_min, check_type, collect, round,
  goes_on, loop, start, unwind,
}

module _ (read : ℕ → Option ℕ) (offsets : DebugOffsets) where
  -- A frame of Python code, and the frame that it was called from.
  pub record IsPython (p : ℕ) (frame : RawFrame) (q : ℕ) : Type 0 where
    pub owner : ℕ
    pub at_owner : read (address p offsets.interpreter_frame.owner) ≡ some owner
    pub kept : owner % 256 < frame_skip_owner_min
    pub at_executable :
        read (address p offsets.interpreter_frame.executable) ≡ some frame.code_object
    pub has_code : frame.code_object ≢ 0
    pub at_instr_ptr :
        read (address p offsets.interpreter_frame.instr_ptr) ≡ some frame.instr_offset
    pub at_previous : read (address p offsets.interpreter_frame.previous) ≡ some q

  -- A chain from `p` to a null pointer, with the frames of Python code on it.
  pub data Chain : ℕ → List RawFrame → Type 0 where
    root : {p : ℕ} → p ≡ 0 → Chain p []
    shim :
        {p q : ℕ} {frames : List RawFrame}
        → IsShim read offsets p q
        → q ≢ p
        → Chain q frames
        → Chain p frames
    python :
        {p q : ℕ} {frame : RawFrame} {frames : List RawFrame}
        → p ≢ 0
        → IsPython p frame q
        → q ≢ p
        → Chain q frames
        → Chain p (frame ∷ frames)

  -- the frames of the chain, skipped ones too
  unfoldable pub chain_length : {p : ℕ} {frames : List RawFrame} → Chain p frames → ℕ
  chain_length (root e) = 0
  chain_length (shim s apart rest) = suc (chain_length rest)
  chain_length (python nonzero f apart rest) = suc (chain_length rest)

  -- What the walk leaves from a state with the frames `done` in the buffer, room for `k` more, and the
  -- old contents `rest` behind them.
  pub record Collects (done rest : List RawFrame) (k : ℕ) (frames : List RawFrame) (w : Walk)
      : Type 0 where
    pub depth : w.depth ≡ length done + length (take k frames)
    pub buf : w.buf ≡ done ++ (take k frames ++ drop (length (take k frames)) rest)

  module _ (code_type : ℕ) where
    -- A frame of Python code is stored, and the walk goes to its caller.
    round-IsPython :
        (w : Walk) (frame : RawFrame) (q : ℕ)
        → IsPython w.frame_ptr frame q
        → round read offsets code_type w
          ≡ continues (record {
            frame_ptr = q;
            prev_frame = w.frame_ptr;
            depth = w.depth + 1;
            buf = set w.buf w.depth frame;
            mismatches = w.mismatches ++ check_type read offsets code_type frame.code_object;
          })
    unfolding round collect
    round-IsPython w frame q f =
        rw
          (
            f.at_owner,
            round,
            lt→ltb _ _ f.kept,
            f.at_executable,
            ne→eqb frame.code_object 0 f.has_code,
            f.at_instr_ptr,
          )
          (advance-reads read offsets code_type
            (record w {
              depth = w.depth + 1;
              buf = set w.buf w.depth frame;
              mismatches = w.mismatches ++ check_type read offsets code_type frame.code_object;
            })
            q f.at_previous)

    loop_stops :
        (max fuel : ℕ) (w : Walk)
        → goes_on max w ≡ false
        → loop read offsets code_type max (suc fuel) w ≡ some w
    unfolding loop
    loop_stops max fuel w e = rw (e, loop)

    loop_turns :
        (max fuel : ℕ) (w w' : Walk)
        → goes_on max w ≡ true
        → round read offsets code_type w ≡ continues w'
        → loop read offsets code_type max (suc fuel) w ≡ loop read offsets code_type max fuel w'
    unfolding loop
    loop_turns max fuel w w' e r = rw (e, loop, r)

    -- With nothing more to take the walk stops.
    none_left :
        (max fuel k : ℕ) (done rest frames : List RawFrame) (w : Walk)
        → goes_on max w ≡ false
        → take k frames ≡ []
        → w.depth ≡ length done
        → w.buf ≡ done ++ rest
        → (w' : Walk) × (loop read offsets code_type max (suc fuel) w ≡ some w')
          × Collects done rest k frames w'
    none_left max fuel k done rest frames w stop empty d b =
        (w, loop_stops max fuel w stop, record { depth = rw empty (omega arith); buf = rw empty b })

    loop-Collects :
        (max fuel k : ℕ) (done rest frames : List RawFrame) (w : Walk) {p : ℕ}
        (chain : Chain p frames)
        → w.frame_ptr ≡ p
        → (p ≡ 0) ⊎ (w.prev_frame ≢ p)
        → w.depth ≡ length done
        → w.buf ≡ done ++ rest
        → length done + k ≡ max
        → k ≤ length rest
        → chain_length chain < fuel
        → (w' : Walk) × (loop read offsets code_type max fuel w ≡ some w')
          × Collects done rest k frames w'
    unfolding goes_on chain_length
    loop-Collects max zero k done rest frames w chain at before d b room fits f =
        absurd (omega arith)
    loop-Collects max (suc fuel) k done rest _ w (root e) at before d b room fits f =
        none_left max fuel k done rest [] w (ground (arith, at, e)) (take-nil k) d b
    loop-Collects max (suc fuel) zero done rest frames w (shim s apart chain) at before d b room
          fits f =
        none_left max fuel 0 done rest frames w (ground (arith, d, room)) refl d b
    loop-Collects max (suc fuel) zero done rest _ w (python nonzero x apart chain) at before d b
          room fits f =
        none_left max fuel 0 done rest _ w (ground (arith, d, room)) refl d b
    loop-Collects max (suc fuel) (suc k) done rest frames w {p} (shim {q = q} s apart chain) at
          before d b room fits f =
        let more : goes_on max w ≡ true = ground (arith, s.nonzero, at, before, d, room) in
        let (w', run, c) =
          loop-Collects max fuel (suc k) done rest frames
            (record w { frame_ptr = q; prev_frame = w.frame_ptr }) chain refl
            (inr (λ e. apart (sym e ∙ at))) d b room fits (omega arith) in
        (
          w',
          loop_turns max fuel w _ more (
                round-IsShim read offsets code_type w q
                  (subst (λ x. IsShim read offsets x q) (sym at) s))
              ∙ run,
          c,
        )
    loop-Collects max (suc fuel) (suc k) done [] _ w {p} (python nonzero x apart chain) at before d
          b room fits f =
        absurd (omega arith)
    loop-Collects max (suc fuel) (suc k) done (old ∷ rest) _ w {p}
          (python {q = q} {frame = frame} {frames = frames} nonzero x apart chain) at before d b
          room fits f =
        let more : goes_on max w ≡ true = ground (arith, nonzero, at, before, d, room) in
        let (w', run, c) =
          loop-Collects max fuel k (done ++ frame ∷ []) rest frames
            (record {
              frame_ptr = q;
              prev_frame = w.frame_ptr;
              depth = w.depth + 1;
              buf = set w.buf w.depth frame;
              mismatches = w.mismatches ++ check_type read offsets code_type frame.code_object;
            })
            chain refl (inr (λ e. apart (sym e ∙ at)))
            (omega (arith, length-append done (frame ∷ [])))
            (rw (b, d, set-append_length done old frame rest (length done) refl)
              (sym (append_assoc done (frame ∷ []) rest)))
            (omega (arith, length-append done (frame ∷ []))) (omega arith) (omega arith) in
        (
          w',
          loop_turns max fuel w _ more
                (round-IsPython w frame q (subst (λ y. IsPython y frame q) (sym at) x))
              ∙ run,
          record {
            depth = c.depth ∙ omega (arith, length-append done (frame ∷ []));
            buf = c.buf ∙ append_assoc done (frame ∷ []) _;
          },
        )

    -- On a chain of readable frames the call returns, and the buffer starts with the Python frames of
    -- the chain, innermost first, cut at the bound; what was behind them in the buffer stays.
    pub unwind-Collects :
        (fuel tstate p : ℕ) (buf frames : List RawFrame) (chain : Chain p frames)
        → read (address tstate offsets.thread_state.current_frame) ≡ some p
        → chain_length chain < fuel
        → (w : Walk) × (unwind read offsets code_type fuel tstate buf ≡ some w)
          × Collects [] buf (max_of buf) frames w
    unfolding unwind
    unwind-Collects fuel tstate p buf frames chain entry f = elim (Bool-cases (eqb p 0)) [
      | inl null ↦ (start 0 buf, rw (entry, unwind, null), ended chain ((eqb_iff p 0).0 null))
      | inr more ↦
          let (w, run, c) =
            loop-Collects (max_of buf) fuel (max_of buf) [] buf frames (start p buf) chain refl
              (root_or p) refl refl (omega arith) (ground arith) f in
          (w, rw (entry, unwind, more) run, c)
    ]
      where
        -- a chain from a null pointer has no frames
        ended :
            {q : ℕ} {fs : List RawFrame}
            → Chain q fs
            → q ≡ 0
            → Collects [] buf (max_of buf) fs (start 0 buf)
        ended (root e) z = record { depth = rw take-nil; buf = rw take-nil }
        ended (shim s apart rest) z = absurd (s.nonzero z)
        ended (python nonzero x apart rest) z = absurd (nonzero z)

        root_or : (q : ℕ) → (q ≡ 0) ⊎ (0 ≢ q)
        root_or zero = inl refl
        root_or (suc q) = inr (λ e. absurd (omega arith))
