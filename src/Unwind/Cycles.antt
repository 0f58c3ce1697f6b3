-- ===== src/Unwind/Cycles.antt =====
-- Frames that are skipped, and two that point to one another (kit/python_unwind/src/lib.rs).
use pyroscope_rs.Base.{
  ℕ, zero, suc, ◌%◌, ◌≤◌, ◌<◌, ◌≡◌, refl, sym, ◌∙◌, ◌≢◌, true, List, Option, none, some, length,
  arith, subst, le→ltb, ne→eqb,
}
use pyroscope_rs.PythonOffsetsTypes.Py314.{DebugOffsets}
use pyroscope_rs.Unwind.{
  RawFrame, Walk, continues, address, max_of, frame_skip_owner_min, advance, round, goes_on, loop,
  unwind,
}

module _ (read : ℕ → Option ℕ) (offsets : DebugOffsets) where
  -- A frame that the walk skips, and the frame that it goes to.
  pub record IsShim (p q : ℕ) : Type 0 where
    pub nonzero : p ≢ 0
    pub owner : ℕ
    pub at_owner : read (address p offsets.interpreter_frame.owner) ≡ some owner
    pub skipped : frame_skip_owner_min ≤ owner % 256
    pub at_previous : read (address p offsets.interpreter_frame.previous) ≡ some q

  module _ (code_type : ℕ) where
    pub advance-reads :
        (w : Walk) (q : ℕ)
        → read (address w.frame_ptr offsets.interpreter_frame.previous) ≡ some q
        → advance read offsets code_type w
          ≡ continues (record w { frame_ptr = q; prev_frame = w.frame_ptr })
    unfolding advance
    advance-reads w q e = rw (e, advance)

    pub round-IsShim :
        (w : Walk) (q : ℕ)
        → IsShim w.frame_ptr q
        → round read offsets code_type w
          ≡ continues (record w { frame_ptr = q; prev_frame = w.frame_ptr })
    unfolding round
    round-IsShim w q s =
        rw (s.at_owner, round, le→ltb _ _ s.skipped) (advance-reads w q s.at_previous)

    turn :
        (max fuel p q : ℕ) (w : Walk)
        → IsShim p q
        → IsShim q p
        → p ≢ q
        → w.depth < max
        → w.frame_ptr ≡ p
        → w.prev_frame ≢ p
        → loop read offsets code_type max fuel w ≡ none
    unfolding loop goes_on
    turn max zero p q w there back apart room at before = refl
    turn max (suc fuel) p q w there back apart room at before =
        let s : IsShim w.frame_ptr q = subst (λ x. IsShim x q) (sym at) there in
        let more : goes_on max w ≡ true = ground (arith, s.nonzero, at, before, room) in
        rw (more, loop, round-IsShim w q s)
          (turn max fuel q p (record w { frame_ptr = q; prev_frame = w.frame_ptr }) back there
            (λ e. apart (sym e)) room refl (λ e. apart (sym at ∙ e)))

    -- Two skipped frames that point to one another are walked for ever: whatever the fuel, it runs out,
    -- for any buffer with room.
    pub unwind_cycle :
        (fuel tstate p q : ℕ) (buf : List RawFrame)
        → read (address tstate offsets.thread_state.current_frame) ≡ some p
        → IsShim p q
        → IsShim q p
        → p ≢ q
        → 0 < length buf
        → unwind read offsets code_type fuel tstate buf ≡ none
    unfolding unwind
    unwind_cycle fuel tstate p q buf entry there back apart room =
        rw (entry, unwind, ne→eqb p 0 there.nonzero)
          (turn (max_of buf) fuel p q _ there back apart (ground arith) refl
            (λ e. there.nonzero (sym e)))
