-- ===== src/Unwind/Bounds.antt =====
-- What the walk writes and when it returns, on any memory (kit/python_unwind/src/lib.rs).
use pyroscope_rs.Base.{
  ℕ, zero, suc, ◌+◌, ◌-◌, ◌*◌, ◌%◌, ◌≤◌, ◌<◌, ◌≡◌, refl, sym, ap, ◌∙◌, ◌≢◌, true, false, List, ◌++◌,
  Option, some, ◌⊎◌, inl, inr, length, get_elem?, set, arith, Bool-cases, Option-cases, eqb, ltb,
  get_elem?-set_self, get_elem?-set_ne, length-set,
}
use pyroscope_rs.PythonOffsetsTypes.Py314.{DebugOffsets}
use pyroscope_rs.Unwind.{
  RawFrame, Walk, Round, continues, breaks, address, max_of, frame_skip_owner_min, advance,
  check_type, collect, round, goes_on, loop, start, unwind,
}

-- The walk has stored `depth` frames of Python code and left the rest of the buffer alone.
pub record Fits (buf : List RawFrame) (max : ℕ) (w : Walk) : Type 0 where
  pub within : w.depth ≤ max
  pub size : length w.buf ≡ length buf
  pub stored :
      (i : ℕ) → i < w.depth → (f : RawFrame) × (get_elem? w.buf i ≡ some f) × (f.code_object ≢ 0)
  pub untouched : (i : ℕ) → w.depth ≤ i → get_elem? w.buf i ≡ get_elem? buf i

enough_left :
    (max n r fuel : ℕ) → r ≤ n → max * (n + 1) + n + 1 < fuel → (max - 0) * (n + 1) + r + 1 < fuel
enough_left max n r fuel b enough = let e : max - 0 ≡ max = omega arith in rw e (omega arith)

abbrev after : Round → Walk
after (continues w) = w
after (breaks w) = w

module _ (read : ℕ → Option ℕ) (offsets : DebugOffsets) where
  -- Along skipped frames a rank falls, unless the frame points to itself.
  pub record IsRanked (rank : ℕ → ℕ) (n : ℕ) : Type 0 where
    pub bounded : (p : ℕ) → rank p ≤ n
    pub falls :
        (p q owner : ℕ)
        → read (address p offsets.interpreter_frame.owner) ≡ some owner
        → frame_skip_owner_min ≤ owner % 256
        → read (address p offsets.interpreter_frame.previous) ≡ some q
        → (q ≡ p) ⊎ (rank q < rank p)

  module _ (code_type : ℕ) where
    -- A round that goes on has stored a frame, or has skipped one.
    pub record Turns (w w' : Walk) : Type 0 where
      pub before : w'.prev_frame ≡ w.frame_ptr
      pub moved :
          (w'.depth ≡ w.depth + 1)
          ⊎ ((w'.depth ≡ w.depth)
              × (owner : ℕ) × (read (address w.frame_ptr offsets.interpreter_frame.owner)
                  ≡ some owner)
              × (frame_skip_owner_min ≤ owner % 256)
              × (read (address w.frame_ptr offsets.interpreter_frame.previous) ≡ some w'.frame_ptr))

    round-Turns : (w w' : Walk) → round read offsets code_type w ≡ continues w' → Turns w w'
    unfolding round collect advance
    round-Turns w w' h = ground (arith, h)

    -- What a round does to the buffer.
    abbrev Writes : Walk → Round → Type 0
    Writes w r =
        (((after r).depth ≡ w.depth) × ((after r).buf ≡ w.buf))
        ⊎ ((f : RawFrame) × ((after r).depth ≡ w.depth + 1)
            × ((after r).buf ≡ set w.buf w.depth f)
            × (f.code_object ≢ 0))

    advance_same :
        (w : Walk)
        → ((after (advance read offsets code_type w)).depth ≡ w.depth)
          × ((after (advance read offsets code_type w)).buf ≡ w.buf)
    unfolding advance
    advance_same w = ground arith

    collect-Writes :
        (w : Walk) (code_obj : ℕ) → Writes w (collect read offsets code_type w code_obj)
    unfolding collect
    collect-Writes w code_obj = elim (Bool-cases (eqb code_obj 0)) [
      | inl null ↦ rw (null, collect) (inl (refl, refl))
      | inr code ↦
          elim (Option-cases (read (address w.frame_ptr offsets.interpreter_frame.instr_ptr))) [
            | inl e ↦ rw (code, collect, e) (inl (refl, refl))
            | inr (instr, e) ↦
                let f : RawFrame = record { code_object = code_obj; instr_offset = instr } in
                let nonzero : code_obj ≢ 0 = λ z. ground (arith, code, z) in
                let same = advance_same (record w {
                  depth = w.depth + 1;
                  buf = set w.buf w.depth f;
                  mismatches = w.mismatches ++ check_type read offsets code_type code_obj;
                }) in
                rw (code, collect, e) (inr (f, same.0, same.1, nonzero))
          ]
    ]

    round-Writes : (w : Walk) → Writes w (round read offsets code_type w)
    unfolding round
    round-Writes w =
        elim (Option-cases (read (address w.frame_ptr offsets.interpreter_frame.owner))) [
          | inl e ↦ rw (e, round) (inl (refl, refl))
          | inr (v, e) ↦ elim (Bool-cases (ltb (v % 256) frame_skip_owner_min)) [
            | inr skipped ↦ rw (e, round, skipped) (inl (advance_same w))
            | inl kept ↦
                elim (Option-cases
                  (read (address w.frame_ptr offsets.interpreter_frame.executable))) [
                    | inl e' ↦ rw (e, round, kept, e') (inl (refl, refl))
                    | inr (c, e') ↦ rw (e, round, kept, e') (collect-Writes w c)
                  ]
          ]
        ]

    Fits-store :
        (buf : List RawFrame) (max : ℕ) (w w' : Walk) (f : RawFrame)
        → Fits buf max w
        → max ≤ length buf
        → w.depth < max
        → w'.depth ≡ w.depth + 1
        → w'.buf ≡ set w.buf w.depth f
        → f.code_object ≢ 0
        → Fits buf max w'
    Fits-store buf max w w' f v room more d b code = record {
      within = omega arith;
      size = ap length b ∙ length-set w.buf w.depth f ∙ v.size;
      stored = λ i h. rw b (new_stored i h);
      untouched = λ i h.
          rw b (get_elem?-set_ne w.buf w.depth i f (λ e. absurd (omega arith)))
          ∙ v.untouched i (omega arith);
    }
      where
        new_stored :
            (i : ℕ)
            → i < w'.depth
            → (g : RawFrame) × (get_elem? (set w.buf w.depth f) i ≡ some g) × (g.code_object ≢ 0)
        new_stored i h = elim (Bool-cases (eqb i w.depth)) [
          | inl here ↦
              let e : i ≡ w.depth = ground (arith, here) in
              (f, rw e (get_elem?-set_self w.buf w.depth f (omega (arith, v.size))), code)
          | inr there ↦
              let (g, at, ok) = v.stored i (ground (arith, there, h, d)) in
              (g, get_elem?-set_ne w.buf w.depth i f (λ e. ground (arith, there, e)) ∙ at, ok)
        ]

    round-Fits :
        (buf : List RawFrame) (max : ℕ) (w : Walk)
        → Fits buf max w
        → max ≤ length buf
        → w.depth < max
        → Fits buf max (after (round read offsets code_type w))
    round-Fits buf max w f room more = elim (round-Writes w) [
      | inl (d, b) ↦ record {
        within = rw d f.within;
        size = rw b f.size;
        stored = rw (b, d) f.stored;
        untouched = rw (b, d) f.untouched;
      }
      | inr (x, d, b, code) ↦ Fits-store buf max w _ x f room more d b code
    ]

    -- The rounds left: a frame stored takes one of `max`, a frame skipped takes one of its rank.
    abbrev left : (ℕ → ℕ) → ℕ → ℕ → Walk → ℕ
    left rank n max w = (max - w.depth) * (n + 1) + rank w.frame_ptr + 1

    turn_left :
        (rank : ℕ → ℕ) (n max : ℕ) (w w' : Walk)
        → IsRanked rank n
        → Turns w w'
        → w.depth < max
        → (w'.frame_ptr ≡ w'.prev_frame) ⊎ (left rank n max w' < left rank n max w)
    turn_left rank n max w w' ranked t more = elim t.moved [
      | inl d ↦
          let b = ranked.bounded w'.frame_ptr in
          let e : max - w.depth ≡ (max - w'.depth) + 1 = omega arith in inr (rw e (omega arith))
      | inr (d, owner, at_owner, skipped, at_previous) ↦
          elim (ranked.falls w.frame_ptr w'.frame_ptr owner at_owner skipped at_previous) [
            | inl same ↦ inl (same ∙ sym t.before)
            | inr falls ↦ inr (rw d (omega arith))
          ]
    ]

    goes_on-lt : (max : ℕ) (w : Walk) → goes_on max w ≡ true → w.depth < max
    unfolding goes_on
    goes_on-lt max w h = ground (arith, h)

    self_stops : (max : ℕ) (w : Walk) → w.frame_ptr ≡ w.prev_frame → goes_on max w ≡ false
    unfolding goes_on
    self_stops max w h = ground (arith, h)

    loop_stops :
        (max fuel : ℕ) (w : Walk)
        → 0 < fuel
        → goes_on max w ≡ false
        → loop read offsets code_type max fuel w ≡ some w
    unfolding loop
    loop_stops max zero w h e = absurd (omega arith)
    loop_stops max (suc fuel) w h e = rw (e, loop)

    Round-cases : (r : Round) → ((w : Walk) × (r ≡ continues w)) ⊎ ((w : Walk) × (r ≡ breaks w))
    Round-cases (continues w) = inl (w, refl)
    Round-cases (breaks w) = inr (w, refl)

    loop-Fits :
        (rank : ℕ → ℕ) (n max fuel : ℕ) (buf : List RawFrame) (w : Walk)
        → IsRanked rank n
        → max ≤ length buf
        → Fits buf max w
        → left rank n max w < fuel
        → (w' : Walk) × (loop read offsets code_type max fuel w ≡ some w') × Fits buf max w'
    unfolding loop
    loop-Fits rank n max zero buf w ranked room f enough = absurd (omega arith)
    loop-Fits rank n max (suc fuel) buf w ranked room f enough = elim (Bool-cases (goes_on max w)) [
      | inr stop ↦ (w, rw (stop, loop), f)
      | inl more ↦
          let lt = goes_on-lt max w more in
          let fits = round-Fits buf max w f room lt in
          elim (Round-cases (round read offsets code_type w)) [
            | inr (w', e) ↦ (w', rw (more, loop, e), rw e at fits)
            | inl (w', e) ↦
                let fits' : Fits buf max w' = rw e at fits in
                elim (turn_left rank n max w w' ranked (round-Turns w w' e) lt) [
                  | inl self ↦ (
                    w',
                    rw (more, loop, e)
                        (loop_stops max fuel w' (omega arith) (self_stops max w' self)),
                    fits',
                  )
                  | inr falls ↦
                      let (w'', run, done) =
                        loop-Fits rank n max fuel buf w' ranked room fits' (omega arith) in
                      (w'', rw (more, loop, e) run, done)
                ]
          ]
    ]

    -- On any memory whose skipped frames are ranked by numbers up to `n` (a frame that points to
    -- itself is allowed) the call returns within the fuel given; it stores at most
    -- `min (buf.len()) 128` frames, each with a code object, and leaves the rest of the buffer.
    pub unwind-Fits :
        (rank : ℕ → ℕ) (n fuel tstate : ℕ) (buf : List RawFrame)
        → IsRanked rank n
        → max_of buf * (n + 1) + n + 1 < fuel
        → (w : Walk) × (unwind read offsets code_type fuel tstate buf ≡ some w)
          × Fits buf (max_of buf) w
    unfolding unwind
    unwind-Fits rank n fuel tstate buf ranked enough =
        elim (Option-cases (read (address tstate offsets.thread_state.current_frame))) [
          | inl e ↦ (start 0 buf, rw (e, unwind), fresh 0)
          | inr (p, e) ↦ elim (Bool-cases (eqb p 0)) [
            | inl null ↦ (start 0 buf, rw (e, unwind, null), fresh 0)
            | inr more ↦
                let b = ranked.bounded p in
                let (w, run, f) =
                  loop-Fits rank n (max_of buf) fuel buf (start p buf) ranked (ground arith)
                    (fresh p) (enough_left (max_of buf) n (rank p) fuel b enough) in
                (w, rw (e, unwind, more) run, f)
          ]
        ]
      where
        fresh : (p : ℕ) → Fits buf (max_of buf) (start p buf)
        fresh p = record {
          within = omega arith;
          size = refl;
          stored = λ i h. absurd (omega arith);
          untouched = λ i h. refl;
        }
