-- ===== src/Agent/Running.antt =====
-- The agent between its start and its stop, and the whole of a run (src/pyroscope.rs).
use pyroscope_rs.Base.{
  ℕ, suc, ◌+◌, ◌≡◌, refl, ap, subst, true, false, List, [], ◌∷◌, ◌++◌, Option, some, length, arith,
  inl, inr,
}
use pyroscope_rs.Agent.{
  SessionSignal, session, kill, MainThread, receives, sends, returned, unborn, serves, ready,
  active, System, Event, call_start, call_stop, proceeds, hears, build, step, run, start, stop,
  stop_terminates, send_signal, take_session, receive, handle, main_step, serve, fire, proceed,
}
use pyroscope_rs.Agent.Schedules.{
  holds_terminate, ahead, no_kill, rounds_left, made, IsWaiting, IsFree, IsCalm, goes_on,
  timer_tests, timer_sends, main_turn, manager_turn, IsFair, end, event, turn, no_kill-append,
}
use pyroscope_rs.Agent.Stop.{run-Ends, go-manager}
use pyroscope_rs.BackendImpl
use pyroscope_rs.BackendImpl.{Backend}
use pyroscope_rs.Backend.{Report}
use pyroscope_rs.Config.{PyroscopeConfig}
use pyroscope_rs.Errors.{Result, ok, err}
use pyroscope_rs.Session
use pyroscope_rs.Session.{Session}
use pyroscope_rs.Timer.{TimerSignal, terminate, next_snapshot, after_wait}
use pyroscope_rs.Utils.{get_time_range, range_of}

-- A running agent all of whose threads are there.
pub record IsRunning {B : Type 0} (s : System B) : Type 0 where
  pub at_work : s.caller ≡ active
  pub is_running : s.running ≡ true
  pub hearing : hears s.main ≡ true
  pub serving : s.manager ≡ serves
  pub holding : s.stx ≡ true
  pub going_on : no_kill s.inbox ≡ true
  pub no_end : holds_terminate s.queue ≡ false
  pub sender : s.tx ≡ true
  pub there : B
  pub backend : s.backend ≡ some there

no_end-append :
    (q : List TimerSignal) (n : ℕ)
    → holds_terminate q ≡ false
    → holds_terminate (q ++ next_snapshot n ∷ []) ≡ false
no_end-append [] n h = refl
no_end-append (terminate ∷ q) n h = h
no_end-append (next_snapshot _ ∷ q) n h = no_end-append q n h

-- What `stop` puts into the channel.
stop_signals :
    (q : List TimerSignal) (n : ℕ)
    → holds_terminate q ≡ false
    → (holds_terminate ((q ++ next_snapshot n ∷ []) ++ terminate ∷ []) ≡ true)
      × (ahead ((q ++ next_snapshot n ∷ []) ++ terminate ∷ []) ≡ suc (length q))
      × (ahead q ≡ length q)
stop_signals [] n h = (refl, refl, refl)
stop_signals (terminate ∷ q) n h = cc
stop_signals (next_snapshot _ ∷ q) n h =
    let (here, more, same) = stop_signals q n h in (here, ap suc more, ap suc same)

module _ {B : Type 0} (ops : Backend B) (config : PyroscopeConfig)
    (push : Session → Option (Result (Unit {0})))
    (reports : (b : B) → (rs : List Report) × (b' : B) × (ops.report b ≡ (ok rs, b')))
    (pushes : (s : Session) → (r : Result (Unit {0})) × (push s ≡ some r)) where
  abbrev go : Event → System B → System B
  go = step ops config push

  timer-IsRunning :
      (s : System B) (wait : Result (Unit {0})) (now : Result ℕ)
      → IsRunning s
      → IsRunning (fire s (after_wait wait now))
  unfolding fire after_wait get_time_range range_of
  timer-IsRunning s (ok _) (ok t) r = ground (arith, no_end-append s.queue (range_of t).from)
  timer-IsRunning s (ok _) (err e) r = ground arith
  timer-IsRunning s (err e) now r = ground arith

  serve-IsRunning :
      (s : System B) (inbox : List SessionSignal)
      → s.inbox ≡ inbox
      → IsRunning s
      → IsRunning (serve ops config push inbox s)
  unfolding serve
  serve-IsRunning s [] e r = ground arith
  serve-IsRunning s (kill ∷ inbox) e r = cc
  serve-IsRunning s (session x ∷ inbox) e r = let (q, goes) = pushes x in ground arith

  receive-IsRunning :
      (s : System B) (now : ℕ) (queue : List TimerSignal)
      → s.main ≡ receives
      → s.queue ≡ queue
      → IsRunning s
      → IsRunning (receive ops config push (ok now) queue s)
  unfolding receive handle BackendImpl.on_backend take_session Session.new get_time_range
  receive-IsRunning s now [] e at r = ground arith
  receive-IsRunning s now (terminate ∷ queue) e at r = cc
  receive-IsRunning s now (next_snapshot until ∷ queue) e at r =
      let (rs, b', reported) = reports r.there in ground arith

  main_step-IsRunning :
      (s : System B) (now : ℕ) (main : MainThread)
      → s.main ≡ main
      → IsRunning s
      → IsRunning (main_step ops config push (ok now) main s)
  unfolding main_step
  main_step-IsRunning s now receives e r = receive-IsRunning s now s.queue e refl r
  main_step-IsRunning s now (sends x) e r = ground (arith, no_kill-append s.inbox x)
  main_step-IsRunning s now unborn e r = cc r.hearing
  main_step-IsRunning s now (returned q) e r = cc r.hearing

  step-IsRunning : (s : System B) (e : Event) → IsCalm e → IsRunning s → IsRunning (go e s)
  unfolding step proceed
  step-IsRunning s e goes_on r = ground arith
  step-IsRunning s e timer_tests r = ground arith
  step-IsRunning s e (timer_sends wait now) r = ground (arith, timer-IsRunning s wait now)
  step-IsRunning s e (main_turn now) r = main_step-IsRunning s now s.main refl r
  step-IsRunning s e manager_turn r =
      rw (go-manager ops config push reports pushes s r.serving) (serve-IsRunning s s.inbox refl r)

  run-IsRunning :
      {k : ℕ} {es : List Event} (s : System B)
      → IsFair k es
      → IsRunning s
      → IsRunning (run ops config push es s)
  unfolding run
  run-IsRunning s end r = r
  run-IsRunning s (event calm fair) r = run-IsRunning _ fair (step-IsRunning s _ calm r)
  run-IsRunning s (turn now fair) r =
      run-IsRunning _ fair (step-IsRunning _ _ (main_turn now) (step-IsRunning s _ manager_turn r))

  start-IsRunning : (b : B) → IsRunning (go call_start (build b))
  unfolding step start
  start-IsRunning b = ground arith

  -- The two sends of `stop`.
  stop-IsWaiting :
      (s : System B) (t : ℕ)
      → IsRunning s
      → IsWaiting
          (made s + length s.queue + 1)
          (rounds_left s + 3)
          (go proceeds (go (call_stop (ok t)) s))
  unfolding step stop proceed stop_terminates send_signal get_time_range range_of
  stop-IsWaiting s t r = ground (arith, stop_signals s.queue (range_of t).until)

  run-append :
      (es fs : List Event) (s : System B)
      → run ops config push (es ++ fs) s ≡ run ops config push fs (run ops config push es s)
  unfolding run
  run-append [] fs s = refl
  run-append (e ∷ es) fs s = run-append es fs (go e s)

  -- The last step of a stop that ends.
  ends :
      (n : ℕ) (s : System B)
      → IsFree n s
      → ((go proceeds s).caller ≡ ready)
        × ((go proceeds s).running ≡ false)
        × ((go proceeds s).main ≡ returned (ok tt))
        × (length (go proceeds s).pushed + length (go proceeds s).inbox ≡ n)
  unfolding step proceed
  ends n s f = ground arith

  never : (n : ℕ) (s : System B) → ¬ IsWaiting n 0 s
  never n s w = omega (arith, w.within)

  -- A started agent whose backend reports without an error and whose sessions are pushed without a
  -- panic is stopped: whatever the threads did before the stop (the clock being readable), and
  -- whatever they do after it, once the manager and right after it the main thread have had their turns three
  -- times and as often as `rounds_left` says at the stop, `stop` returns, with a main thread that ended well, and the last session and
  -- one for each signal that was still waiting have been handed to the session manager.
  pub stop_returns :
      (b : B) (before after : List Event) (t k : ℕ)
      → IsFair 0 before
      → rounds_left (run ops config push (call_start ∷ before) (build b)) + 3 ≡ k
      → IsFair k after
      → (s s' : System B) × (run ops config push (call_start ∷ before) (build b) ≡ s)
        × (run ops config push (call_stop (ok t) ∷ proceeds ∷ after ++ proceeds ∷ []) s ≡ s')
        × (s'.caller ≡ ready)
        × (s'.running ≡ false)
        × (s'.main ≡ returned (ok tt))
        × (length s'.pushed + length s'.inbox ≡ made s + length s.queue + 1)
  unfolding run
  stop_returns b before after t k calm bound fair =
      let s = run ops config push before (go call_start (build b)) in
      let r = run-IsRunning (go call_start (build b)) calm (start-IsRunning b) in
      let n = made s + length s.queue + 1 in
      let w : IsWaiting n k (go proceeds (go (call_stop (ok t)) s)) =
        subst (λ m. IsWaiting n m (go proceeds (go (call_stop (ok t)) s))) bound
          (stop-IsWaiting s t r) in
      let s₂ = go proceeds (go (call_stop (ok t)) s) in
      let s₃ = run ops config push after s₂ in
      let f : IsFree n s₃ = elim (run-Ends ops config push reports pushes n s₂ fair (inl (w))) [
        | inl late ↦ absurd (never n s₃ late)
        | inr f ↦ f
      ] in
      let (returns, stopped, over, count) = ends n s₃ f in
      (s, go proceeds s₃, refl, run-append after (proceeds ∷ []) s₂, returns, stopped, over, count)
