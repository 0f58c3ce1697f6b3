-- ===== src/Agent/Stuck.antt =====
-- Schedules by which `stop` and `shutdown` do not return (src/pyroscope.rs).
use pyroscope_rs.Base.{ℕ, ◌≡◌, Bool, true, false, List, [], ◌∷◌, Option, none, some, arith}
use pyroscope_rs.Agent.{
  receives, returned, Caller, active, awaits, joins_timer, kills, joins_manager, joins_main, gone,
  System, Event, call_start, call_stop, call_shutdown, proceeds, timer_checks, timer_fires,
  main_goes, manager_goes, step, run, stop, stop_terminates, send_signal, take_session, receive,
  handle, main_step, serve, fire, proceed,
}
use pyroscope_rs.BackendImpl
use pyroscope_rs.BackendImpl.{Backend}
use pyroscope_rs.Config.{PyroscopeConfig}
use pyroscope_rs.Errors.{Result, ok, err, PyroscopeError}
use pyroscope_rs.Session.{Session}
use pyroscope_rs.Timer.{TimerSignal, TimerThread, after_wait}
use pyroscope_rs.Utils.{get_time_range}

-- An idle agent that runs: the main thread waits for a signal, and there is none.
pub record IsIdle {B : Type 0} (s : System B) : Type 0 where
  pub at_work : s.caller ≡ active
  pub is_running : s.running ≡ true
  pub sender : s.tx ≡ true
  pub waiting : s.main ≡ receives
  pub empty : s.queue ≡ []

-- The caller waits for a thread that has ended with an error.
record IsLost {B : Type 0} (e : PyroscopeError) (s : System B) : Type 0 where
  awaiting : s.caller ≡ awaits
  is_running : s.running ≡ true
  over : s.main ≡ returned (err e)

-- The callers that have dropped the listeners.
abbrev joins : Caller → Bool
joins joins_timer = true
joins kills = true
joins joins_manager = true
joins joins_main = true
joins _ = false

-- The main thread waits for a signal that nobody sends, on a channel that the caller holds open.
record IsHeld {B : Type 0} (s : System B) : Type 0 where
  joining : joins s.caller ≡ true
  sender : s.tx ≡ true
  waiting : s.main ≡ receives
  empty : s.queue ≡ []
  dropped : s.txs ≡ []

module _ {B : Type 0} (ops : Backend B) (config : PyroscopeConfig)
    (push : Session → Option (Result (Unit {0}))) where
  fire-IsLost :
      (x : PyroscopeError) (s : System B) (what : Option TimerSignal × TimerThread)
      → IsLost x s
      → IsLost x (fire s what)
  unfolding fire
  fire-IsLost x s (none, timer) l = ground arith
  fire-IsLost x s (some signal, timer) l = ground arith

  fire-IsHeld :
      (s : System B) (what : Option TimerSignal × TimerThread) → IsHeld s → IsHeld (fire s what)
  unfolding fire
  fire-IsHeld s (none, timer) l = ground arith
  fire-IsHeld s (some signal, timer) l = ground arith

  step-IsLost :
      (x : PyroscopeError) (s : System B) (e : Event)
      → IsLost x s
      → IsLost x (step ops config push e s)
  unfolding step proceed main_step serve
  step-IsLost x s call_start l = ground arith
  step-IsLost x s (call_stop now) l = ground arith
  step-IsLost x s call_shutdown l = ground arith
  step-IsLost x s proceeds l = ground arith
  step-IsLost x s timer_checks l = ground arith
  step-IsLost x s (timer_fires wait now) l = ground (arith, fire-IsLost x s (after_wait wait now))
  step-IsLost x s (main_goes now) l = ground arith
  step-IsLost x s manager_goes l = ground arith

  step-IsHeld : (s : System B) (e : Event) → IsHeld s → IsHeld (step ops config push e s)
  unfolding step proceed main_step serve receive
  step-IsHeld s call_start l = ground arith
  step-IsHeld s (call_stop now) l = ground arith
  step-IsHeld s call_shutdown l = ground arith
  step-IsHeld s proceeds l = ground arith
  step-IsHeld s timer_checks l = ground arith
  step-IsHeld s (timer_fires wait now) l = ground (arith, fire-IsHeld s (after_wait wait now))
  step-IsHeld s (main_goes now) l = ground arith
  step-IsHeld s manager_goes l = ground arith

  run-IsLost :
      (x : PyroscopeError) (es : List Event) (s : System B)
      → IsLost x s
      → IsLost x (run ops config push es s)
  unfolding run
  run-IsLost x [] s l = l
  run-IsLost x (e ∷ es) s l = run-IsLost x es _ (step-IsLost x s e l)

  run-IsHeld : (es : List Event) (s : System B) → IsHeld s → IsHeld (run ops config push es s)
  unfolding run
  run-IsHeld [] s l = l
  run-IsHeld (e ∷ es) s l = run-IsHeld es _ (step-IsHeld s e l)

  -- An idle agent is stopped and the report of its backend, for the last session, is an error: whatever
  -- happens after that, the main thread has ended with this error, the agent counts as running, and
  -- the caller stands in `stop`, which never returns.
  pub stop_awaits :
      (s : System B) (t : ℕ) (now : Result ℕ) (b b' : B) (e : PyroscopeError) (es : List Event)
      → IsIdle s
      → s.backend ≡ some b
      → ops.report b ≡ (err e, b')
      → ((run ops config push (call_stop (ok t) ∷ proceeds ∷ main_goes now ∷ es) s).caller ≡ awaits)
        × ((run ops config push (call_stop (ok t) ∷ proceeds ∷ main_goes now ∷ es) s).main
            ≡ returned (err e))
        × ((run ops config push (call_stop (ok t) ∷ proceeds ∷ main_goes now ∷ es) s).running
            ≡ true)
  unfolding run
  stop_awaits s t now b b' e es i there fails =
      let l : IsLost e (
          step ops config push (main_goes now)
            (step ops config push proceeds (step ops config push (call_stop (ok t)) s))) =
        unfold step stop proceed stop_terminates send_signal main_step receive handle take_session
          BackendImpl.on_backend get_time_range in
        ground arith in
      let after = run-IsLost e es _ l in (after.awaiting, after.over, after.is_running)

  -- An idle agent is shut down without a stop, and no signal comes while its backend is shut down:
  -- `shutdown` never returns, whatever happens after the listeners are dropped.
  pub shutdown_joins :
      (s : System B) (es : List Event)
      → IsIdle s
      → ¬ ((run ops config push (call_shutdown ∷ proceeds ∷ es) s).caller ≡ gone)
  unfolding run
  shutdown_joins s es i h =
      let l : IsHeld (step ops config push proceeds (step ops config push call_shutdown s)) =
        unfold step proceed in ground arith in
      let j = (run-IsHeld es _ l).joining in cc
