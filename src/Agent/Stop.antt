-- ===== src/Agent/Stop.antt =====
-- The stop of the agent (src/pyroscope.rs): under which schedules it returns, and what was sent by then.
use pyroscope_rs.Base.{
  sym, subst, ◌||◌, if◌then◌else◌, ℕ, suc, ◌<◌, ◌≡◌, refl, ap, true, List, [], ◌∷◌, Option, none,
  some, length, arith, length-append, inl, inr,
}
use pyroscope_rs.Agent.{
  manager_returns, finished, SessionSignal, session, kill, MainThread, receives, sends, returned,
  unborn, serves, System, Event, main_goes, manager_goes, hears, step, run, take_session, receive,
  handle, main_step, serve, fire, proceed,
}
use pyroscope_rs.Backend.{Report}
use pyroscope_rs.BackendImpl
use pyroscope_rs.BackendImpl.{Backend}
use pyroscope_rs.Config.{PyroscopeConfig}
use pyroscope_rs.Errors.{Result, ok}
use pyroscope_rs.Session
use pyroscope_rs.Session.{Session}
use pyroscope_rs.Timer.{TimerSignal, terminate, next_snapshot, TimerThread, after_wait}
use pyroscope_rs.Utils.{get_time_range}
use pyroscope_rs.Agent.Schedules.{
  IsWaiting, IsFree, Ends, IsCalm, goes_on, timer_tests, timer_sends, main_turn, manager_turn,
  IsFair, end, event, turn, holds_terminate-append, no_kill-append,
}

module _ {B : Type 0} (ops : Backend B) (config : PyroscopeConfig)
    (push : Session → Option (Result (Unit {0})))
    (reports : (b : B) → (rs : List Report) × (b' : B) × (ops.report b ≡ (ok rs, b')))
    (pushes : (s : Session) → (r : Result (Unit {0})) × (push s ≡ some r)) where
  abbrev pub go : Event → System B → System B
  go = step ops config push

  fire-IsWaiting :
      (n k : ℕ) (s : System B) (what : Option TimerSignal × TimerThread)
      → IsWaiting n k s
      → IsWaiting n k (fire s what)
  unfolding fire
  fire-IsWaiting n k s (none, timer) w = ground arith
  fire-IsWaiting n k s (some signal, timer) w =
      ground (arith, holds_terminate-append s.queue signal)

  fire-IsFree :
      (n : ℕ) (s : System B) (what : Option TimerSignal × TimerThread)
      → IsFree n s
      → IsFree n (fire s what)
  unfolding fire
  fire-IsFree n s (none, timer) w = ground arith
  fire-IsFree n s (some signal, timer) w = ground arith

  IsWaiting-suc : (n k : ℕ) (s : System B) → IsWaiting n k s → IsWaiting n (suc k) s
  IsWaiting-suc n k s w = ground arith

  -- A turn of the manager takes one session, if there is one.
  serve-less :
      (n k : ℕ) (s : System B) (x : SessionSignal) (inbox : List SessionSignal)
      → s.inbox ≡ x ∷ inbox
      → IsWaiting n (suc k) s
      → IsWaiting n k (serve ops config push (x ∷ inbox) s)
  unfolding serve
  serve-less n k s kill inbox e w = cc
  serve-less n k s (session x) inbox e w =
      let (r, goes) = pushes x in ground (arith, length-append s.pushed (x ∷ []))

  serve-IsWaiting :
      (n k : ℕ) (s : System B) (inbox : List SessionSignal)
      → s.inbox ≡ inbox
      → IsWaiting n k s
      → IsWaiting n k (serve ops config push inbox s)
  unfolding serve
  serve-IsWaiting n k s [] e w = ground arith
  serve-IsWaiting n k s (x ∷ inbox) e w = serve-less n k s x inbox e (IsWaiting-suc n k s w)

  serve-IsFree :
      (n : ℕ) (s : System B) (inbox : List SessionSignal)
      → s.inbox ≡ inbox
      → IsFree n s
      → IsFree n (serve ops config push inbox s)
  unfolding serve
  serve-IsFree n s [] e w = ground arith
  serve-IsFree n s (kill ∷ inbox) e w = ground arith
  serve-IsFree n s (session x ∷ inbox) e w =
      let (r, goes) = pushes x in ground (arith, length-append s.pushed (x ∷ []))

  handle-Ends :
      (n k now : ℕ) (s : System B) (signal : TimerSignal) (queue : List TimerSignal)
      → s.main ≡ receives
      → s.queue ≡ signal ∷ queue
      → IsWaiting n (suc k) s
      → Ends n k (handle ops config push (ok now) signal (record s { queue = queue }))
  unfolding handle BackendImpl.on_backend take_session Session.new get_time_range
  handle-Ends n k now s terminate queue at e w = inr (ground arith)
  handle-Ends n k now s (next_snapshot until) queue at e w =
      let (rs, b', reported) = reports w.there in inl (ground arith)

  receive-Ends :
      (n k now : ℕ) (s : System B) (queue : List TimerSignal)
      → s.main ≡ receives
      → s.queue ≡ queue
      → IsWaiting n (suc k) s
      → Ends n k (receive ops config push (ok now) queue s)
  unfolding receive
  receive-Ends n k now s [] at e w = cc
  receive-Ends n k now s (signal ∷ queue) at e w = handle-Ends n k now s signal queue at e w

  -- A turn of the main thread gets further, unless the channel to the manager is full.
  main_step-less :
      (n k now : ℕ) (s : System B) (main : MainThread)
      → s.main ≡ main
      → length s.inbox < 10
      → IsWaiting n (suc k) s
      → Ends n k (main_step ops config push (ok now) main s)
  unfolding main_step
  main_step-less n k now s receives e room w = receive-Ends n k now s s.queue e refl w
  main_step-less n k now s (sends x) e room w =
      inl (ground (arith, length-append s.inbox (session x ∷ []), no_kill-append s.inbox x))
  main_step-less n k now s unborn e room w = cc
  main_step-less n k now s (returned r) e room w = cc

  main_step-Ends :
      (n k now : ℕ) (s : System B) (main : MainThread)
      → s.main ≡ main
      → IsWaiting n k s
      → Ends n k (main_step ops config push (ok now) main s)
  unfolding main_step
  main_step-Ends n k now s receives e w =
      receive-Ends n k now s s.queue e refl (IsWaiting-suc n k s w)
  main_step-Ends n k now s (sends x) e w =
      inl (ground (arith, length-append s.inbox (session x ∷ []), no_kill-append s.inbox x))
  main_step-Ends n k now s unborn e w = cc
  main_step-Ends n k now s (returned r) e w = cc

  main_step-IsFree :
      (n now : ℕ) (s : System B) (main : MainThread)
      → s.main ≡ main
      → IsFree n s
      → IsFree n (main_step ops config push (ok now) main s)
  unfolding main_step
  main_step-IsFree n now s (returned r) e f = f
  main_step-IsFree n now s receives e f = cc f.over
  main_step-IsFree n now s (sends x) e f = cc f.over
  main_step-IsFree n now s unborn e f = cc f.over

  pub go-manager :
      (s : System B) → s.manager ≡ serves → go manager_goes s ≡ serve ops config push s.inbox s
  unfolding step
  go-manager s e = ground arith

  step-Ends : (n k : ℕ) (s : System B) (e : Event) → IsCalm e → Ends n k s → Ends n k (go e s)
  unfolding step proceed
  step-Ends n k s e goes_on (inl w) = inl (ground arith)
  step-Ends n k s e goes_on (inr f) = inr (ground arith)
  step-Ends n k s e timer_tests (inl w) = inl (ground arith)
  step-Ends n k s e timer_tests (inr f) = inr (ground arith)
  step-Ends n k s e (timer_sends wait now) (inl w) =
      inl (ground (arith, fire-IsWaiting n k s (after_wait wait now)))
  step-Ends n k s e (timer_sends wait now) (inr f) =
      inr (ground (arith, fire-IsFree n s (after_wait wait now)))
  step-Ends n k s e (main_turn now) (inl w) = main_step-Ends n k now s s.main refl w
  step-Ends n k s e (main_turn now) (inr f) = inr (main_step-IsFree n now s s.main refl f)
  step-Ends n k s e manager_turn (inl w) =
      inl (rw (go-manager s w.serving) (serve-IsWaiting n k s s.inbox refl w))
  step-Ends n k s e manager_turn (inr f) =
      inr (rw (go-manager s f.serving) (serve-IsFree n s s.inbox refl f))

  serve_waits : (s : System B) → s.stx ≡ true → serve ops config push [] s ≡ s
  unfolding serve
  serve_waits s holds =
      ap (λ c. if c || hears s.main then s else manager_returns ops config push s finished) holds

  turn-inbox :
      (n k now : ℕ) (s : System B) (inbox : List SessionSignal)
      → s.inbox ≡ inbox
      → IsWaiting n (suc k) s
      → Ends n k (go (main_goes (ok now)) (serve ops config push inbox s))
  unfolding step serve
  turn-inbox n k now s [] e w =
      subst (λ (x : System B). Ends n k (main_step ops config push (ok now) x.main x))
        (sym (serve_waits s w.holding))
        (main_step-less n k now s s.main refl (omega (arith, ap length e)) w)
  turn-inbox n k now s (x ∷ inbox) e w =
      let s' = serve ops config push (x ∷ inbox) s in
      main_step-Ends n k now s' s'.main refl (serve-less n k s x inbox e w)

  -- A turn of both gets one round further.
  turn-Ends :
      (n k now : ℕ) (s : System B)
      → Ends n (suc k) s
      → Ends n k (go (main_goes (ok now)) (go manager_goes s))
  turn-Ends n k now s (inr f) =
      step-Ends n k (go manager_goes s) _ (main_turn now) (step-Ends n k s _ manager_turn (inr f))
  turn-Ends n k now s (inl w) = rw (go-manager s w.serving) (turn-inbox n k now s s.inbox refl w)

  pub run-Ends :
      {k : ℕ} {es : List Event} (n : ℕ) (s : System B)
      → IsFair k es
      → Ends n k s
      → Ends n 0 (run ops config push es s)
  unfolding run
  run-Ends n s end h = h
  run-Ends n s (event calm fair) h = run-Ends n _ fair (step-Ends n _ s _ calm h)
  run-Ends n s (turn now fair) h = run-Ends n _ fair (turn-Ends n _ now s h)
