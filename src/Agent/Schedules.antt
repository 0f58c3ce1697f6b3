-- ===== src/Agent/Schedules.antt =====
-- What a stop of the agent waits for, and the schedules that give the threads their turns (src/pyroscope.rs).
use pyroscope_rs.Base.{
  ℕ, zero, suc, ◌+◌, ◌*◌, ◌≤◌, ◌≡◌, refl, Bool, true, false, List, [], ◌∷◌, ◌++◌, some, length,
  arith, ◌⊎◌,
}
use pyroscope_rs.Agent.{
  SessionSignal, session, kill, MainThread, receives, sends, returned, unborn, serves, ready,
  awaits, System, Event, proceeds, timer_checks, timer_fires, main_goes, manager_goes, hears,
}
use pyroscope_rs.Errors.{Result, ok}
use pyroscope_rs.Session.{Session}
use pyroscope_rs.Timer.{TimerSignal, terminate, next_snapshot}

-- whether a queue holds a terminate, and what stands ahead of it
abbrev pub holds_terminate : List TimerSignal → Bool
holds_terminate [] = false
holds_terminate (terminate ∷ q) = true
holds_terminate (next_snapshot _ ∷ q) = holds_terminate q

abbrev pub ahead : List TimerSignal → ℕ
ahead [] = 0
ahead (terminate ∷ q) = 0
ahead (next_snapshot _ ∷ q) = suc (ahead q)

abbrev pub sending : MainThread → ℕ
sending (sends _) = 1
sending receives = 0
sending unborn = 0
sending (returned _) = 0

abbrev pub no_kill : List SessionSignal → Bool
no_kill [] = true
no_kill (kill ∷ inbox) = false
no_kill (session _ ∷ inbox) = no_kill inbox

module _ {B : Type 0} where
  -- The rounds that a stop still waits for, at most.
  abbrev pub rounds_left : System B → ℕ
  rounds_left s = 3 * ahead s.queue + 1 + 2 * sending s.main + length s.inbox

  -- The sessions that the main thread has made and the manager has not lost.
  abbrev pub made : System B → ℕ
  made s = length s.pushed + length s.inbox + sending s.main

  -- The caller waits in `stop`, and the terminate is on its way: within `k` rounds the main thread has
  -- handled it, and `n` sessions are made.
  pub record IsWaiting (n k : ℕ) (s : System B) : Type 0 where
    pub waiting : s.caller ≡ awaits
    pub is_running : s.running ≡ true
    pub hearing : hears s.main ≡ true
    pub serving : s.manager ≡ serves
    pub holding : s.stx ≡ true
    pub going_on : no_kill s.inbox ≡ true
    pub coming : holds_terminate s.queue ≡ true
    pub there : B
    pub backend : s.backend ≡ some there
    pub count : made s + ahead s.queue ≡ n
    pub within : rounds_left s ≤ k

  -- The main thread has ended and let the caller go.
  pub record IsFree (n : ℕ) (s : System B) : Type 0 where
    pub free : (s.caller ≡ awaits) ⊎ (s.caller ≡ ready)
    pub stopped : s.running ≡ false
    pub over : s.main ≡ returned (ok tt)
    pub serving : s.manager ≡ serves
    pub holding : s.stx ≡ true
    pub going_on : no_kill s.inbox ≡ true
    pub count : length s.pushed + length s.inbox ≡ n

  abbrev pub Ends : ℕ → ℕ → System B → Type 0
  Ends n k s = IsWaiting n k s ⊎ IsFree n s

-- Everything but the calls of the caller, who stands in `stop`; the clock can be read.
pub data IsCalm : Event → Type 0 where
  goes_on : IsCalm proceeds
  timer_tests : IsCalm timer_checks
  timer_sends : (wait : Result (Unit {0})) (now : Result ℕ) → IsCalm (timer_fires wait now)
  main_turn : (now : ℕ) → IsCalm (main_goes (ok now))
  manager_turn : IsCalm manager_goes

-- A schedule that gives the manager and the main thread a turn `n` times, whatever else it does.
pub data IsFair : ℕ → List Event → Type 0 where
  end : IsFair zero []
  event : {n : ℕ} {e : Event} {es : List Event} → IsCalm e → IsFair n es → IsFair n (e ∷ es)
  turn :
      {n : ℕ} (now : ℕ) {es : List Event}
      → IsFair n es
      → IsFair (suc n) (manager_goes ∷ main_goes (ok now) ∷ es)

pub holds_terminate-append :
    (q : List TimerSignal) (t : TimerSignal)
    → holds_terminate q ≡ true
    → (holds_terminate (q ++ t ∷ []) ≡ true) × (ahead (q ++ t ∷ []) ≡ ahead q)
holds_terminate-append [] t h = cc
holds_terminate-append (terminate ∷ q) t h = (refl, refl)
holds_terminate-append (next_snapshot n ∷ q) t h =
    let (here, same) = holds_terminate-append q t h in (here, omega arith)

pub no_kill-append :
    (inbox : List SessionSignal) (s : Session)
    → no_kill inbox ≡ true
    → no_kill (inbox ++ session s ∷ []) ≡ true
no_kill-append [] s h = refl
no_kill-append (kill ∷ inbox) s h = h
no_kill-append (session _ ∷ inbox) s h = no_kill-append inbox s h
