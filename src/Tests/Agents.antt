-- ===== src/Tests/Agents.antt =====
-- Runs of the agent (src/pyroscope.rs) over a backend that counts its reports.
use pyroscope_rs.Agent.{
  System, ready, awaits, gone, returned, Event, call_start, call_stop, call_shutdown, proceeds,
  timer_checks, timer_fires, main_goes, manager_goes, build, step, run, proceed, fire, main_step,
  receive, handle, take_session, serve, start, stop, stop_terminates, send_signal,
}
use pyroscope_rs.Agent.Running.{stop_returns}
use pyroscope_rs.Agent.Schedules.{end, event, turn, timer_tests, made}
use pyroscope_rs.Agent.Stuck.{IsIdle, stop_awaits, shutdown_joins}
use pyroscope_rs.BackendImpl
use pyroscope_rs.BackendImpl.{Backend}
use pyroscope_rs.Base.{
  ℕ, true, ◌+◌, ◌≤◌, ◌<◌, ◌≡◌, refl, false, List, [], ◌∷◌, ◌++◌, Option, some, length, arith,
}
use pyroscope_rs.Config
use pyroscope_rs.Config.{PyroscopeConfig}
use pyroscope_rs.Errors.{Result, ok, err, ad_hoc}
use pyroscope_rs.Session
use pyroscope_rs.Session.{Session}
use pyroscope_rs.Session.Windows.{Ticks, Stops, windows_tile}
use pyroscope_rs.Timer.{after_wait, check_listeners}
use pyroscope_rs.Utils.{get_time_range, range_of}

abbrev pub counting : Backend ℕ
counting = record {
  initialize = λ n. (ok tt, n);
  shutdown = λ n. ok tt;
  report = λ n. (ok [], n + 1);
  add_tag = λ n tag. (ok tt, n);
  remove_tag = λ n tag. (ok tt, n);
}

abbrev broken : Backend ℕ
broken = record counting { report = λ n. (err (ad_hoc "pprof-rs: ProfilerGuard report error"), n) }

pub config : PyroscopeConfig
unfolding Config.new
config = Config.new "http://localhost:4040" "app" 100 "pyroscope-rs" "1.0"

abbrev pub push : Session → Option (Result (Unit {0}))
push s = some (ok tt)

-- a tick, and four turns after the stop
abbrev pub before : List Event
before = timer_checks ∷ []

abbrev pub turns : List Event
turns =
    manager_goes
    ∷ main_goes (ok 1005)
    ∷ manager_goes
    ∷ main_goes (ok 1005)
    ∷ manager_goes
    ∷ main_goes (ok 1005)
    ∷ manager_goes
    ∷ main_goes (ok 1005)
    ∷ []

abbrev started : System ℕ
started = run counting config push (call_start ∷ before) (build 0)

stop_returns_example :
    (s s' : System ℕ) × (run counting config push (call_start ∷ before) (build 0) ≡ s)
    × (run counting config push (call_stop (ok 1003) ∷ proceeds ∷ turns ++ proceeds ∷ []) s ≡ s')
    × (s'.caller ≡ ready)
    × (s'.running ≡ false)
    × (s'.main ≡ returned (ok tt))
    × (length s'.pushed + length s'.inbox ≡ made s + length s.queue + 1)
unfolding run step start check_listeners
stop_returns_example =
    stop_returns counting config push (λ b. ([], b + 1, refl)) (λ s. (ok tt, refl)) 0 before turns
      1003 4 (event timer_tests end) refl (turn 1005 (turn 1005 (turn 1005 (turn 1005 end))))

-- The signal of a tick is handled before the stop's own, and both sessions are pushed.
two_sessions :
    (run counting config push
      (call_start
          ∷ timer_checks
          ∷ timer_fires (ok tt) (ok 1000)
          ∷ call_stop (ok 1003)
          ∷ proceeds
          ∷ turns
        ++ manager_goes ∷ main_goes (ok 1005) ∷ proceeds ∷ [])
      (build 0)).caller
    ≡ ready
unfolding run step start check_listeners proceed fire after_wait get_time_range range_of main_step
    receive handle take_session serve stop stop_terminates send_signal BackendImpl.on_backend
    Session.new
two_sessions = refl

abbrev idle : System ℕ
idle = run broken config push (call_start ∷ []) (build 0)

idle-IsIdle : IsIdle idle
unfolding run step start
idle-IsIdle = record {
  at_work = refl;
  is_running = refl;
  sender = refl;
  waiting = refl;
  empty = refl;
}

stop_awaits_example :
    ((run broken config push
        (call_stop (ok 1003) ∷ proceeds ∷ main_goes (ok 1004) ∷ turns)
        idle).caller
      ≡ awaits)
    × ((run broken config push
          (call_stop (ok 1003) ∷ proceeds ∷ main_goes (ok 1004) ∷ turns)
          idle).main
        ≡ returned (err (ad_hoc "pprof-rs: ProfilerGuard report error")))
    × ((run broken config push
          (call_stop (ok 1003) ∷ proceeds ∷ main_goes (ok 1004) ∷ turns)
          idle).running
        ≡ true)
unfolding run step start
stop_awaits_example =
    stop_awaits broken config push idle 1003 (ok 1004) 0 0
      (ad_hoc "pprof-rs: ProfilerGuard report error") turns idle-IsIdle refl refl

shutdown_joins_example : ¬ (
    (run broken config push
      (call_shutdown ∷ proceeds ∷ proceeds ∷ timer_checks ∷ turns)
      idle).caller
    ≡ gone)
shutdown_joins_example =
    shutdown_joins broken config push idle (proceeds ∷ timer_checks ∷ turns) idle-IsIdle

windows_tile_example :
    (s : Session) × (s' : Session) × (l : Session) × Ticks (ok 1) 1003 s
    × Ticks (ok 1) 1010 s'
    × Stops (ok 1) 1017 l
    × (s.reports ≡ [])
    × (s'.reports ≡ [])
    × (l.reports ≡ [])
    × (s.until ≡ s.from + 10)
    × (s'.from ≡ s.until)
    × (s'.until ≡ 1010)
    × (l.from ≡ s'.until)
    × (l.from ≤ 1017)
    × (1017 < l.until)
    × (l.until ≡ l.from + 10)
windows_tile_example =
    windows_tile (ok 1) 1003 1010 1017 config [] [] [] (omega arith) (omega arith) refl refl
