-- ===== src/Agent.antt =====
-- src/pyroscope.rs: the agent with its threads. A `System` is the agent, its channels and the three
-- threads beside the caller: the timer's (src/timer/epoll.rs), the main thread, and the session
-- manager's (src/session.rs). An `Event` lets one of them go on to its next point of contact with the
-- others; where it has to wait, the event changes nothing. A list of events is an interleaving.
pub mod Schedules
pub mod Stop
pub mod Running
pub mod Stuck
pub mod ThreadTags
use pyroscope_rs.Base.{
  ℕ, zero, suc, ◌+◌, String, Bool, true, false, ◌||◌, List, [], ◌∷◌, ◌++◌, Option, none, some,
  length, eqb, ltb, if◌then◌else◌,
}
use pyroscope_rs.Backend.{Report, Tag, ThreadTag}
use pyroscope_rs.BackendImpl
use pyroscope_rs.BackendImpl.{Backend}
use pyroscope_rs.Config.{PyroscopeConfig}
use pyroscope_rs.Errors.{Result, ok, err, ◌>>=◌, PyroscopeError, ad_hoc, send_error}
use pyroscope_rs.Session
use pyroscope_rs.Session.{Session}
use pyroscope_rs.Timer.{
  TimerSignal, terminate, next_snapshot, TimerThread, checks, waits, ended, check_listeners,
  after_wait, initial_txs, attach_listener, drop_listeners,
}
use pyroscope_rs.Utils.{get_time_range}

pub data SessionSignal : Type 0 where
  session : Session → SessionSignal
  kill : SessionSignal

-- the main thread: not spawned, in `rx.recv`, in `stx.send`, or at its end
pub data MainThread : Type 0 where
  unborn : MainThread
  receives : MainThread
  sends : Session → MainThread
  returned : Result (Unit {0}) → MainThread

-- the thread of the session manager; its end may be a panic in the push of a session
pub data ManagerThread : Type 0 where
  serves : ManagerThread
  finished : ManagerThread
  panicked : ManagerThread

-- The caller: it holds an agent that is ready or running, or stands in `stop` or in `shutdown`.
pub data Caller : Type 0 where
  ready : Caller
  active : Caller
  stops : Caller
  awaits : Caller
  failed : PyroscopeError → Caller
  drops : Caller
  joins_timer : Caller
  kills : Caller
  joins_manager : Caller
  joins_main : Caller
  gone : Caller

pub record System (B : Type 0) : Type 0 where
  pub caller : Caller
  pub backend : Option B
  pub txs : List ℕ
  pub timer : TimerThread
  -- the number of the channel to the main thread, whether the agent holds a sender, what is in it
  pub channel : ℕ
  pub tx : Bool
  pub queue : List TimerSignal
  pub main : MainThread
  pub running : Bool
  -- the channel to the session manager, whether the agent holds a sender, and the sessions that were pushed
  pub stx : Bool
  pub inbox : List SessionSignal
  pub manager : ManagerThread
  pub pushed : List Session

pub data Event : Type 0 where
  call_start : Event
  call_stop : Result ℕ → Event
  call_shutdown : Event
  proceeds : Event
  timer_checks : Event
  timer_fires : Result (Unit {0}) → Result ℕ → Event
  main_goes : Result ℕ → Event
  manager_goes : Event

-- the capacity of the channel to the session manager
abbrev pub inbox_capacity : ℕ
inbox_capacity = 10

abbrev listed : ℕ → List ℕ → Bool
listed n [] = false
listed n (m ∷ ms) = if eqb n m then true else listed n ms

-- whether the receiver of the main thread's channel is there
abbrev pub hears : MainThread → Bool
hears receives = true
hears (sends _) = true
hears unborn = false
hears (returned _) = false

module _ {B : Type 0} where
  -- what `build` gives, over a backend that is initialized
  abbrev pub build : B → System B
  build b = record {
    caller = ready;
    backend = some b;
    txs = initial_txs;
    timer = checks;
    channel = 0;
    tx = false;
    queue = [];
    main = unborn;
    running = false;
    stx = true;
    inbox = [];
    manager = serves;
    pushed = [];
  }

  -- `sender.send(signal)`; the receiver may be gone
  unfoldable pub send_signal : System B → TimerSignal → Result (System B)
  send_signal s signal =
      if hears s.main then ok (record s { queue = s.queue ++ signal ∷ [] }) else err send_error

  -- `start`
  unfoldable pub start : System B → System B
  start s = record s {
    caller = active;
    running = true;
    channel = suc s.channel;
    txs = attach_listener s.txs (suc s.channel);
    tx = true;
    queue = [];
    main = receives;
  }

  -- an error of `stop`, at which the agent is dropped with its senders
  abbrev pub fails : System B → PyroscopeError → System B
  fails s e = record s { caller = failed e; tx = false; stx = false }

  -- `stop` up to the first send
  unfoldable pub stop : Result ℕ → System B → System B
  unfolding send_signal get_time_range
  stop now s =
      if s.tx
      then elim (get_time_range now 0 >>= λ range. send_signal s (next_snapshot range.until)) [
        | err e ↦ fails s e
        | ok s' ↦ record s' { caller = stops }
      ]
      else record s { caller = awaits }

  -- the second send, after which the sender is dropped
  unfoldable pub stop_terminates : System B → System B
  unfolding send_signal
  stop_terminates s = elim (send_signal s terminate) [
    | err e ↦ fails s e
    | ok s' ↦ record s' { caller = awaits; tx = false }
  ]

  -- the next part of `stop` or of `shutdown`, if the caller does not have to wait
  unfoldable pub proceed : Caller → System B → System B
  unfolding stop_terminates
  proceed stops s = stop_terminates s
  proceed awaits s = if s.running then s else record s { caller = ready }
  proceed drops s = record s { txs = drop_listeners s.txs; caller = joins_timer }
  proceed joins_timer s = elim s.timer [ ended _ ↦ record s { caller = kills } | _ ↦ s ]
  proceed kills s = elim s.manager [
    | serves ↦
        if ltb (length s.inbox) inbox_capacity
        then record s { inbox = s.inbox ++ kill ∷ []; caller = joins_manager }
        else s
    | _ ↦ record s { caller = joins_manager }
  ]
  proceed joins_manager s = elim s.manager [ serves ↦ s | _ ↦ record s { caller = joins_main } ]
  proceed joins_main s =
      if hears s.main then s else record s { caller = gone; tx = false; stx = false }
  proceed _ s = s

  -- the timer's thread sends to its listeners, of which the main thread may be one
  unfoldable pub fire : System B → Option TimerSignal × TimerThread → System B
  fire s (none, timer) = record s { timer = timer }
  fire s (some signal, timer) =
      if listed s.channel s.txs
      then if hears s.main
        then record s { queue = s.queue ++ signal ∷ []; timer = timer }
        else record s { timer = timer }
      else record s { timer = timer }

  -- the main thread at its end, where its receiver is dropped
  abbrev pub main_returns : System B → Result (Unit {0}) → System B
  main_returns s result = record s { main = returned result; queue = [] }

  module _ (ops : Backend B) (config : PyroscopeConfig)
      (push : Session → Option (Result (Unit {0}))) where
    -- a new session out of what the backend reported
    unfoldable pub take_session : Result ℕ → ℕ → Result (List Report) → System B → System B
    take_session now until report s =
        elim (report >>= λ reports. Session.new now until config reports) [
          | err e ↦ main_returns s (err e)
          | ok new_session ↦ record s { main = sends new_session }
        ]

    -- the handling of a signal by the main thread
    unfoldable pub handle : Result ℕ → TimerSignal → System B → System B
    unfolding take_session BackendImpl.on_backend
    handle now terminate s = main_returns (record s { running = false }) (ok tt)
    handle now (next_snapshot until) s =
        let (report, backend) =
          BackendImpl.on_backend (ad_hoc "PyroscopeAgent - Failed to unwrap backend") ops.report
            s.backend in
        take_session now until report (record s { backend = backend })

    unfoldable pub receive : Result ℕ → List TimerSignal → System B → System B
    unfolding handle
    receive now [] s = if s.tx || listed s.channel s.txs then s else main_returns s (ok tt)
    receive now (signal ∷ queue) s = handle now signal (record s { queue = queue })

    unfoldable pub main_step : Result ℕ → MainThread → System B → System B
    unfolding receive
    main_step now receives s = receive now s.queue s
    main_step now (sends new_session) s = elim s.manager [
      | serves ↦
          if ltb (length s.inbox) inbox_capacity
          then record s { inbox = s.inbox ++ session new_session ∷ []; main = receives }
          else s
      | _ ↦ main_returns s (err send_error)
    ]
    main_step now unborn s = s
    main_step now (returned _) s = s

    -- the session manager at its end, where its receiver is dropped
    abbrev pub manager_returns : System B → ManagerThread → System B
    manager_returns s manager = record s { manager = manager; inbox = [] }

    -- the session manager takes what is in its channel; it ends when no sender is left
    unfoldable pub serve : List SessionSignal → System B → System B
    serve [] s = if s.stx || hears s.main then s else manager_returns s finished
    serve (kill ∷ inbox) s = manager_returns s finished
    serve (session new_session ∷ inbox) s = elim (push new_session) [
      | none ↦ manager_returns s panicked
      | some _ ↦ record s { inbox = inbox; pushed = s.pushed ++ new_session ∷ [] }
    ]

    unfoldable pub step : Event → System B → System B
    unfolding start stop proceed fire main_step serve check_listeners after_wait
        BackendImpl.shutdown
    step call_start s = elim s.caller [ ready ↦ start s | _ ↦ s ]
    step (call_stop now) s = elim s.caller [ active ↦ stop now s | _ ↦ s ]
    step call_shutdown s =
        let s' = record s { backend = (BackendImpl.shutdown ops s.backend).1; caller = drops } in
        elim s.caller [ ready ↦ s' | active ↦ s' | _ ↦ s ]
    step proceeds s = proceed s.caller s
    step timer_checks s = elim s.timer [
      | checks ↦ record s { timer = check_listeners s.txs }
      | _ ↦ s
    ]
    step (timer_fires wait now) s = elim s.timer [ waits ↦ fire s (after_wait wait now) | _ ↦ s ]
    step (main_goes now) s = main_step now s.main s
    step manager_goes s = elim s.manager [ serves ↦ serve s.inbox s | _ ↦ s ]

    unfoldable pub run : List Event → System B → System B
    run [] s = s
    run (e ∷ es) s = run es (step e s)
