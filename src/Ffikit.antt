-- ===== src/Ffikit.antt =====
-- src/ffikit.rs: the mailbox through which the bindings reach a running agent, which a thread of its own
-- owns. The agent is the system of Agent; `SENDER` is whether the mailbox is there.
pub mod Killed
pub mod Wedged
use pyroscope_rs.Base.{
  String, Bool, true, false, List, [], ◌∷◌, ◌++◌, Option, none, some, if◌then◌else◌, ℕ,
}
use pyroscope_rs.Agent
use pyroscope_rs.Agent.ThreadTags
use pyroscope_rs.Agent.{
  System, Event, call_start, call_stop, call_shutdown, gone, build, ready, failed,
}
use pyroscope_rs.Backend.{Tag}
use pyroscope_rs.BackendImpl.{Backend}
use pyroscope_rs.Config.{PyroscopeConfig}
use pyroscope_rs.Errors.{Result, ok, err, ad_hoc, send_error}
use pyroscope_rs.Session.{Session}

pub data Signal : Type 0 where
  kill : Signal
  add_thread_tag : ℕ → Tag → Signal
  remove_thread_tag : ℕ → Tag → Signal

-- the thread of the mailbox: in `receiver.recv`, in `stop`, or not there
pub data FfiThread : Type 0 where
  listens : FfiThread
  stopping : FfiThread
  absent : FfiThread

pub record Mailbox (B : Type 0) : Type 0 where
  pub sender : Bool
  pub thread : FfiThread
  pub queue : List Signal
  pub agent : Option (System B)

-- An agent's event, a call of `run` with what the build of its agent gives or of `send`, or a part of the thread.
pub data FfiEvent (B : Type 0) : Type 0 where
  agent_goes : Event → FfiEvent B
  call_run : Result B → FfiEvent B
  call_send : Signal → FfiEvent B
  thread_goes : Result ℕ → FfiEvent B

-- whether the receiver is there
abbrev pub reads : FfiThread → Bool
reads listens = true
reads stopping = true
reads absent = false

-- The calls of an agent are the thread's alone.
abbrev is_call : Event → Bool
is_call call_start = true
is_call (call_stop _) = true
is_call call_shutdown = true
is_call _ = false

module _ {B : Type 0} where
  abbrev pub no_mailbox : Mailbox B
  no_mailbox = record { sender = false; thread = absent; queue = []; agent = none }

  unfoldable pub send : Signal → Mailbox B → Result (Unit {0}) × Mailbox B
  send signal m =
      if m.sender
      then if reads m.thread
        then (ok tt, record m { queue = m.queue ++ signal ∷ [] })
        else (err send_error, m)
      else (err (ad_hoc "FFI channel not initialized"), m)

  module _ (ops : Backend B) (config : PyroscopeConfig)
      (push : Session → Option (Result (Unit {0}))) where
    unfoldable pub run : Result B → Mailbox B → Result (Unit {0}) × Mailbox B
    unfolding Agent.step
    run built m =
        if m.sender then (err (ad_hoc "FFI channel already initialized"), m) else elim built [
          | err e ↦ (err e, m)
          | ok b ↦ (
            ok tt,
            record {
              sender = true;
              thread = listens;
              queue = [];
              agent = some (Agent.step ops config push call_start (build b));
            },
          )
        ]

    -- a signal that the thread takes; an error of a tag is logged
    unfoldable pub take_signal : Result ℕ → Signal → System B → Mailbox B → Mailbox B
    unfolding Agent.step ThreadTags.add_thread_tag ThreadTags.remove_thread_tag
    take_signal now kill s m = record m {
      thread = stopping;
      agent = some (Agent.step ops config push (call_stop now) s);
    }
    take_signal now (add_thread_tag thread_id tag) s m = record m {
      agent = some (ThreadTags.add_thread_tag ops s thread_id tag).1;
    }
    take_signal now (remove_thread_tag thread_id tag) s m = record m {
      agent = some (ThreadTags.remove_thread_tag ops s thread_id tag).1;
    }

    -- the end of `stop`, if the agent's `stop` has returned: the agent is dropped, and the thread goes
    -- with its receiver
    unfoldable pub stop : System B → Mailbox B → Mailbox B
    stop s m = elim s.caller [
      | ready ↦ record {
        sender = false;
        thread = absent;
        queue = [];
        agent = some (record s { caller = gone; tx = false; stx = false });
      }
      | failed _ ↦ record m { thread = absent; queue = [] }
      | _ ↦ m
    ]

    unfoldable pub thread_step : Result ℕ → FfiThread → Mailbox B → Mailbox B
    unfolding take_signal stop
    thread_step now listens m = elim m.agent [
      | none ↦ m
      | some s ↦ elim m.queue [
        | [] ↦ m
        | signal ∷ queue ↦ take_signal now signal s (record m { queue = queue })
      ]
    ]
    thread_step now stopping m = elim m.agent [ none ↦ m | some s ↦ stop s m ]
    thread_step now absent m = m

    abbrev agent_step : Event → Option (System B) → Option (System B)
    agent_step e none = none
    agent_step e (some s) = some (if is_call e then s else Agent.step ops config push e s)

    unfoldable pub step : FfiEvent B → Mailbox B → Mailbox B
    unfolding run send thread_step Agent.step
    step (agent_goes e) m = record m { agent = agent_step e m.agent }
    step (call_run built) m = (run built m).1
    step (call_send signal) m = (send signal m).1
    step (thread_goes now) m = thread_step now m.thread m

    unfoldable pub steps : List (FfiEvent B) → Mailbox B → Mailbox B
    steps [] m = m
    steps (e ∷ es) m = steps es (step e m)
