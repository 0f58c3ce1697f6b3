-- ===== src/Ffikit/Killed.antt =====
-- A run of the mailbox from its start to the kill and to the next run (src/ffikit.rs).
use pyroscope_rs.Base.{
  ℕ, ◌+◌, ◌≡◌, refl, ap, ◌∙◌, true, false, List, [], ◌∷◌, ◌++◌, Option, some, map, arith,
}
use pyroscope_rs.Agent
use pyroscope_rs.Agent.{
  System, Event, call_start, call_stop, proceeds, manager_goes, main_goes, build, ready,
}
use pyroscope_rs.Agent.Schedules.{
  IsCalm, goes_on, timer_tests, timer_sends, main_turn, manager_turn, IsFair, end, event, turn,
  rounds_left,
}
use pyroscope_rs.Agent.Running.{stop_returns}
use pyroscope_rs.Backend.{Report}
use pyroscope_rs.BackendImpl.{Backend}
use pyroscope_rs.Config.{PyroscopeConfig}
use pyroscope_rs.Errors.{Result, ok}
use pyroscope_rs.Session.{Session}
use pyroscope_rs.Ffikit.{
  kill, listens, stopping, absent, Mailbox, FfiEvent, agent_goes, call_send, thread_goes,
  no_mailbox, is_call, send, run, take_signal, stop, thread_step, step, steps,
}

IsCalm-call : {e : Event} → IsCalm e → is_call e ≡ false
IsCalm-call goes_on = refl
IsCalm-call timer_tests = refl
IsCalm-call (timer_sends wait now) = refl
IsCalm-call (main_turn now) = refl
IsCalm-call manager_turn = refl

module _ {B : Type 0} (ops : Backend B) (config : PyroscopeConfig)
    (push : Session → Option (Result (Unit {0}))) where
  steps-append :
      (es fs : List (FfiEvent B)) (m : Mailbox B)
      → steps ops config push (es ++ fs) m ≡ steps ops config push fs (steps ops config push es m)
  unfolding steps
  steps-append [] fs m = refl
  steps-append (e ∷ es) fs m = steps-append es fs (step ops config push e m)

  step-calm :
      (m : Mailbox B) (s : System B) (e : Event)
      → is_call e ≡ false
      → step ops config push (agent_goes e) (record m { agent = some s })
        ≡ record m { agent = some (Agent.step ops config push e s) }
  unfolding step
  step-calm m s e calm = rw (calm, step)

  -- The agent's threads go on beside the mailbox.
  steps-agent :
      {k : ℕ} {es : List Event} (m : Mailbox B) (s : System B)
      → IsFair k es
      → steps ops config push (map agent_goes es) (record m { agent = some s })
        ≡ record m { agent = some (Agent.run ops config push es s) }
  unfolding steps Agent.run
  steps-agent m s end = refl
  steps-agent m s (event {e = e} {es = es} calm fair) =
      ap (steps ops config push (map agent_goes es)) (step-calm m s e (IsCalm-call calm))
      ∙ steps-agent m (Agent.step ops config push e s) fair
  steps-agent m s (turn now {es = es} fair) =
      let s' = Agent.step ops config push manager_goes s in
      ap
        (λ x.
          steps ops config push (map agent_goes es)
            (step ops config push (agent_goes (main_goes (ok now))) x))
        (step-calm m s manager_goes refl)
      ∙ ap (steps ops config push (map agent_goes es)) (step-calm m s' (main_goes (ok now)) refl)
      ∙ steps-agent m (Agent.step ops config push (main_goes (ok now)) s') fair

  abbrev pub started : B → Mailbox B
  started b = record {
    sender = true;
    thread = listens;
    queue = [];
    agent = some (Agent.step ops config push call_start (build b));
  }

  run-started :
      (m : Mailbox B) (b : B) → m.sender ≡ false → run ops config push (ok b) m ≡ (ok tt, started b)
  unfolding run
  run-started m b none_there = rw (none_there, run)

  -- A kill is sent to a mailbox, and its thread takes it.
  kill-stops :
      (m : Mailbox B) (s : System B) (t : ℕ)
      → m.sender ≡ true
      → m.thread ≡ listens
      → m.queue ≡ []
      → m.agent ≡ some s
      → steps ops config push (call_send kill ∷ thread_goes (ok t) ∷ []) m ≡ record m {
        thread = stopping;
        agent = some (Agent.step ops config push (call_stop (ok t)) s);
      }
  unfolding steps step send thread_step take_signal
  kill-stops m s t there listening empty at = ground arith

  -- The agent has returned from its stop, and the thread ends.
  stop-frees :
      (m : Mailbox B) (s : System B) (now : Result ℕ)
      → m.thread ≡ stopping
      → m.agent ≡ some s
      → s.caller ≡ ready
      → ((steps ops config push (thread_goes now ∷ []) m).sender ≡ false)
        × ((steps ops config push (thread_goes now ∷ []) m).thread ≡ absent)
  unfolding steps step thread_step stop
  stop-frees m s now at agent returned = ground arith

  calm-append : {k : ℕ} {es : List Event} → IsFair k es → IsFair k (es ++ proceeds ∷ [])
  calm-append end = event goes_on end
  calm-append (event calm fair) = event calm (calm-append fair)
  calm-append (turn now fair) = turn now (calm-append fair)

  -- a kill, the time that the thread of the mailbox takes to stop its agent, and its end
  abbrev pub killed : ℕ → Result ℕ → List Event → List (FfiEvent B)
  killed t now after =
      call_send kill ∷ thread_goes (ok t) ∷ map agent_goes (proceeds ∷ after ++ proceeds ∷ [])
      ++ thread_goes now ∷ []

  -- the state of the mailbox when the agent has returned from its stop
  abbrev pub stopped : B → System B → Mailbox B
  stopped b s = record (started b) { thread = stopping; agent = some s }

  killed-stopped :
      {k : ℕ} {before after : List Event} (b : B) (t : ℕ) (now : Result ℕ)
      → IsFair 0 before
      → IsFair k after
      → steps ops config push
          (killed t now after)
          (steps ops config push (map agent_goes before) (started b))
        ≡ steps ops config push (thread_goes now ∷ []) (
            stopped b (
              Agent.run ops config push
                (call_stop (ok t) ∷ proceeds ∷ after ++ proceeds ∷ [])
                (Agent.run ops config push (call_start ∷ before) (build b))))
  unfolding Agent.run
  killed-stopped {before = before} {after = after} b t now calm fair =
      let s = Agent.run ops config push before (Agent.step ops config push call_start (build b)) in
      let s' = Agent.step ops config push (call_stop (ok t)) s in
      let m = record (started b) { agent = some s } in
      let rest = map agent_goes (proceeds ∷ after ++ proceeds ∷ []) ++ thread_goes now ∷ [] in
      ap (steps ops config push (killed t now after))
        (steps-agent (started b) (Agent.step ops config push call_start (build b)) calm)
      ∙ steps-append (call_send kill ∷ thread_goes (ok t) ∷ []) rest m
      ∙ ap (steps ops config push rest) (kill-stops m s t refl refl refl refl)
      ∙ steps-append (map agent_goes (proceeds ∷ after ++ proceeds ∷ [])) (thread_goes now ∷ [])
          (stopped b s')
      ∙ ap (steps ops config push (thread_goes now ∷ []))
          (steps-agent (stopped b s') s' (event goes_on (calm-append fair)))

module _ {B : Type 0} (ops : Backend B) (config : PyroscopeConfig)
    (push : Session → Option (Result (Unit {0})))
    (reports : (b : B) → (rs : List Report) × (b' : B) × (ops.report b ≡ (ok rs, b')))
    (pushes : (s : Session) → (r : Result (Unit {0})) × (push s ≡ some r)) where
  -- An agent is run and killed through the mailbox, its backend reports without an error, sessions are pushed
  -- without a panic and the clock can be read. Whatever its threads did before the kill and do after it, once the
  -- manager and right after it the main thread have had their turns three times and as often as `rounds_left`
  -- says at the kill, the thread of the mailbox ends, and
  -- the mailbox can be run again, with the next agent started in it.
  pub killed-run :
      (b b' : B) (before after : List Event) (t k : ℕ) (now : Result ℕ)
      → IsFair 0 before
      → rounds_left (Agent.run ops config push (call_start ∷ before) (build b)) + 3 ≡ k
      → IsFair k after
      → (m : Mailbox B) × (steps ops config push (killed ops config push t now after) (
            steps ops config push (map agent_goes before) (run ops config push (ok b) no_mailbox).1)
          ≡ m)
        × (m.sender ≡ false)
        × (m.thread ≡ absent)
        × (run ops config push (ok b') m ≡ (ok tt, started ops config push b'))
  killed-run b b' before after t k now calm bound fair =
      let (s, s', from_start, to_end, returns, stopped_it, over, count) =
        stop_returns ops config push reports pushes b before after t k calm bound fair in
      let m = steps ops config push (thread_goes now ∷ []) (stopped ops config push b s') in
      let (free, gone) =
        stop-frees ops config push (stopped ops config push b s') s' now refl refl returns in
      let reached =
        ap
          (λ x.
            steps ops config push (killed ops config push t now after)
              (steps ops config push (map agent_goes before) x.1))
          (run-started ops config push no_mailbox b refl)
        ∙ killed-stopped ops config push b t now calm fair
        ∙ ap (λ x. steps ops config push (thread_goes now ∷ []) (stopped ops config push b x))
            (ap (Agent.run ops config push (call_stop (ok t) ∷ proceeds ∷ after ++ proceeds ∷ []))
                from_start
              ∙ to_end) in
      (m, reached, free, gone, run-started ops config push m b' free)
