-- ===== src/Ffikit/Wedged.antt =====
-- A mailbox whose thread ended over an error (src/ffikit.rs).
use pyroscope_rs.Base.{ℕ, ◌≡◌, true, List, [], ◌∷◌, Option, some, arith}
use pyroscope_rs.BackendImpl.{Backend}
use pyroscope_rs.Config.{PyroscopeConfig}
use pyroscope_rs.Errors.{Result, err, ad_hoc, send_error, PyroscopeError}
use pyroscope_rs.Session.{Session}
use pyroscope_rs.Agent.{System, failed}
use pyroscope_rs.Ffikit.{
  Signal, stopping, absent, Mailbox, FfiEvent, agent_goes, call_run, call_send, thread_goes, send,
  run, stop, thread_step, step, steps,
}

module _ {B : Type 0} (ops : Backend B) (config : PyroscopeConfig)
    (push : Session → Option (Result (Unit {0}))) where
  -- `SENDER` is there, and nobody reads.
  record IsDeaf (m : Mailbox B) : Type 0 where
    there : m.sender ≡ true
    alone : m.thread ≡ absent

  step-IsDeaf : (m : Mailbox B) (e : FfiEvent B) → IsDeaf m → IsDeaf (step ops config push e m)
  unfolding step run send thread_step
  step-IsDeaf m (agent_goes e) d = ground arith
  step-IsDeaf m (call_run built) d = ground arith
  step-IsDeaf m (call_send signal) d = ground arith
  step-IsDeaf m (thread_goes now) d = ground arith

  steps-IsDeaf :
      (es : List (FfiEvent B)) (m : Mailbox B) → IsDeaf m → IsDeaf (steps ops config push es m)
  unfolding steps
  steps-IsDeaf [] m d = d
  steps-IsDeaf (e ∷ es) m d = steps-IsDeaf es (step ops config push e m) (step-IsDeaf m e d)

  -- The thread of a mailbox finds that the stop of its agent failed: whatever happens after that, no
  -- signal can be sent, and no agent can be run.
  pub failed_stop-wedges :
      (m : Mailbox B) (s : System B) (now : Result ℕ) (es : List (FfiEvent B)) (signal : Signal)
      (built : Result B) (e : PyroscopeError)
      → m.sender ≡ true
      → m.thread ≡ stopping
      → m.agent ≡ some s
      → s.caller ≡ failed e
      → let m' = steps ops config push (thread_goes now ∷ es) m in
        (send signal m' ≡ (err send_error, m'))
        × (run ops config push built m' ≡ (err (ad_hoc "FFI channel already initialized"), m'))
  unfolding steps step thread_step stop send run
  failed_stop-wedges m s now es signal built e there at agent fails =
      let first : IsDeaf (step ops config push (thread_goes now) m) = ground arith in
      let d = steps-IsDeaf es _ first in ground arith
