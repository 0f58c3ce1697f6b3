-- ===== src/Tests/Mailboxes.antt =====
-- Runs of the mailbox of src/ffikit.rs.
use pyroscope_rs.Agent.{System, build, failed, step, run, start}
use pyroscope_rs.Agent.Schedules.{end, event, turn, timer_tests}
use pyroscope_rs.Base.{ℕ, ◌≡◌, refl, ◌+◌, true, false, [], ◌∷◌, some, map}
use pyroscope_rs.Errors.{ok, err, ad_hoc, send_error}
use pyroscope_rs.Ffikit
use pyroscope_rs.Ffikit.{
  Mailbox, absent, stopping, agent_goes, call_send, thread_goes, kill, no_mailbox, send, steps,
}
use pyroscope_rs.Ffikit.Killed.{killed, started, killed-run}
use pyroscope_rs.Ffikit.Wedged.{failed_stop-wedges}
use pyroscope_rs.Timer.{check_listeners}
use pyroscope_rs.Tests.Agents.{counting, config, push, before, turns}

killed-run_example :
    (m : Mailbox ℕ) × (steps counting config push
        (killed counting config push 1003 (ok 1004) turns)
        (steps counting config push
          (map agent_goes before)
          (Ffikit.run counting config push (ok 0) no_mailbox).1)
      ≡ m)
    × (m.sender ≡ false)
    × (m.thread ≡ absent)
    × (Ffikit.run counting config push (ok 5) m ≡ (ok tt, started counting config push 5))
unfolding run step start check_listeners
killed-run_example =
    killed-run counting config push (λ b. ([], b + 1, refl)) (λ s. (ok tt, refl)) 0 5 before turns
      1003 4 (ok 1004) (event timer_tests end) refl
      (turn 1005 (turn 1005 (turn 1005 (turn 1005 end))))

-- an agent whose main thread had ended when it was stopped
abbrev lost : System ℕ
lost = record (build 0) { caller = failed send_error }

abbrev wedging : Mailbox ℕ
wedging = record { sender = true; thread = stopping; queue = []; agent = some lost }

failed_stop-wedges_example :
    (send kill (steps counting config push (thread_goes (ok 7) ∷ call_send kill ∷ []) wedging) ≡ (
      err send_error,
      steps counting config push (thread_goes (ok 7) ∷ call_send kill ∷ []) wedging,
    ))
    × (Ffikit.run counting config push
          (ok 5)
          (steps counting config push (thread_goes (ok 7) ∷ call_send kill ∷ []) wedging)
        ≡ (
          err (ad_hoc "FFI channel already initialized"),
          steps counting config push (thread_goes (ok 7) ∷ call_send kill ∷ []) wedging,
        ))
failed_stop-wedges_example =
    failed_stop-wedges counting config push wedging lost (ok 7) (call_send kill ∷ []) kill (ok 5)
      send_error refl refl refl refl
