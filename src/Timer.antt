-- ===== src/Timer.antt =====
-- src/timer/mod.rs and src/timer/epoll.rs: the thread that tells its listeners every ten seconds that a
-- window has ended. A listener is the number of the channel that it sends to, and the calls of libc are
-- the record `Libc`.
use pyroscope_rs.Base.{ℕ, List, [], ◌∷◌, ◌++◌, Option, none, some}
use pyroscope_rs.Errors.{IoKind, interrupted, io, Result, ok, err, ◌>>=◌}
use pyroscope_rs.Utils.{get_time_range, CInt, check_err}

pub data TimerSignal : Type 0 where
  terminate : TimerSignal
  next_snapshot : ℕ → TimerSignal

-- `itimerspec` with its two times in seconds and nanoseconds
pub record ITimerSpec : Type 0 where
  pub interval_sec : ℕ
  pub interval_nsec : ℕ
  pub value_sec : ℕ
  pub value_nsec : ℕ

pub record Libc : Type 0 where
  pub errno : IoKind
  pub timerfd_create : CInt
  pub timerfd_settime : ℕ → ITimerSpec → CInt
  pub epoll_create1 : CInt
  pub epoll_ctl : ℕ → ℕ → CInt
  pub epoll_wait : ℕ → CInt
  pub read : ℕ → CInt

module _ (libc : Libc) where
  -- the wrappers: the value of a call, or the last error
  abbrev checked : CInt → Result ℕ
  unfolding check_err
  checked num = check_err libc.errno num >>= λ n. ok n.1

  unfoldable pub set_timerfd : Result ℕ → ℕ → ℕ → Result ℕ
  unfolding checked get_time_range check_err
  set_timerfd now cycle_secs cycle_nanos = do
    tfd ← checked libc.timerfd_create
    range ← get_time_range now 0
    _ ← checked (
        libc.timerfd_settime tfd (record {
          interval_sec = cycle_secs;
          interval_nsec = cycle_nanos;
          value_sec = range.until;
          value_nsec = 0;
        }))
    ok tfd

  unfoldable pub create_epollfd : ℕ → Result ℕ
  unfolding checked check_err
  create_epollfd timer_fd = do
    epoll_fd ← checked libc.epoll_create1
    _ ← checked (libc.epoll_ctl epoll_fd timer_fd)
    ok epoll_fd

  unfoldable pub epoll_wait : ℕ → ℕ → Result (Unit {0})
  unfolding checked check_err
  epoll_wait timer_fd epoll_fd = do
    _ ← checked (libc.epoll_wait epoll_fd)
    _ ← checked (libc.read timer_fd)
    ok tt

-- The listeners of a timer. `dummy` is the channel of the first listener, whose receiver is gone.
abbrev pub dummy : ℕ
dummy = 0

abbrev pub initial_txs : List ℕ
initial_txs = dummy ∷ []

abbrev pub attach_listener : List ℕ → ℕ → List ℕ
attach_listener txs tx = txs ++ tx ∷ []

abbrev pub drop_listeners : List ℕ → List ℕ
drop_listeners txs = []

-- The thread of the timer: at the test of the listeners, in `epoll_wait`, or at its end.
pub data TimerThread : Type 0 where
  checks : TimerThread
  waits : TimerThread
  ended : Result (Unit {0}) → TimerThread

unfoldable pub check_listeners : List ℕ → TimerThread
check_listeners [] = ended (ok tt)
check_listeners (_ ∷ _) = waits

-- What the thread sends after `epoll_wait`, if it sends, and where it goes on
unfoldable pub after_wait : Result (Unit {0}) → Result ℕ → Option TimerSignal × TimerThread
unfolding get_time_range
after_wait (err (io interrupted)) now = (none, checks)
after_wait (err e) now = (none, ended (err e))
after_wait (ok _) now = elim (get_time_range now 0) [
  | err e ↦ (none, ended (err e))
  | ok range ↦ (some (next_snapshot range.from), checks)
]
