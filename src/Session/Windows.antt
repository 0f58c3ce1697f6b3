-- ===== src/Session/Windows.antt =====
-- The windows of the sessions that the timer's signals and the stop of the agent make
-- (src/session.rs, src/timer/epoll.rs, src/pyroscope.rs).
use pyroscope_rs.Base.{ℕ, ◌+◌, ◌-◌, ◌*◌, ◌/◌, ◌%◌, ◌^◌, ◌≤◌, ◌<◌, ◌≡◌, refl, List, arith, some}
use pyroscope_rs.Backend.{Report}
use pyroscope_rs.Config.{PyroscopeConfig}
use pyroscope_rs.Errors.{Result, ok}
use pyroscope_rs.Session.{Session, new}
use pyroscope_rs.Timer.{next_snapshot, after_wait, checks}
use pyroscope_rs.Utils.{TimeRange, range_of, get_time_range}

abbrev session : PyroscopeConfig → List Report → ℕ → Session
session config reports from = record {
  config = config;
  reports = reports;
  from = from;
  until = from + 10;
}

-- Without wrap-around.
new-session :
    (now : Result ℕ) (n : ℕ) (config : PyroscopeConfig) (reports : List Report)
    → 10 ≤ n
    → n < 2 ^ 64 - 10
    → new now n config reports ≡ ok (session config reports (n / 10 * 10 - 10))
unfolding new get_time_range range_of
new-session now n config reports low high = ground arith

-- What the timer sends when its clock shows `t`, and the session that it leads to.
pub record Ticks (now : Result ℕ) (t : ℕ) (s : Session) : Type 0 where
  pub when : ℕ
  pub fires : after_wait (ok tt) (ok t) ≡ (some (next_snapshot when), checks)
  pub makes : new now when s.config s.reports ≡ ok s

-- The last session, of a stop when the clock shows `u`.
pub record Stops (now : Result ℕ) (u : ℕ) (s : Session) : Type 0 where
  pub range : TimeRange
  pub reads : get_time_range (ok u) 0 ≡ ok range
  pub makes : new now range.until s.config s.reports ≡ ok s

Ticks-session :
    (now : Result ℕ) (t : ℕ) (config : PyroscopeConfig) (reports : List Report)
    → 20 ≤ t
    → t < 2 ^ 64 - 20
    → Ticks now t (session config reports (t / 10 * 10 - 10))
unfolding after_wait get_time_range range_of
Ticks-session now t config reports low high =
    let e : t / 10 * 10 / 10 * 10 - 10 ≡ t / 10 * 10 - 10 = omega arith in
    record {
      when = t / 10 * 10;
      fires = refl;
      makes = rw e at (new-session now (t / 10 * 10) config reports (omega arith) (omega arith));
    }

Stops-session :
    (now : Result ℕ) (u : ℕ) (config : PyroscopeConfig) (reports : List Report)
    → u < 2 ^ 64 - 30
    → Stops now u (session config reports (u / 10 * 10))
unfolding get_time_range range_of
Stops-session now u config reports high =
    let e : (u / 10 * 10 + 10) % 2 ^ 64 / 10 * 10 - 10 ≡ u / 10 * 10 = omega arith in
    record {
      range = range_of u;
      reads = refl;
      makes = rw e at (
          new-session now ((u / 10 * 10 + 10) % 2 ^ 64) config reports (omega arith) (omega arith));
    }

-- The sessions of two ticks of the timer, the second in the ten seconds after those of the first, and
-- of a stop within the ten seconds of the second, exist and are adjacent windows of ten seconds: each
-- begins where the one before it ends, that of a tick ends at the start of the tick's ten seconds, and
-- that of the stop holds the time of the stop. The clock shows at least 20 and is not within 30 of
-- 2 ^ 64.
pub windows_tile :
    (now : Result ℕ) (t t' u : ℕ) (config : PyroscopeConfig) (r r' q : List Report)
    → 20 ≤ t
    → u < 2 ^ 64 - 30
    → t' / 10 ≡ t / 10 + 1
    → u / 10 ≡ t' / 10
    → (s : Session) × (s' : Session) × (l : Session) × Ticks now t s
      × Ticks now t' s'
      × Stops now u l
      × (s.reports ≡ r)
      × (s'.reports ≡ r')
      × (l.reports ≡ q)
      × (s.until ≡ s.from + 10)
      × (s'.from ≡ s.until)
      × (s'.until ≡ t' / 10 * 10)
      × (l.from ≡ s'.until)
      × (l.from ≤ u)
      × (u < l.until)
      × (l.until ≡ l.from + 10)
windows_tile now t t' u config r r' q low high next same = (
  session config r (t / 10 * 10 - 10),
  session config r' (t' / 10 * 10 - 10),
  session config q (u / 10 * 10),
  Ticks-session now t config r low (omega arith),
  Ticks-session now t' config r' (omega arith) (omega arith),
  Stops-session now u config q high,
  refl,
  refl,
  refl,
  refl,
  omega arith,
  omega arith,
  omega arith,
  omega arith,
  omega arith,
  refl,
)
