-- ===== src/Utils.antt =====
-- src/utils.rs: time ranges of ten seconds, and the check of a return value of libc. A u64 is a number
-- below 2 ^ 64. The argument `now` stands for `get_current_time_secs`: `get_time_range` reads the clock
-- until it shows anything but 0, and `now` is what that reading gave.
use pyroscope_rs.Base.{ℕ, ◌+◌, ◌-◌, ◌*◌, ◌/◌, ◌%◌, ◌^◌, eqb, if◌then◌else◌, Bool}
use pyroscope_rs.Errors.{Result, ok, err, ◌>>=◌, io, IoKind}

pub record TimeRange : Type 0 where
  pub from : ℕ
  pub until : ℕ
  pub current : ℕ
  pub rem : ℕ

-- the range of a timestamp other than 0
unfoldable pub range_of : ℕ → TimeRange
range_of timestamp = record {
  from = timestamp / 10 * 10;
  until = (timestamp / 10 * 10 + 10) % 2 ^ 64;
  current = timestamp;
  rem = 10 - timestamp % 10;
}

unfoldable pub get_time_range : Result ℕ → ℕ → Result TimeRange
unfolding range_of
get_time_range now timestamp =
    if eqb timestamp 0 then (now >>= λ t. ok (range_of t)) else ok (range_of timestamp)

-- an integer of libc: whether it is negative, and its magnitude
abbrev pub CInt : Type 0
CInt = Bool × ℕ

-- `check_err` at those integers; `errno` is the kind of the last error
unfoldable pub check_err : IoKind → CInt → Result CInt
check_err errno (negative, magnitude) =
    if negative then err (io errno) else ok (negative, magnitude)
