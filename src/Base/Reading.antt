-- ===== src/Base/Reading.antt =====
-- Numbers read back from the bytes they were written to.
use Prim.Native.Nat.{ℕ, ◌+◌, ◌<◌, ◌^◌}
use mathlib.Core.Path.{◌≡◌, sym}
use mathlib.Core.List.{List, ◌++◌}
use mathlib.Core.Option.{some}
use native.Mathlib.Omega.{arith}
use pyroscope_rs.Base.Booleans.{le→leb}
use pyroscope_rs.Base.Lists.{length, length-append}
use pyroscope_rs.Base.Bytes.{to_le_bytes, read_le, length-to_le_bytes, from_le_bytes-to_le_bytes}
use pyroscope_rs.Base.Slices.{take-append_length, drop-append}

-- A number of `k` bytes that stands at an offset is read back.
pub read_le-append :
    (k offset v : ℕ) (before behind : List ℕ)
    → offset ≡ length before
    → v < 256 ^ k
    → read_le k (before ++ (to_le_bytes k v ++ behind)) offset ≡ some v
unfolding read_le
read_le-append k offset v before behind e small =
    let lk = length-to_le_bytes k v in
    rw (
      le→leb (offset + k) (length (before ++ (to_le_bytes k v ++ behind))) (
          omega (
            arith,
            length-append before (to_le_bytes k v ++ behind),
            length-append (to_le_bytes k v) behind,
          )),
      drop-append offset 0 before (to_le_bytes k v ++ behind) (omega arith),
      take-append_length k (to_le_bytes k v) behind (sym lk),
      from_le_bytes-to_le_bytes k v small,
    )
