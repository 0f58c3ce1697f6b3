-- ===== src/Base/Bytes.antt =====
-- Little-endian integers in byte slices.
use Prim.Native.Nat.{ℕ, zero, suc, ◌+◌, ◌*◌, ◌/◌, ◌%◌, ◌^◌, ◌<◌}
use mathlib.Core.Path.{◌≡◌, refl, ap}
use mathlib.Core.List.{List, [], ◌∷◌}
use mathlib.Core.Option.{Option, none, some}
use native.Mathlib.Omega.{arith}
use native.Mathlib.Nat.{pow-suc}
use pyroscope_rs.Base.Lists.{All, length, take, drop}
use pyroscope_rs.Base.Booleans.{leb, if◌then◌else◌}

-- `to_le_bytes` of a number of `k` bytes
unfoldable pub to_le_bytes : ℕ → ℕ → List ℕ
to_le_bytes zero v = []
to_le_bytes (suc k) v = (v % 256) ∷ to_le_bytes k (v / 256)

-- `from_le_bytes`
unfoldable pub from_le_bytes : List ℕ → ℕ
from_le_bytes [] = 0
from_le_bytes (b ∷ bs) = b + 256 * from_le_bytes bs

pub length-to_le_bytes : (k v : ℕ) → length (to_le_bytes k v) ≡ k
unfolding to_le_bytes
length-to_le_bytes zero v = refl
length-to_le_bytes (suc k) v = ap suc (length-to_le_bytes k (v / 256))

pub from_le_bytes-to_le_bytes : (k v : ℕ) → v < 256 ^ k → from_le_bytes (to_le_bytes k v) ≡ v
unfolding to_le_bytes from_le_bytes
from_le_bytes-to_le_bytes zero v h = omega arith
from_le_bytes-to_le_bytes (suc k) v h =
    let small : v < 256 ^ k * 256 = rw (pow-suc 256 k) at h in
    omega (arith, from_le_bytes-to_le_bytes k (v / 256) (omega arith))

-- The number of `k` bytes at an offset, or a read out of bounds.
unfoldable pub read_le : ℕ → List ℕ → ℕ → Option ℕ
read_le k buf offset =
    if leb (offset + k) (length buf) then some (from_le_bytes (take k (drop offset buf))) else none

-- `k` bytes are a number below `256 ^ k`.
pub from_le_bytes-lt :
    (bytes : List ℕ) (k : ℕ)
    → All (λ b. b < 256) bytes
    → length bytes ≡ k
    → from_le_bytes bytes < 256 ^ k
unfolding from_le_bytes
from_le_bytes-lt [] zero small h = omega arith
from_le_bytes-lt [] (suc k) small h = absurd (omega arith)
from_le_bytes-lt (b ∷ bs) zero small h = absurd (omega arith)
from_le_bytes-lt (b ∷ bs) (suc k) small h =
    let lt = from_le_bytes-lt bs k small.1 (omega arith) in
    rw (pow-suc 256 k) (omega (arith, small.0))
