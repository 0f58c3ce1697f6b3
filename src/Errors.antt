-- ===== src/Errors.antt =====
-- src/error.rs: the errors of the client. Sources that other crates make are left out of the variants
-- that wrap them; of an I/O error the kind that the timer asks for is kept.
use pyroscope_rs.Base.{String}

pub data IoKind : Type 0 where
  interrupted : IoKind
  other : IoKind

pub data PyroscopeError : Type 0 where
  ad_hoc : String → PyroscopeError
  compat : String → PyroscopeError
  backend_impl : PyroscopeError
  reqwest : PyroscopeError
  parse_error : PyroscopeError
  time_source : PyroscopeError
  io : IoKind → PyroscopeError
  json : PyroscopeError

-- `Result<T>`
pub data Result {ℓ} (T : Type ℓ) : Type ℓ where
  err : PyroscopeError → Result T
  ok : T → Result T

infixl 5 ◌>>=◌
abbrev pub ◌>>=◌ {ℓ₁ ℓ₂} : {T : Type ℓ₁} {U : Type ℓ₂} → Result T → (T → Result U) → Result U
err failure >>= next = err failure
ok value >>= next = next value

-- `PyroscopeError::new`
abbrev pub new : String → PyroscopeError
new msg = ad_hoc msg

-- `From<PoisonError>` and `From<SendError>`
abbrev pub poison_error : PyroscopeError
poison_error = ad_hoc "Poison Error"

abbrev pub send_error : PyroscopeError
send_error = compat "SendError Error"
