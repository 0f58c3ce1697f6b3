-- ===== src/BackendImpl.antt =====
-- src/backend/backend.rs: the holder of a backend, which is taken out of it at the shutdown. The trait
-- is the record `Backend`, over the state `B` of an implementation. The type states of the holder are
-- compile-time marks, and the lock is not modelled.
use pyroscope_rs.Base.{List, Option, none, some}
use pyroscope_rs.Backend.{Report, ThreadTag}
use pyroscope_rs.Errors.{Result, err, PyroscopeError, backend_impl}

pub record Backend (B : Type 0) : Type 0 where
  pub initialize : B → Result (Unit {0}) × B
  pub shutdown : B → Result (Unit {0})
  pub report : B → Result (List Report) × B
  pub add_tag : B → ThreadTag → Result (Unit {0}) × B
  pub remove_tag : B → ThreadTag → Result (Unit {0}) × B

module _ {B : Type 0} where
  -- a call through `as_mut` or `as_ref`, with the error for a backend that is gone
  unfoldable pub on_backend :
      {A : Type 0} → PyroscopeError → (B → Result A × B) → Option B → Result A × Option B
  on_backend missing call none = (err missing, none)
  on_backend missing call (some b) = let (result, b') = call b in (result, some b')

  module _ (ops : Backend B) where
    unfoldable pub initialize : Option B → Result (Unit {0}) × Option B
    unfolding on_backend
    initialize = on_backend backend_impl ops.initialize

    unfoldable pub add_tag : Option B → ThreadTag → Result (Unit {0}) × Option B
    unfolding on_backend
    add_tag holder tag = on_backend backend_impl (λ b. ops.add_tag b tag) holder

    unfoldable pub remove_tag : Option B → ThreadTag → Result (Unit {0}) × Option B
    unfolding on_backend
    remove_tag holder rule = on_backend backend_impl (λ b. ops.remove_tag b rule) holder

    unfoldable pub shutdown : Option B → Result (Unit {0}) × Option B
    shutdown none = (err backend_impl, none)
    shutdown (some b) = (ops.shutdown b, none)

    unfoldable pub report : Option B → Result (List Report) × Option B
    unfolding on_backend
    report = on_backend backend_impl ops.report
