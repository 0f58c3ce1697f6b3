-- ===== src/Agent/ThreadTags.antt =====
-- The thread tags of a running agent (src/pyroscope.rs).
use pyroscope_rs.Base.{ℕ, String, Option}
use pyroscope_rs.Agent.{System}
use pyroscope_rs.Backend.{Tag, ThreadTag}
use pyroscope_rs.BackendImpl
use pyroscope_rs.BackendImpl.{Backend}
use pyroscope_rs.Errors.{Result, PyroscopeError, ad_hoc}

module _ {B : Type 0} (ops : Backend B) where
  -- `add_thread_tag` and `remove_thread_tag`, and the two functions of `tag_wrapper`
  unfoldable pub add_thread_tag : System B → ℕ → Tag → Result (Unit {0}) × System B
  unfolding BackendImpl.add_tag
  add_thread_tag s thread_id tag =
      let (result, backend) =
        BackendImpl.add_tag ops s.backend (record { tid = thread_id; tag = tag }) in
      (result, record s { backend = backend })

  unfoldable pub remove_thread_tag : System B → ℕ → Tag → Result (Unit {0}) × System B
  unfolding BackendImpl.remove_tag
  remove_thread_tag s thread_id tag =
      let (result, backend) =
        BackendImpl.remove_tag ops s.backend (record { tid = thread_id; tag = tag }) in
      (result, record s { backend = backend })

  abbrev unwrap_error : PyroscopeError
  unwrap_error = ad_hoc "PyroscopeAgent - Failed to unwrap backend"

  unfoldable pub wrapped_add : Option B → ℕ → String → String → Result (Unit {0}) × Option B
  unfolding BackendImpl.on_backend
  wrapped_add holder thread_id key value =
      let rule : ThreadTag = record {
        tid = thread_id;
        tag = record { key = key; value = value };
      } in
      BackendImpl.on_backend unwrap_error (λ b. ops.add_tag b rule) holder

  unfoldable pub wrapped_remove : Option B → ℕ → String → String → Result (Unit {0}) × Option B
  unfolding BackendImpl.on_backend
  wrapped_remove holder thread_id key value =
      let rule : ThreadTag = record {
        tid = thread_id;
        tag = record { key = key; value = value };
      } in
      BackendImpl.on_backend unwrap_error (λ b. ops.remove_tag b rule) holder
