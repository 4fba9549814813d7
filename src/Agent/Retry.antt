-- ===== src/Agent/Retry.antt =====
-- The resilient model client of src/mtbank_ai/agent_runtime/retry.py.
mod Defs
pub mod Delay
pub mod Bounds
pub mod Success
pub mod Recovery
pub mod Probe
pub use Defs.{
  RetryPolicy, ProviderError, Outcome, returned, timed_out, failed, cancelled, Sleep, slept, cut,
  interrupted, Attempt, Arrival, ClientState, CallError, runtime_error, task_cancelled,
  assertion_failed, failure_code,
}
unfoldable pub use Defs.{
  validate_bounds, is_retryable, retry_delay, remaining, after_sleep, back_off, readmit,
  handle_error, handle_outcome, attempt_once, attempts, guarded, release, complete,
}
