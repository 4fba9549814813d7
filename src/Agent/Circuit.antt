-- ===== src/Agent/Circuit.antt =====
-- The circuit breaker of src/mtbank_ai/agent_runtime/retry.py. The monotonic clock is read in ticks
-- of its resolution; the reading that a method takes is its argument.
mod Defs
pub mod Invariant
pub mod Trip
pub use Defs.{CircuitState, closed, open_, half_open, CircuitBreakerPolicy, CircuitBreaker}
unfoldable pub use Defs.{new, before_call, record_success, record_failure, record_aborted, trip}
