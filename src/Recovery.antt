-- ===== src/Recovery.antt =====
-- app/core/resilience/recovery.py: retry with backoff, and the circuit breaker.
pub mod Breaker
pub mod Retry
