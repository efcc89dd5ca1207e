-- ===== src/Upstream/CircuitBreaker.antt =====
-- pkg/upstream/circuitbreaker.go, in parts: the packed word, the configuration with its backoff, the
-- state of one target, and the balancer over all of them.
pub mod Word
pub mod Config
pub mod Backoff
pub mod Breaker
pub mod Phases
pub mod Admit
pub mod Refine
pub mod Records
pub mod Trips
pub mod Stale
pub mod Balancer
pub mod Shedding
