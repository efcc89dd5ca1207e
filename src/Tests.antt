-- ===== src/Tests.antt =====
-- Runs of the models, and the theorems at concrete inputs.
pub mod FixedWindow
pub mod CircuitBreaker
pub mod Purge
pub mod Storage
pub mod Policy
pub mod Stale
pub mod Limiter
pub mod LeakyBucket
pub mod Tags
pub mod ConcurrentQueue
pub mod HealthCheck
pub mod Balancers
pub mod ProxyProtocol
pub mod Tee
pub mod Hedging
pub mod Host
pub mod Flight
pub mod Keys
pub mod SlidingWindow
