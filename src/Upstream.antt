-- ===== src/Upstream.antt =====
-- pkg/upstream: the load balancers and what they keep of each target.
pub mod State
pub mod Gate
pub mod RoundRobin
pub mod HealthCheck
pub mod Ejecting
pub mod LeastConn
pub mod Weighted
pub mod Hedging
pub mod CircuitBreaker
