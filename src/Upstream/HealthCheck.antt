-- ===== src/Upstream/HealthCheck.antt =====
-- pkg/upstream/healthcheck.go, in parts: the configuration, the classification of a failed probe, the
-- verdicts of one target, and the life of its probers.
pub mod Config
pub mod Cause
pub mod Observe
pub mod Crossings
pub mod Life
pub mod Sound
pub mod Closing
