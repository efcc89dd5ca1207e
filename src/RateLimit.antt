-- ===== src/RateLimit.antt =====
-- pkg/ratelimit: the limiter strategies and the middleware that drives them.
pub mod FixedWindow
pub mod Limiter
pub mod Concurrent
pub mod LeakyBucket
pub mod SlidingWindow
pub mod ConcurrentQueue
