-- ===== src/Cache.antt =====
-- pkg/cache: the response cache.
pub mod Purge
pub mod Storage
pub mod Lru
pub mod Memory
pub mod Policy
pub mod Stale
pub mod Tags
pub mod Tee
pub mod Flight
pub mod Keys
pub mod Invalidation
