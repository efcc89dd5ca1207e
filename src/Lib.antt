-- ===== src/Lib.antt =====
-- Verification of parapet, a Go library of HTTP middlewares and load balancers.
--
-- The program. A server is a chain of middlewares around a handler that proxies to upstreams. The
-- parts modelled here are those that keep state or decide: the rate limiters (pkg/ratelimit), the
-- response cache (pkg/cache) with its purge table (pkg/cache/purge), the load balancers and the health
-- checks (pkg/upstream), the PROXY protocol of a listener (pkg/proxyprotocol) and the host blocks
-- (pkg/host). The limiter middleware takes a token from a strategy before the handler runs and puts it
-- back once. The cache lets one request of a key fill at a time, asks the policy what may be stored,
-- writes the response to the client and to a storage that an LRU bounds, classifies what it finds by
-- age and asks the purge table whether an entry was invalidated, and puts a stored response in place of
-- an origin's error. A balancer picks a target that is not ejected, whose breaker admits the request or
-- that has a slot left, and that the health check does not hold down, and records the outcome; the
-- hedging balancer races such picks. A connection of a trusted peer carries the client's address in a
-- header that is read on first use.
--
-- The files.
--   Prelude, GoStrings, GoInt64, GoFloat64: shared helpers, association lists for Go's maps, the functions of
--     Go's `strings`, `strconv` and `net` that the sources call, int64 as 64-bit words, and float64 as a
--     record of operations.
--   RateLimit/FixedWindow: pkg/ratelimit/fixedwindow.go, `Take` and `After`.
--   RateLimit/Concurrent: pkg/ratelimit/concurrent.go, and its runs as a step relation.
--   RateLimit/ConcurrentQueue: pkg/ratelimit/concurrentqueue.go; `Take` is the steps `queue`, `send` and
--     `settle` around its send to a channel, and the runs are a step relation.
--   RateLimit/LeakyBucket: pkg/ratelimit/leakybucket.go; `Take` is the steps `take` and `wake` around
--     its sleep, which may last longer than it was told: `wake` comes at any time.
--   RateLimit/SlidingWindow: pkg/ratelimit/slidingwindow.go, `Take`, `After` and the sweep. `take_by` is
--     `Take` with its comparison as an argument, and `take` gives it `over`; Wait is `After` beside
--     `Take`.
--   RateLimit/Limiter: pkg/ratelimit/ratelimit.go, `ServeHandler` and `responseWriter` over the
--     record `Strategy` of a strategy's operations.
--   Cache/Purge: pkg/cache/purge/purge.go, one function per method of `Table`.
--   Cache/Lru, Cache/Memory, Cache/Storage: pkg/cache/lru.go, memory.go and storage.go.
--   Cache/Policy: pkg/cache/policy.go, the parsers of Cache-Control and Vary, freshness, `decide` and
--     `decideForced`.
--   Cache/Tags: the Cache-Tag parser and the header filter of pkg/cache/tee.go.
--   Cache/Tee: `teeWriter` of pkg/cache/tee.go over the calls of a handler.
--   Cache/Stale: pkg/cache/stale.go, `classify`, `serveableUntil` and `staleGate`.
--   Cache/Flight: `acquire`, `release` and `fillAndServe` of pkg/cache/cache.go, as steps of requests
--     that interleave.
--   Cache/Keys: the keys of primaries and variants in pkg/cache/cache.go.
--   Cache/Invalidation: `InvalidatedAfter` of the purge table as the hook of the cache's `classify`.
--   Upstream/State: pkg/upstream/state.go. Upstream/Gate: how a balancer reads the health check's gate.
--   Upstream/RoundRobin: pkg/upstream/loadbalancer.go.
--   Upstream/HealthCheck: pkg/upstream/healthcheck.go. Observe is one target's verdicts; Life is start,
--     Close and the probers as steps that interleave.
--   Upstream/Ejecting: pkg/upstream/ejecting.go; Race is `eject` at each atomic access.
--   Upstream/LeastConn: pkg/upstream/leastconn.go; Slots is `claim` at each atomic access.
--   Upstream/Weighted: pkg/upstream/weighted.go.
--   Upstream/Hedging: pkg/upstream/hedging.go, each case of the supervisor's `select` as a function, and
--     Race the order in which they come.
--   Upstream/CircuitBreaker: pkg/upstream/circuitbreaker.go. Word is the packed state, Config the
--     defaults and the backoff, Breaker one target's methods, Balancer `pick` and `RoundTrip`; Phases
--     is the state machine that a target promises.
--   ProxyProtocol: pkg/proxyprotocol. Reader is a buffered stream, V1, V2 and Header the parsers of
--     parse.go, Connection the wrapped connection of proxyprotocol.go over its calls.
--   Host: pkg/host/host.go, the normal form of a host and the matching of a block.
--   Tests: runs of the models, and the theorems at concrete inputs.
--
-- Conventions. The clock's reading is an argument of each call. A method that holds a lock, or whose
-- CAS loops meet no interference, is one step; one that lets go of its lock is several. Counters of 32
-- and 64 bits keep their wrap-around, and durations that the source computes from headers are int64
-- words. Limits and sizes that the source has as signed numbers are natural numbers elsewhere. Clock
-- readings and the deadlines that are computed from them are natural numbers as well: those of the
-- source are nanoseconds in an int64, which holds every time before the year 2262.
--
-- Bounds and fuel. `admit` of a breaker loops on three rounds: the first may flip an OPEN target or
-- re-open one whose probe expired, the second meets the new word, and no third is needed. The loop over
-- the parents of a host runs on its length, as each round drops a label and a dot. All other loops are
-- by recursion on lists or on the number of rounds that the source's loop has.
--
-- Parameters. SHA-256 is `digest` of the purge table, http.ParseTime is `parse_time` of the policy,
-- net.ParseIP is `parse_ip` of the PROXY protocol and strings.ToLower is `to_lower` of the host blocks;
-- the networks that are trusted are predicates of an address; float64 of
-- the sliding window is the record `Float64`, with IEEE 754 as the hypothesis `IsRounded`; the transport
-- of a target is a function from its index to what a round trip does; and what the hooks of a balancer or
-- of the cache decide are answers in the events.
--
-- Not modelled: the interleavings of the breaker's atomic operations; of the cache the routing of a
-- request in `serve`, the background revalidation and the disk storage; the Redis limiter; the latency
-- ejecting balancer; the firewall, mirroring, authentication and the proxying; and the middlewares that
-- only call net/http or a library.
pub mod Prelude
pub mod GoStrings
pub mod GoInt64
pub mod GoFloat64
pub mod Cache
pub mod RateLimit
pub mod Tests
pub mod Host
pub mod Upstream
pub mod ProxyProtocol
