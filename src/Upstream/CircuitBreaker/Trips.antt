-- ===== src/Upstream/CircuitBreaker/Trips.antt =====
-- A run of failures on a CLOSED target.
use parapet.Prelude.{ℕ, ◌+◌, ◌<◌, ◌≡◌, ◌^◌, true, List, [], ◌∷◌, ◌++◌, arith, length}
use parapet.Upstream.CircuitBreaker.Word.{next32}
use parapet.Upstream.CircuitBreaker.Config.{Config, cooldown}
use parapet.Upstream.CircuitBreaker.Breaker.{Breaker, admit_closed, record_closed, record_outcome}
use parapet.Upstream.CircuitBreaker.Phases.{view, IsValid, closed, opened}
use parapet.Upstream.CircuitBreaker.Records.{
  routed, view-record_closed, record_outcome-IsValid, generations-record_closed,
}

-- Requests that a CLOSED target admitted fail one after the other, at these clock readings.
unfoldable pub fail_all : Config → Breaker → List ℕ → Breaker
fail_all c b [] = b
fail_all c b (t ∷ ts) = fail_all c (record_outcome c t b 0 admit_closed true) ts

module _ (c : Config) (small : c.failure_threshold < 2 ^ 31) where
  fail_below :
      (t : ℕ) (b : Breaker) (f : ℕ)
      → IsValid c b
      → view b ≡ closed f
      → f + 1 < c.failure_threshold
      → (view (record_outcome c t b 0 admit_closed true) ≡ closed (f + 1))
        × ((record_outcome c t b 0 admit_closed true).generations ≡ b.generations)
  unfolding routed record_outcome
  fail_below t b f v e h =
      let now_at : view (record_closed c t b true) ≡ closed (f + 1) =
        ground (arith, view-record_closed c t b v true) in
      (now_at, generations-record_closed c t b v (f + 1) now_at)

  fail_last :
      (t : ℕ) (b : Breaker) (f : ℕ)
      → IsValid c b
      → view b ≡ closed f
      → f + 1 ≡ c.failure_threshold
      → view (record_outcome c t b 0 admit_closed true)
        ≡ opened (t + cooldown c (next32 b.generations)) (next32 b.generations) 0
  unfolding routed record_outcome
  fail_last t b f v e h = ground (arith, view-record_closed c t b v true)

  -- Fewer failures than the threshold leave a CLOSED target closed, with every one counted.
  pub view-fail_all :
      (ts : List ℕ) (b : Breaker) (f : ℕ)
      → IsValid c b
      → view b ≡ closed f
      → f + length ts < c.failure_threshold
      → view (fail_all c b ts) ≡ closed (f + length ts)
  unfolding fail_all
  view-fail_all [] b f v e h = ground arith
  view-fail_all (t ∷ ts) b f v e h =
      let (at, kept) = fail_below t b f v e (omega arith) in
      ground (
        arith,
        view-fail_all ts (record_outcome c t b 0 admit_closed true) (f + 1)
            (record_outcome-IsValid c t b v 0 admit_closed true) at,
      )

  -- The failure that completes the threshold trips the target: it is OPEN until the cooldown of one
  -- more trip has passed after that failure.
  pub fail_all_trips :
      (ts : List ℕ) (t : ℕ) (b : Breaker) (f : ℕ)
      → IsValid c b
      → view b ≡ closed f
      → f + length ts + 1 ≡ c.failure_threshold
      → view (fail_all c b (ts ++ t ∷ []))
        ≡ opened (t + cooldown c (next32 b.generations)) (next32 b.generations) 0
  unfolding fail_all record_outcome
  fail_all_trips [] t b f v e h = fail_last t b f v e (omega arith)
  fail_all_trips (u ∷ ts) t b f v e h =
      let (at, kept) = fail_below u b f v e (omega arith) in
      rw kept at (
        fail_all_trips ts t (record_outcome c u b 0 admit_closed true) (f + 1)
          (record_outcome-IsValid c u b v 0 admit_closed true) at (omega arith))
