-- ===== src/Tests/LeakyBucket.antt =====
-- pkg/ratelimit/leakybucket.go at small inputs: a request every ten nanoseconds and a queue of one.
use parapet.Prelude.{ℕ, ◌≡◌, ◌*◌, ◌-◌, ◌≤◌, refl, List, [], ◌∷◌, some, true, arith, ℕ_discrete}
use parapet.Prelude.Assoc
use parapet.RateLimit.LeakyBucket.{LeakyBucket, new, take, wake, evict_stale, sweep_interval}
use parapet.RateLimit.LeakyBucket.Slots.{Op, taken, woken, swept, Spaced, started_by, run_slots}
use parapet.RateLimit.LeakyBucket.Spacing.{slots-Spaced}

-- Three requests at once: one starts, one queues, one is refused. The queued one wakes late.
abbrev ops : List (ℕ × Op ℕ)
ops =
    (100, taken 7)
    ∷ (101, taken 7)
    ∷ (102, taken 7)
    ∷ (111, woken 7)
    ∷ (70000000000, swept)
    ∷ (70000000001, taken 7)
    ∷ []

abbrev full : LeakyBucket ℕ
full = record {
  storage = (7, record { last = some 110; count = 1 }) ∷ [];
  cleanup_running = true;
  sweep_every = 0;
  per_request = 10;
  size = 1;
}

three_slots : run_slots ℕ_discrete 7 (new 10 1) ops ≡ 100 ∷ 110 ∷ 70000000001 ∷ []
unfolding run_slots new take wake evict_stale sweep_interval ℕ_discrete Assoc.get Assoc.put
    Assoc.delete
three_slots = refl

slots-Spaced_example :
    Spaced 10 100 (run_slots ℕ_discrete 7 (new 10 1) ops)
    × ((started_by 112 (100 ∷ 111 ∷ 70000000001 ∷ []) - 1) * 10 ≤ 112 - 100)
unfolding run_slots new take wake evict_stale sweep_interval ℕ_discrete Assoc.get Assoc.put
    Assoc.delete
slots-Spaced_example =
    slots-Spaced ℕ_discrete 10 1 7 100 112 ops (100 ∷ 111 ∷ 70000000001 ∷ [])
      (omega arith, (omega arith, (omega arith, (omega arith, (omega arith, (omega arith, tt))))))
      (omega arith, (omega arith, (omega arith, tt)))
