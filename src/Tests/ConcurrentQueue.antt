-- ===== src/Tests/ConcurrentQueue.antt =====
-- pkg/ratelimit/concurrentqueue.go at small inputs: one slot and a queue of one.
use parapet.Prelude.{ℕ, ◌+◌, ◌<◌, ◌≡◌, ◌≢◌, refl, [], ◌∷◌, none, some, ℕ_discrete}
use parapet.Prelude.Assoc
use parapet.RateLimit.ConcurrentQueue.{ConcurrentQueue, new, queue, send, settle, put}
use parapet.RateLimit.ConcurrentQueue.Runs.{
  waiting, entered, running, count, Reachable, fresh, queued, sent, settled, IsCounted,
  Reachable-IsCounted, never_stuck,
}

-- One request runs.
abbrev busy : ConcurrentQueue ℕ
busy = record {
  storage = (7, record { process = 1; process_count = 1; queue_count = 0 }) ∷ [];
  capacity = 1;
  size = 1;
}

one-Runs : Reachable ℕ_discrete 1 1 busy ((7, running) ∷ [])
unfolding queue send settle new ℕ_discrete Assoc.get Assoc.put
one-Runs = settled 7 [] [] (
    sent
      {b' = record busy {
        storage = (7, record { process = 1; process_count = 1; queue_count = 1 }) ∷ [];
      }}
      7 [] [] (queued 7 fresh refl) refl)

put_last : put ℕ_discrete busy 7 ≡ some (record busy { storage = [] })
unfolding put ℕ_discrete Assoc.get Assoc.delete Assoc.put
put_last = refl

Reachable-IsCounted_example : IsCounted ℕ_discrete 1 1 busy ((7, running) ∷ [])
Reachable-IsCounted_example = Reachable-IsCounted ℕ_discrete one-Runs

never_stuck_example :
    (running ≡ running → put ℕ_discrete busy 7 ≢ none)
    × (running ≡ waiting
        → count ℕ_discrete entered 7 ((7, running) ∷ [])
            + count ℕ_discrete running 7 ((7, running) ∷ [])
          < 1
        → send ℕ_discrete busy 7 ≢ none)
never_stuck_example = never_stuck ℕ_discrete 7 running [] [] one-Runs
