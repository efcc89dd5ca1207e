-- ===== src/Tests/Limiter.antt =====
-- pkg/ratelimit/ratelimit.go and concurrent.go at small inputs: one slot for a key.
use parapet.Prelude.{ℕ, ◌≡◌, refl, List, [], ◌∷◌, ◌++◌, true, false, ℕ_discrete}
use parapet.Prelude.Assoc
use parapet.RateLimit.Limiter.{Options, Event, write_header, elsewhere, serve}
use parapet.RateLimit.Limiter.Once.{elapse, serve_once}
use parapet.RateLimit.Concurrent.{ConcurrentStrategy, new, take, put, strategy}
use parapet.RateLimit.Concurrent.Reach.{fresh, admitted, IsExact, Reachable-IsExact}

abbrev released_early : Options
released_early = record { release_on_write_header = true; release_on_hijacked = false }

abbrev events : List (Event (ConcurrentStrategy ℕ))
events = elsewhere (λ s. s) ∷ write_header 200 ∷ elsewhere (λ s. (take ℕ_discrete s 8).0) ∷ []

abbrev one_running : ConcurrentStrategy ℕ
one_running = record { storage = (7, 1) ∷ []; capacity = 1 }

serve_once_example :
    (before : List (Event (ConcurrentStrategy ℕ))) × (after : List (Event (ConcurrentStrategy ℕ)))
    × (before ++ after ≡ events)
    × ((serve (strategy ℕ_discrete) 7 released_early false (new 1) events).0
        ≡ elapse after (put ℕ_discrete (elapse before one_running) 7))
unfolding take new ℕ_discrete Assoc.get Assoc.put
serve_once_example =
    serve_once (strategy ℕ_discrete) 7 released_early false (new 1) one_running events refl

Reachable-IsExact_example : IsExact ℕ_discrete 1 (take ℕ_discrete (new 1) 7).0 (7 ∷ [])
unfolding take new ℕ_discrete Assoc.get
Reachable-IsExact_example = Reachable-IsExact ℕ_discrete (admitted 7 fresh refl)
